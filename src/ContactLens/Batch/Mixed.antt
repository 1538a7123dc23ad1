-- ===== src/ContactLens/Batch/Mixed.antt =====
-- The one secret of the bulk request of contactLensProcessor/handler.js.
use service_cloud_voice_lamb.Common.{
  ◌≡◌, refl, ap, ◌∙◌, ◌≢◌, ◌⊎◌, inl, inr, String, Option, none, some, List, [], ◌∷◌, ◌++◌, ◌==◌,
  arith, eq_iff, text_of, count, replicate, Bool-cases, includes, if◌then◌else◌,
}
use service_cloud_voice_lamb.Common.Object.{Object, get, keys}
use service_cloud_voice_lamb.ContactLens.Calls.{Message}
use service_cloud_voice_lamb.ContactLens.Batch.{
  Collected, add_member, group_by_secret, BulkPayload, entry_for, push_entries, push_groups,
  build_bulk,
}
use service_cloud_voice_lamb.ContactLens.Batch.Entries.{entries_for, entries-build_bulk}
use service_cloud_voice_lamb.ContactLens.Batch.Linked.{IsLinked}

-- Of the secrets of the contacts, in their order, the last one that is not also the secret of an
-- earlier contact; `seen` are those of the contacts in front, and `found` is the last of these.
abbrev pub last_new : List String → Option String → Object (Option String) → Option String
last_new seen found [] = found
last_new seen found ((c, s) ∷ rest) =
    if includes seen (text_of s)
    then last_new seen found rest
    else last_new (seen ++ text_of s ∷ []) (some (text_of s)) rest

-- The key of the last group.
last_key : Option String → Object (List String) → Option String
last_key found [] = found
last_key found ((s, cs) ∷ groups) = last_key (some s) groups

-- No group is empty.
AllFilled : Object (List String) → Type 0
AllFilled [] = Unit
AllFilled ((s, []) ∷ groups) = ⊥
AllFilled ((s, c ∷ cs) ∷ groups) = AllFilled groups

keys-add_member :
    (s c : String) (groups : Object (List String))
    → keys (add_member s c groups)
      ≡ (if includes (keys groups) s then keys groups else keys groups ++ s ∷ [])
unfolding add_member
keys-add_member s c [] = refl
keys-add_member s c ((k, cs) ∷ groups) = ground (arith, keys-add_member s c groups)

last_key-add_member :
    (s c : String) (found : Option String) (groups : Object (List String))
    → last_key found (add_member s c groups)
      ≡ (if includes (keys groups) s then last_key found groups else some s)
unfolding add_member last_key
last_key-add_member s c found [] = refl
last_key-add_member s c found ((k, cs) ∷ groups) =
    ground (arith, last_key-add_member s c (some k) groups)

filled_more :
    (s c : String) (cs : List String) (groups : Object (List String))
    → AllFilled groups
    → AllFilled ((s, cs ++ c ∷ []) ∷ groups)
unfolding AllFilled
filled_more s c [] groups h = h
filled_more s c (d ∷ cs) groups h = h

add_member-AllFilled :
    (s c : String) (groups : Object (List String))
    → AllFilled groups
    → AllFilled (add_member s c groups)
unfolding add_member AllFilled
add_member-AllFilled s c [] h = tt
add_member-AllFilled s c ((k, []) ∷ groups) h = absurd h
add_member-AllFilled s c ((k, d ∷ cs) ∷ groups) h = elim (Bool-cases (k == s)) [
  | inl e ↦ rw e h
  | inr e ↦ rw e (add_member-AllFilled s c groups h)
]

group_by_secret-AllFilled :
    (secrets : Object (Option String)) (groups : Object (List String))
    → AllFilled groups
    → AllFilled (group_by_secret secrets groups)
unfolding group_by_secret
group_by_secret-AllFilled [] groups h = h
group_by_secret-AllFilled ((c, s) ∷ rest) groups h =
    group_by_secret-AllFilled rest _ (add_member-AllFilled (text_of s) c groups h)

-- The last group is that of the last new secret.
last_key-group :
    (found : Option String) (secrets : Object (Option String)) (groups : Object (List String))
    → last_key found (group_by_secret secrets groups)
      ≡ last_new (keys groups) (last_key found groups) secrets
unfolding group_by_secret
last_key-group found [] groups = refl
last_key-group found ((c, s) ∷ rest) groups =
    let step = last_key-group found rest (add_member (text_of s) c groups) in
    let k = keys-add_member (text_of s) c groups in
    let l = last_key-add_member (text_of s) c found groups in
    elim (Bool-cases (includes (keys groups) (text_of s))) [
      | inl e ↦ rw e (step ∙ rw (k, l, e) refl)
      | inr e ↦ rw e (step ∙ rw (k, l, e) refl)
    ]

module _ (messages : Object (List Message)) where
  secret-push_entries :
      (s c : String) (cs : List String) (p : BulkPayload)
      → (push_entries messages s (c ∷ cs) p).secret_name ≡ some s
  unfolding push_entries
  secret-push_entries s c [] p = refl
  secret-push_entries s c (d ∷ cs) p =
      secret-push_entries s d cs
        (record { secret_name = some s; entries = p.entries ++ entry_for messages c ∷ [] })

  secret-push_groups :
      (groups : Object (List String)) (p : BulkPayload)
      → AllFilled groups
      → (push_groups messages groups p).secret_name ≡ last_key p.secret_name groups
  unfolding push_groups AllFilled last_key
  secret-push_groups [] p h = refl
  secret-push_groups ((s, []) ∷ groups) p h = absurd h
  secret-push_groups ((s, c ∷ cs) ∷ groups) p h =
      secret-push_groups groups _ h ∙ ap (λ o. last_key o groups) (secret-push_entries s c cs p)

secret-build_bulk : (st : Collected) → (build_bulk st).secret_name ≡ last_new [] none st.secrets
unfolding build_bulk AllFilled last_key
secret-build_bulk st =
    secret-push_groups st.messages (group_by_secret st.secrets []) _
      (group_by_secret-AllFilled st.secrets [] tt)
    ∙ last_key-group none st.secrets []

registered_entry :
    (st : Collected) (a s : String)
    → IsLinked st
    → get a st.secrets ≡ some (some s)
    → entries_for a (build_bulk st).entries ≡ entry_for st.messages a ∷ []
registered_entry st a s h p =
    let once : count a (keys st.secrets) ≡ 1 = ground (arith, h.unique a) in
    entries-build_bulk st a ∙ ap (λ n. replicate n (entry_for st.messages a)) once

differs : (o : Option String) (sa sb : String) → sa ≢ sb → (o ≢ some sa) ⊎ (o ≢ some sb)
differs none sa sb ne = inl (λ e. cc)
differs (some s) sa sb ne = elim (Bool-cases (s == sa)) [
  | inl e ↦ inr (λ p. ne (cc ((eq_iff s sa).0 e)))
  | inr e ↦ inl (λ p. let q : s ≡ sa = cc in cc (e, (eq_iff s sa).1 q))
]

-- The bulk request has one secret: of the secrets of its contacts, in their order, the last one that
-- is not also the secret of an earlier contact. Of two contacts with different secrets that are in
-- it, the messages of at least one are sent under a secret that is not its own.
pub mixed_secrets :
    (st : Collected) (a b sa sb : String)
    → IsLinked st
    → get a st.secrets ≡ some (some sa)
    → get b st.secrets ≡ some (some sb)
    → sa ≢ sb
    → (entries_for a (build_bulk st).entries ≡ entry_for st.messages a ∷ [])
      × (entries_for b (build_bulk st).entries ≡ entry_for st.messages b ∷ [])
      × ((build_bulk st).secret_name ≡ last_new [] none st.secrets)
      × (((build_bulk st).secret_name ≢ some sa) ⊎ ((build_bulk st).secret_name ≢ some sb))
mixed_secrets st a b sa sb h pa pb ne = (
  registered_entry st a sa h pa,
  registered_entry st b sb h pb,
  secret-build_bulk st,
  differs (build_bulk st).secret_name sa sb ne,
)
