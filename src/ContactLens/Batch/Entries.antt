-- ===== src/ContactLens/Batch/Entries.antt =====
-- The entries of the bulk request of contactLensProcessor/handler.js.
use service_cloud_voice_lamb.Common.{
  ℕ, zero, suc, ◌+◌, ◌≡◌, refl, sym, ap, ◌∙◌, inl, inr, String, Option, some, List, [], ◌∷◌, ◌++◌,
  ◌==◌, arith, eq_iff, text_of, keep, keep-append, count, count-append, replicate, append_assoc,
  append-nil, Bool-cases,
}
use service_cloud_voice_lamb.Common.Object.{Object, get, keys}
use service_cloud_voice_lamb.Common.Effect.{ok}
use service_cloud_voice_lamb.ContactLens.Calls.{Message, Entry, Call, Services, KinesisRecord}
use service_cloud_voice_lamb.ContactLens.Batch.{
  Collected, or_empty, process_records, nothing_collected, add_member, group_by_secret, BulkPayload,
  entry_for, push_entries, push_groups, build_bulk,
}
use service_cloud_voice_lamb.ContactLens.Batch.Collect.{messages_of, process_records-messages}
use service_cloud_voice_lamb.ContactLens.Batch.Linked.{IsLinked, process_records-IsLinked}

abbrev members : Object (List String) → List String
members [] = []
members ((s, cs) ∷ groups) = cs ++ members groups

count-add_member :
    (c secret contact : String) (groups : Object (List String))
    → count c (members (add_member secret contact groups))
      ≡ count c (members groups) + count c (contact ∷ [])
unfolding add_member
count-add_member c secret contact [] = ground arith
count-add_member c secret contact ((s, cs) ∷ groups) = ground (
  arith,
  count-add_member c secret contact groups,
  count-append c cs (members groups),
  count-append c cs (contact ∷ []),
  count-append c (cs ++ contact ∷ []) (members groups),
  count-append c cs (members (add_member secret contact groups)),
)

-- Grouping loses no contact and doubles none.
count-group_by_secret :
    (c : String) (secrets : Object (Option String)) (groups : Object (List String))
    → count c (members (group_by_secret secrets groups))
      ≡ count c (members groups) + count c (keys secrets)
unfolding group_by_secret
count-group_by_secret c [] groups = omega arith
count-group_by_secret c ((contact, secret) ∷ rest) groups = ground (
  arith,
  count-group_by_secret c rest (add_member (text_of secret) contact groups),
  count-add_member c (text_of secret) contact groups,
)

-- The entries for one contact.
abbrev pub entries_for : String → List Entry → List Entry
entries_for c = keep (λ e. e.vendor_call_key == c)

replicate-append {ℓ} :
    {A : Type ℓ} (n m : ℕ) (x : A) → replicate n x ++ replicate m x ≡ replicate (n + m) x
replicate-append zero m x = let e : zero + m ≡ m = omega arith in rw e
replicate-append (suc n) m x =
    let e : suc n + m ≡ suc (n + m) = omega arith in rw e (ap (◌∷◌ x) (replicate-append n m x))

module _ (messages : Object (List Message)) (c : String) where
  abbrev copies : ℕ → List Entry
  copies n = replicate n (entry_for messages c)

  kept_entry : (k : String) → entries_for c (entry_for messages k ∷ []) ≡ copies (count c (k ∷ []))
  unfolding entry_for
  kept_entry k = elim (Bool-cases (k == c)) [
    | inl e ↦ rw e (rw ((eq_iff k c).0 e) refl)
    | inr e ↦ rw e
  ]

  entries-push_entries :
      (secret : String) (cs : List String) (p : BulkPayload)
      → entries_for c (push_entries messages secret cs p).entries
        ≡ entries_for c p.entries ++ copies (count c cs)
  unfolding push_entries
  entries-push_entries secret [] p = sym (append-nil _)
  entries-push_entries secret (k ∷ ks) p =
      let p' : BulkPayload = record {
        secret_name = some secret;
        entries = p.entries ++ entry_for messages k ∷ [];
      } in
      let sum : count c (k ∷ []) + count c ks ≡ count c (k ∷ ks) = ground arith in
      entries-push_entries secret ks p'
      ∙ ap (λ l. l ++ copies (count c ks))
          (keep-append (λ e. e.vendor_call_key == c) p.entries (entry_for messages k ∷ [])
            ∙ ap (λ l. entries_for c p.entries ++ l) (kept_entry k))
      ∙ append_assoc (entries_for c p.entries) _ _
      ∙ ap (λ l. entries_for c p.entries ++ l)
          (replicate-append (count c (k ∷ [])) (count c ks) _ ∙ ap copies sum)

  entries-push_groups :
      (groups : Object (List String)) (p : BulkPayload)
      → entries_for c (push_groups messages groups p).entries
        ≡ entries_for c p.entries ++ copies (count c (members groups))
  unfolding push_groups
  entries-push_groups [] p = sym (append-nil _)
  entries-push_groups ((s, cs) ∷ groups) p =
      entries-push_groups groups (push_entries messages s cs p)
      ∙ ap (λ l. l ++ copies (count c (members groups))) (entries-push_entries s cs p)
      ∙ append_assoc (entries_for c p.entries) _ _
      ∙ ap (λ l. entries_for c p.entries ++ l)
          (replicate-append (count c cs) (count c (members groups)) _
            ∙ ap copies (sym (count-append c cs (members groups))))

pub entries-build_bulk :
    (st : Collected) (c : String)
    → entries_for c (build_bulk st).entries
      ≡ replicate (count c (keys st.secrets)) (entry_for st.messages c)
unfolding build_bulk
entries-build_bulk st c =
    let e : count c (members (group_by_secret st.secrets [])) ≡ count c (keys st.secrets) =
      omega (arith, count-group_by_secret c st.secrets []) in
    entries-push_groups st.messages c (group_by_secret st.secrets []) _
    ∙ ap (λ n. replicate n (entry_for st.messages c)) e

abbrev pub entry_or_none : String → List Message → List Entry
entry_or_none c [] = []
entry_or_none c (m ∷ ms) = record { vendor_call_key = c; messages = m ∷ ms } ∷ []

one_entry :
    (c : String) (st : Collected)
    → IsLinked st
    → entries_for c (build_bulk st).entries ≡ entry_or_none c (or_empty (get c st.messages))
unfolding entry_for
one_entry c st h = entries-build_bulk st c ∙ ground (arith, h.unique c, h.linked c)

-- Every contact with at least one utterance in the SEGMENTS records has exactly one entry in the
-- bulk request, which holds all its messages in the order of the stream; no other contact has one.
pub build_bulk-entries :
    (svc : Services) (rs : List KinesisRecord) (t : List Call) (st : Collected) (c : String)
    → (process_records svc rs nothing_collected t).0 ≡ ok st
    → entries_for c (build_bulk st).entries ≡ entry_or_none c (messages_of c rs)
build_bulk-entries svc rs t st c e =
    one_entry c st (process_records-IsLinked svc rs t st e)
    ∙ ap (entry_or_none c) (process_records-messages svc rs t st c e)
