-- ===== src/Voicemail/Multiorg/Simulation.antt =====
-- multiorgVoiceMailPackaging/handler.js against voiceMailPackaging/handler.js: behind the read of the
-- cache the one does what the other does, with the name of the secret in every invocation.
use service_cloud_voice_lamb.Common.{
  ℕ, zero, suc, ◌≡◌, refl, sym, ap, ◌∙◌, String, Bool, true, false, Option, none, some, List, [],
  ◌∷◌, ◌++◌, map, append-nil, append_assoc, truthy, if◌then◌else◌,
}
use service_cloud_voice_lamb.Common.Text.{ends_with}
use service_cloud_voice_lamb.Common.Object.{get}
use service_cloud_voice_lamb.Common.Effect.{
  ok, throw, Result, Exec, pure, raise, lift, call, continue, handle, ◌>>=◌,
}
use service_cloud_voice_lamb.Common.Succeeds.{Succeeds, succeed_rules}
use service_cloud_voice_lamb.Voicemail.Packaging
use service_cloud_voice_lamb.Voicemail.Packaging.{Response, Event, Reply, contact_of}
use service_cloud_voice_lamb.Voicemail.Multiorg.{
  Call, get_object_tagging, get_object, wait, invoke, delete_job, Services, first_transcript,
  max_routing_attempts, retrieve_at, retrieve_from_cache, secret_name_of, invocation, route, pack,
  pack_event, handler,
}

-- A call of voiceMailPackaging with the name of a secret.
abbrev pub with_secret : Option String → Packaging.Call → Call
with_secret secret (Packaging.get_object_tagging bucket key) = get_object_tagging bucket key
with_secret secret (Packaging.get_object bucket key) = get_object bucket key
with_secret secret (Packaging.wait seconds) = wait seconds
with_secret secret (Packaging.invoke contact i) = invoke contact i secret
with_secret secret (Packaging.delete_job contact) = delete_job contact

-- The trace of voiceMailPackaging behind the calls that were made before.
abbrev pub behind : Option String → List Call → List Packaging.Call → List Call
behind secret first t = first ++ map (with_secret secret) t

-- The services as voiceMailPackaging sees them.
abbrev pub seen : Services → Option String → List Call → Packaging.Services
seen svc secret first = record {
  delay = svc.delay;
  tags = λ t. svc.tags (behind secret first t);
  transcripts = λ t. svc.transcripts (behind secret first t);
  invoke = λ t. svc.invoke (behind secret first t);
  delete_job = λ t. svc.delete_job (behind secret first t);
}

map-append :
    (f : Packaging.Call → Call) (t u : List Packaging.Call) → map f (t ++ u) ≡ map f t ++ map f u
map-append f [] u = refl
map-append f (c ∷ t) u = ap (◌∷◌ (f c)) (map-append f t u)

module _ (secret : Option String) (first : List Call) where
  behind-last :
      (t : List Packaging.Call) (c : Packaging.Call)
      → behind secret first t ++ with_secret secret c ∷ [] ≡ behind secret first (t ++ c ∷ [])
  behind-last t c =
      append_assoc first (map (with_secret secret) t) (with_secret secret c ∷ [])
      ∙ ap (λ l. first ++ l) (sym (map-append (with_secret secret) t (c ∷ [])))

  -- `n` gives what `m` gives, with the calls of `m` behind the first ones.
  record Mirrors {A : Type 0} (m : Exec Packaging.Call A) (n : Exec Call A) : Type 0 where
    at :
        (t : List Packaging.Call)
        → n (behind secret first t) ≡ ((m t).0, behind secret first (m t).1)

  module _ {A : Type 0} where
    Mirrors-pure : (a : A) → Mirrors (pure a) (pure a)
    unfolding pure
    Mirrors-pure a = record { at = λ t. refl }

    Mirrors-raise : (e : String) → Mirrors {A = A} (raise e) (raise e)
    unfolding raise
    Mirrors-raise e = record { at = λ t. refl }

    Mirrors-call :
        (c : Packaging.Call) (answer : List Call → Result A)
        → Mirrors
            (call c (λ t. answer (behind secret first t)))
            (call (with_secret secret c) answer)
    unfolding call
    Mirrors-call c answer = record {
      at = λ t. ap (λ u. (answer (behind secret first t), u)) (behind-last t c);
    }

    Mirrors-if :
        (b : Bool) (m m' : Exec Packaging.Call A) (n n' : Exec Call A)
        → Mirrors m n
        → Mirrors m' n'
        → Mirrors (if b then m else m') (if b then n else n')
    Mirrors-if true m m' n n' p q = p
    Mirrors-if false m m' n n' p q = q

  module _ {A B : Type 0} where
    continue-behind :
        (r : Result A) (f : A → Exec Packaging.Call B) (g : A → Exec Call B)
        (u : List Packaging.Call)
        → ((a : A) → Mirrors (f a) (g a))
        → continue r g (behind secret first u)
          ≡ ((continue r f u).0, behind secret first (continue r f u).1)
    continue-behind (ok a) f g u k = (k a).at u
    continue-behind (throw e) f g u k = refl

    Mirrors-bind :
        (m : Exec Packaging.Call A) (n : Exec Call A) (f : A → Exec Packaging.Call B)
        (g : A → Exec Call B)
        → Mirrors m n
        → ((a : A) → Mirrors (f a) (g a))
        → Mirrors (m >>= f) (n >>= g)
    unfolding ◌>>=◌
    Mirrors-bind m n f g h k = record {
      at = λ t. rw (h.at t) (continue-behind (m t).0 f g (m t).1 k);
    }

  module _ {A : Type 0} where
    recover-behind :
        (r : Result A) (u : List Packaging.Call)
        → handle (lift r) (λ e. raise e) (behind secret first u) ≡ (
          (handle (lift r) (λ e. raise {C = Packaging.Call} e) u).0,
          behind secret first (handle (lift r) (λ e. raise {C = Packaging.Call} e) u).1,
        )
    unfolding handle lift raise
    recover-behind (ok a) u = refl
    recover-behind (throw e) u = refl

    -- A `catch` that throws its error again.
    Mirrors-rethrow :
        (m : Exec Packaging.Call A) (n : Exec Call A)
        → Mirrors m n
        → Mirrors (handle m (λ e. raise e)) (handle n (λ e. raise e))
    unfolding handle lift raise
    Mirrors-rethrow m n h = record { at = λ t. rw (h.at t) (recover-behind (m t).0 (m t).1) }

module _ (svc : Services) (secret : Option String) (first : List Call) where
  transcript-Mirrors :
      (l : List String) → Mirrors secret first (Packaging.first_transcript l) (first_transcript l)
  transcript-Mirrors [] = Mirrors-raise secret first "TypeError"
  transcript-Mirrors (s ∷ rest) = Mirrors-pure secret first s

  invocation-Mirrors :
      (contact : String) (i : Packaging.Invocation)
      → Mirrors secret first
          (Packaging.invocation (seen svc secret first) contact i)
          (invocation svc secret contact i)
  invocation-Mirrors contact i = Mirrors-call secret first (Packaging.invoke contact i) svc.invoke

  route-Mirrors :
      (contact : String) (dialed : Option String) (n : ℕ) (last : Option Response)
      → Mirrors secret first
          (Packaging.route (seen svc secret first) contact dialed n last)
          (route svc secret contact dialed n last)
  unfolding Packaging.route route
  route-Mirrors contact dialed zero last = Mirrors-pure secret first last
  route-Mirrors contact dialed (suc n) last =
      Mirrors-bind secret first _ _ _ _
        (Mirrors-call secret first (Packaging.wait svc.delay) (λ t. ok tt))
        (λ u.
          Mirrors-bind secret first _ _ _ _
            (invocation-Mirrors contact (Packaging.omni_flow dialed))
            (λ answer.
              Mirrors-if secret first (truthy answer.function_error) _ _ _ _
                (route-Mirrors contact dialed n (some answer))
                (Mirrors-pure secret first (some answer))))

  pack-Mirrors :
      (bucket key : String)
      → Mirrors secret first
          (Packaging.pack (seen svc secret first) bucket key)
          (pack svc secret bucket key)
  unfolding Packaging.pack pack Packaging.max_routing_attempts max_routing_attempts
  pack-Mirrors bucket key =
      let made = invocation-Mirrors (contact_of key) in
      Mirrors-bind secret first _ _ _ _
        (Mirrors-call secret first (Packaging.get_object_tagging bucket (Packaging.wav_key_of key))
          svc.tags)
        (λ tags.
          Mirrors-bind secret first _ _ _ _
            (Mirrors-call secret first (Packaging.get_object bucket key) svc.transcripts)
            (λ transcripts.
              Mirrors-bind secret first _ _ _ _ (transcript-Mirrors transcripts) (λ transcript.
                Mirrors-bind secret first _ _ _ _ (made _) (λ created.
                  Mirrors-bind secret first _ _ _ _ (made _) (λ sent.
                    Mirrors-bind secret first _ _ _ _
                      (route-Mirrors (contact_of key) (get "vm_dialedNumber" tags) 4 none)
                      (λ routed. Mirrors-bind secret first _ _ _ _ (made Packaging.close) (λ closed.
                        Mirrors-bind secret first _ _ _ _
                          (Mirrors-call secret first (Packaging.delete_job (contact_of key))
                            svc.delete_job)
                          (λ deleted. Mirrors-pure secret first _))))))))

  handler-Mirrors :
      (e : Event)
      → ends_with e.key ".json" ≡ true
      → Mirrors secret first (Packaging.handler (seen svc secret first) e) (pack_event svc e secret)
  unfolding Packaging.handler pack_event
  handler-Mirrors e h = rw h (
      Mirrors-rethrow secret first _ _ (
        Mirrors-bind secret first _ _ _ _ (pack-Mirrors e.bucket e.key)
          (λ r. Mirrors-pure secret first (Packaging.results r))))

continued_with :
    {A : Type 0} (m : Exec Call (Option String)) (f : Option String → Exec Call A) (t : List Call)
    (secret : Option String)
    → (m t).0 ≡ ok secret
    → (m >>= f) t ≡ f secret (m t).1
unfolding ◌>>=◌
continued_with m f t secret p = rw p refl

secret-Succeeds : (svc : Services) (contact : String) → Succeeds (secret_name_of svc contact)
unfolding secret_name_of retrieve_from_cache retrieve_at
secret-Succeeds svc contact = search succeed_rules depth 12

-- For the key of a transcript the read of the cache gives a name of a secret, or none, and then the
-- lambda gives what voiceMailPackaging gives with the same services, and makes the calls that it
-- makes, in the same order, with that name in every invocation.
pub handler-mirrors :
    (svc : Services) (e : Event) (t : List Call)
    → ends_with e.key ".json" ≡ true
    → (secret : Option String) × ((secret_name_of svc (contact_of e.key) t).0 ≡ ok secret)
      × (handler svc e t ≡ (
          let first = (secret_name_of svc (contact_of e.key) t).1 in
          let single = Packaging.handler (seen svc secret first) e [] in
          (single.0, behind secret first single.1)))
unfolding handler
handler-mirrors svc e t h =
    let (secret, p) = (secret-Succeeds svc (contact_of e.key)).at t in
    let first = (secret_name_of svc (contact_of e.key) t).1 in
    (
      secret,
      p,
      rw h (
          continued_with (secret_name_of svc (contact_of e.key)) (pack_event svc e) t secret p
          ∙ ap (pack_event svc e secret) (sym (append-nil first))
          ∙ (handler-Mirrors svc secret first e h).at []),
    )
