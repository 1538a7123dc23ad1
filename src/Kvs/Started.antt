-- ===== src/Kvs/Started.antt =====
-- What kvsConsumerTrigger starts, and when it answers.
use service_cloud_voice_lamb.Common.{
  ◌≡◌, refl, ◌⊎◌, inl, inr, String, Bool, true, Option, none, some, List, [], ◌∷◌, ◌++◌, truthy,
  text_of, ◌or_else◌, Bool-cases, arith, append_assoc,
}
use service_cloud_voice_lamb.Common.Object.{Object, get}
use service_cloud_voice_lamb.Common.Effect.{
  Result, ok, throw, then_ok, raise, lift, call, ask, ◌>>=◌,
}
use service_cloud_voice_lamb.Kvs.{
  Audio, ContactData, Event, Payload, Call, invoke, respond, Services, defined, unless_empty,
  resolved_secret, payload_for, require_secret, build_payload, handler, invoked, run,
}

-- A property that is left out or has a text.
abbrev pub is_proper : Option String → Bool
is_proper none = true
is_proper (some s) = truthy (some s)

-- The payload names a secret and an engine, and no vocabulary or specialty of it is an empty text.
pub record IsStartable (p : Payload) : Type 0 where
  pub secret : truthy (some p.secret_name) ≡ true
  pub engine : truthy (some p.engine) ≡ true
  pub vocabulary : is_proper p.vocabulary_name ≡ true
  pub filter : is_proper p.vocabulary_filter_name ≡ true
  pub method : is_proper p.vocabulary_filter_method ≡ true
  pub specialty : is_proper p.specialty ≡ true

unless_empty-is_proper : (v : Option String) → is_proper (unless_empty v) ≡ true
unless_empty-is_proper none = refl
unless_empty-is_proper (some s) = ground arith

or_else-truthy : (v : Option String) → truthy (v or_else some "standard") ≡ true
or_else-truthy v = elim (Bool-cases (truthy v)) [ inl e ↦ rw (e, e) refl | inr e ↦ rw e refl ]

truthy-text_of : (v : Option String) → truthy v ≡ true → truthy (some (text_of v)) ≡ true
truthy-text_of none h = cc
truthy-text_of (some s) h = h

payload_for-IsStartable :
    (secret : Option String) (d : ContactData) (attributes : Object String) (audio : Audio)
    (address : Option String) (params : Object String)
    → truthy secret ≡ true
    → IsStartable (payload_for secret d attributes audio address params)
unfolding payload_for
payload_for-IsStartable secret d attributes audio address params h = record {
  secret = truthy-text_of secret h;
  engine =
      truthy-text_of (get "engine" params or_else some "standard")
        (or_else-truthy (get "engine" params));
  vocabulary = unless_empty-is_proper (get "vocabularyName" params);
  filter = unless_empty-is_proper (get "vocabularyFilterName" params);
  method = unless_empty-is_proper (get "vocabularyFilterMethod" params);
  specialty = unless_empty-is_proper (get "specialty" params);
}

-- The value of a result satisfies `Q`, if there is one.
abbrev Holds : {A : Type 0} → (A → Type 0) → Result A → Type 0
Holds Q (ok a) = Q a
Holds Q (throw e) = Unit

then_ok-Holds :
    {A B : Type 0} (Q : B → Type 0) (r : Result A) (f : A → Result B)
    → ((a : A) → Holds Q (f a))
    → Holds Q (then_ok r f)
then_ok-Holds Q (ok a) f h = h a
then_ok-Holds Q (throw e) f h = tt

require_secret-Holds :
    (secret : Option String) (p : Payload)
    → (truthy secret ≡ true → IsStartable p)
    → Holds IsStartable (require_secret secret p)
unfolding require_secret
require_secret-Holds secret p h = elim (Bool-cases (truthy secret)) [
  | inl e ↦ rw e (h e)
  | inr e ↦ rw e tt
]

build_payload-Holds :
    (configured : Option String) (e : Event) → Holds IsStartable (build_payload configured e)
unfolding build_payload
build_payload-Holds configured e = then_ok-Holds IsStartable (defined e.contact_data) _ λ d.
    then_ok-Holds IsStartable (defined d.attributes) _ λ attributes.
      then_ok-Holds IsStartable (defined d.audio) _ λ audio.
        then_ok-Holds IsStartable (defined d.customer_endpoint) _ λ address.
          then_ok-Holds IsStartable (defined e.parameters) _ λ params.
            let secret : Option String = resolved_secret configured attributes in
            require_secret-Holds secret _
              (payload_for-IsStartable secret d attributes audio address params)

-- The calls of a run that starts the transcriber with `p`, for the error that the start ends with.
abbrev pub started : Payload → Option String → List Call
started p none = invoke p ∷ respond ∷ respond ∷ []
started p (some err) = invoke p ∷ respond ∷ []

abbrev pub ending : Option String → Result (Unit {0})
ending none = ok tt
ending (some err) = throw err

-- A run is refused before it calls anything, or starts the transcriber once with a proper payload.
abbrev pub IsRun : Services → List Call → Result (Unit {0}) × List Call → Type 0
IsRun svc t r =
    ((message : String) × (r ≡ (throw message, t)))
    ⊎ ((p : Payload) × IsStartable p
        × (let err = svc.outcome ((t ++ invoke p ∷ []) ++ respond ∷ []) in
            r ≡ (ending err, t ++ started p err)))

invoked-run :
    (svc : Services) (p : Payload) (t : List Call) (err : Option String)
    → invoked svc err ((t ++ invoke p ∷ []) ++ respond ∷ []) ≡ (ending err, t ++ started p err)
unfolding invoked call raise
invoked-run svc p t none = rw (append_assoc, append_assoc) refl
invoked-run svc p t (some err) = rw append_assoc refl

built-IsRun :
    (svc : Services) (e : Event) (t : List Call) (r : Result Payload)
    → build_payload svc.secret_name e ≡ r
    → Holds IsStartable r
    → IsRun svc t (run svc e t)
unfolding run handler call ask lift ◌>>=◌
built-IsRun svc e t (ok p) h q = inr (p, q, rw h (invoked-run svc p t _))
built-IsRun svc e t (throw message) h q = inl (message, rw h refl)

-- Whatever happens, a run is refused before any call, or starts the transcriber exactly once, with a
-- payload that names a secret and an engine, and answers the contact flow at once. When the start
-- succeeds, it is answered a second time; when it fails, the error is thrown after the flow was told
-- of a success.
pub run-IsRun : (svc : Services) (e : Event) (t : List Call) → IsRun svc t (run svc e t)
run-IsRun svc e t = built-IsRun svc e t _ refl (build_payload-Holds svc.secret_name e)
