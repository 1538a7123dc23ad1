-- ===== src/ContactEvents/Multi/Forwarded.antt =====
-- What multiorgHandleContactEvents/handler.js hands over to invokeTelephonyIntegrationApi, and which
-- secret that lambda then reads.
use service_cloud_voice_lamb.Common.{
  ◌≡◌, refl, subst, ap, ◌∙◌, inl, inr, Bool-cases, not, ◌||◌, ◌or_else◌, String, Bool, true, false,
  Option, none, some, List, [], ◌∷◌, ◌++◌, truthy, text_of, if◌then◌else◌, ◌&&◌,
}
use service_cloud_voice_lamb.Common.Object.{get}
use service_cloud_voice_lamb.Common.Effect.{
  ok, throw, Result, pure, lift, call, handle, ◌>>=◌, ◌>>◌,
}
use service_cloud_voice_lamb.Common.Succeeds.{Succeeds, succeed_rules}
use service_cloud_voice_lamb.Common.Trace.{Extends, Only, only_rules}
use service_cloud_voice_lamb.Telephony.Calls.{
  Parameters, Event as TelephonyEvent, Services as TelephonyServices,
}
use service_cloud_voice_lamb.Telephony.Cache.{bucket_of, key_of}
use service_cloud_voice_lamb.Telephony.Handler.Names.{resolved_secret}
use service_cloud_voice_lamb.ContactEvents.Calls.{Event, Call, invoke, Services}
use service_cloud_voice_lamb.ContactEvents.Rules.{
  is_disconnected_event_for_abandoned_call, multiorg_is_routing_criteria_expired_event_for_call,
}
use service_cloud_voice_lamb.ContactEvents.Single.{contact_of}
use service_cloud_voice_lamb.ContactEvents.Multi.{
  is_space, is_blank, if_named, is_valid_contact, payload, retrieve_at, retrieve_from_cache,
  read_configs, secret_of_contact, process_event, react, handler,
}

abbrev chosen : Bool → Result Bool → Option String
chosen true r = some "cancelOmniFlowExecution"
chosen false (ok true) = some "rerouteFlowExecution"
chosen false (ok false) = none
chosen false (throw err) = none

-- The method that an event asks for, if it asks for one.
abbrev pub wanted : Event → Option String
wanted e =
    chosen (is_disconnected_event_for_abandoned_call e)
      (multiorg_is_routing_criteria_expired_event_for_call e)

-- The event that the telephony lambda receives with these parameters.
abbrev pub event_with : Parameters → TelephonyEvent
event_with p = record { detail_type = none; parameters = p; contact_data = none }

abbrev pub IsNotInvoke : Call → Type 0
IsNotInvoke (invoke p) = ⊥
IsNotInvoke c = Unit

-- A text with a character that `trim` leaves.
abbrev pub has_text : String → Bool
has_text String.[] = false
has_text (String.◌∷◌ c s) = let rest = has_text s in not (is_space c) || rest

abbrev pub is_named : Option String → Bool
is_named none = false
is_named (some s) = has_text s

-- What the object in the cache names, which is nothing if it cannot be read.
abbrev pub name_in : Result (Option String) → Option String
name_in (ok name) = name
name_in (throw err) = none

-- The name that the cache, if one is configured, has for a contact that is not blank, in the bucket
-- and under the key where invokeTelephonyIntegrationApi stores it.
abbrev pub cached_name : Services → Option String → List Call → Option String
cached_name svc contact t =
    let location = text_of svc.secret_cache_s3 in
    if is_named contact && truthy svc.secret_cache_s3
    then name_in (svc.get_cached t (bucket_of location) (key_of location (text_of contact)))
    else none

-- From the trace `t` to the trace `u` the telephony lambda is invoked once, by the last call, with
-- the method and the contact; it then reads the secret that the cache names for the contact, or its
-- own one if the cache names none.
abbrev pub IsHandedOver :
    Services → TelephonyServices → Option String → String → List Call → List Call → Type 0
IsHandedOver svc telephony contact method_name t u =
    (before : List Call) × (p : Parameters) × (u ≡ before ++ invoke p ∷ [])
    × Extends IsNotInvoke t before
    × (get "methodName" p.values ≡ some method_name)
    × (get "contactId" p.values ≡ contact)
    × (resolved_secret telephony (event_with p)
        ≡ (cached_name svc contact t or_else telephony.secret_name))

recovered :
    (r : Result (Option String)) (t : List Call)
    → (handle (λ u. (r, u)) (λ err. pure {E = String} {C = Call} none) t).0 ≡ ok (name_in r)
unfolding handle pure
recovered (ok o) t = refl
recovered (throw err) t = refl

not-and : (a b : Bool) → not (a && b) ≡ (not a || not b)
not-and true b = refl
not-and false b = refl

is_blank-has_text : (s : String) → not (is_blank s) ≡ has_text s
unfolding is_blank
is_blank-has_text String.[] = refl
is_blank-has_text (String.◌∷◌ c s) =
    not-and (is_space c) (is_blank s) ∙ ap (λ b. not (is_space c) || b) (is_blank-has_text s)

is_valid_contact-is_named : (contact : Option String) → is_valid_contact contact ≡ is_named contact
unfolding is_valid_contact
is_valid_contact-is_named none = refl
is_valid_contact-is_named (some s) = is_blank-has_text s

module _ (svc : Services) where
  retrieve_at-value :
      (location contact : String) (t : List Call)
      → (retrieve_at svc location contact t).0
        ≡ ok (name_in (svc.get_cached t (bucket_of location) (key_of location contact)))
  unfolding retrieve_at call handle
  retrieve_at-value location contact t =
      recovered (svc.get_cached t (bucket_of location) (key_of location contact)) _

  retrieve-value :
      (contact : Option String) (t : List Call)
      → (retrieve_from_cache svc contact t).0 ≡ ok (cached_name svc contact t)
  unfolding retrieve_from_cache pure
  retrieve-value contact t =
      let location = text_of svc.secret_cache_s3 in
      rw (is_valid_contact-is_named contact)
        (elim (Bool-cases (is_named contact && truthy svc.secret_cache_s3)) [
          | inl e ↦ rw e (retrieve_at-value location (text_of contact) t)
          | inr e ↦ rw e refl
        ])

  read_configs-Succeeds : (name : Option String) → Succeeds (read_configs svc name)
  unfolding read_configs
  read_configs-Succeeds name = search succeed_rules

  named-value :
      (b : Bool) (name : Option String) (t : List Call)
      → ((if b then (do read_configs svc name; pure name) else pure none) t).0
        ≡ ok (if b then name else none)
  unfolding read_configs ◌>>=◌
  named-value true name t = let (u, p) = (read_configs-Succeeds name).at t in rw p refl
  named-value false name t = refl

  secret-value :
      (contact : Option String) (t : List Call)
      → (secret_of_contact svc contact t).0 ≡ ok (if_named (cached_name svc contact t))
  unfolding secret_of_contact ◌>>=◌
  secret-value contact t =
      rw (retrieve-value contact t) (named-value _ (cached_name svc contact t) _)

  secret-Quiet : (contact : Option String) → Only IsNotInvoke (secret_of_contact svc contact)
  unfolding secret_of_contact retrieve_from_cache retrieve_at read_configs
  secret-Quiet contact = search only_rules depth 12

method_in :
    (contact : Option String) (method_name : String) (name : Option String)
    → get "methodName" (payload contact method_name name).values ≡ some method_name
unfolding payload
method_in contact method_name name = refl

contact_in :
    (contact : Option String) (method_name : String) (name : Option String)
    → get "contactId" (payload contact method_name name).values ≡ contact
unfolding payload
contact_in none method_name name = refl
contact_in (some c) method_name name = refl

secret_in :
    (telephony : TelephonyServices) (contact : Option String) (method_name : String)
    (name : Option String)
    → resolved_secret telephony (event_with (payload contact method_name (if_named name)))
      ≡ (name or_else telephony.secret_name)
unfolding payload
secret_in telephony contact method_name none = refl
secret_in telephony contact method_name (some name) = elim (Bool-cases (truthy (some name))) [
  | inl e ↦ rw e (rw e refl)
  | inr e ↦ rw e refl
]

process-IsHandedOver :
    (svc : Services) (telephony : TelephonyServices) (e : Event) (method_name : String)
    (t : List Call)
    → IsHandedOver svc telephony
        (contact_of e.detail)
        method_name
        t
        (process_event svc e method_name t).1
unfolding process_event ◌>>=◌
process-IsHandedOver svc telephony e method_name t =
    let contact = contact_of e.detail in
    let name = if_named (cached_name svc contact t) in
    (
      (secret_of_contact svc contact t).1,
      payload contact method_name name,
      rw (secret-value svc contact t) refl,
      (secret-Quiet svc contact).at t,
      method_in contact method_name name,
      contact_in contact method_name name,
      secret_in telephony contact method_name (cached_name svc contact t),
    )

chosen-IsHandedOver :
    (svc : Services) (telephony : TelephonyServices) (e : Event) (method_name : String)
    (t : List Call) (b : Bool) (r : Result Bool)
    → chosen b r ≡ some method_name
    → IsHandedOver svc telephony (contact_of e.detail) method_name t (react svc e b r t).1
unfolding react lift ◌>>=◌
chosen-IsHandedOver svc telephony e m t true r h =
    let q : "cancelOmniFlowExecution" ≡ m = cc in
    subst
      (λ n.
        IsHandedOver svc telephony (contact_of e.detail) n t
          (process_event svc e "cancelOmniFlowExecution" t).1)
      q (process-IsHandedOver svc telephony e "cancelOmniFlowExecution" t)
chosen-IsHandedOver svc telephony e m t false (ok true) h =
    let q : "rerouteFlowExecution" ≡ m = cc in
    subst
      (λ n.
        IsHandedOver svc telephony (contact_of e.detail) n t
          (process_event svc e "rerouteFlowExecution" t).1)
      q (process-IsHandedOver svc telephony e "rerouteFlowExecution" t)
chosen-IsHandedOver svc telephony e m t false (ok false) h = absurd (cc)
chosen-IsHandedOver svc telephony e m t false (throw err) h = absurd (cc)

-- For an event that asks for a method the telephony lambda is invoked exactly once, as the last call,
-- whatever S3 and Secrets Manager answer. The invocation has the method and the contact of the event,
-- and the telephony lambda takes it to be for the secret that the cache names for that contact, or, if
-- the cache names none, cannot be read or is not configured, or the contact is blank, for the one it
-- is configured with.
pub handler-IsHandedOver :
    (svc : Services) (telephony : TelephonyServices) (e : Event) (method_name : String)
    (t : List Call)
    → wanted e ≡ some method_name
    → IsHandedOver svc telephony (contact_of e.detail) method_name t (handler svc e t).1
unfolding handler
handler-IsHandedOver svc telephony e method_name t h =
    chosen-IsHandedOver svc telephony e method_name t _ _ h
