-- ===== src/Voicemail/Served.antt =====
-- What invokeTelephonyIntegrationApi makes of the invocations of voiceMailPackaging and
-- multiorgVoiceMailPackaging.
use service_cloud_voice_lamb.Common.{
  ◌≡◌, refl, ap, subst, ◌∙◌, String, true, false, Option, none, some, [], ◌∷◌, ◌++◌, truthy,
  text_of, ◌or_else◌, ◌==◌, arith,
}
use service_cloud_voice_lamb.Common.Object.{Object, get, optional_field}
use service_cloud_voice_lamb.Common.Trace.{Only}
use service_cloud_voice_lamb.Common.Cost.{Costs}
use service_cloud_voice_lamb.Telephony.Calls.{Event, Services}
use service_cloud_voice_lamb.Telephony.Handler.{Method, update, message, omni, method_of, handler}
use service_cloud_voice_lamb.Telephony.Handler.Dispatch.{Targets, is_send}
use service_cloud_voice_lamb.Telephony.Handler.Requests.{event_contact, handler-Targets}
use service_cloud_voice_lamb.Telephony.Handler.Names.{Named, resolved_secret, handler-Named}
use service_cloud_voice_lamb.Voicemail.Packaging.{
  Invocation, convert, message as send, omni_flow, close,
}

-- The name of the method, and the field values without the name of the secret; numbers and truth
-- values stand as their texts.
unfoldable pub method_name_of : Invocation → String
method_name_of (convert f) = "updateVoiceCall"
method_name_of (send content start_time end_time) = "sendMessage"
method_name_of (omni_flow dialed) = "executeOmniFlow"
method_name_of close = "updateVoiceCall"

unfoldable pub field_values_of : String → Invocation → Object String
field_values_of contact (convert f) =
    optional_field "recordingLocation" f.recording_location
    ++ (optional_field "totalRecordingDuration" f.total_recording_duration
        ++ (optional_field "startTime" f.start_time
            ++ (optional_field "endTime" f.end_time
                ++ (("callOrigin", "Voicemail") ∷ ("isActiveCall", "true") ∷ []))))
field_values_of contact (send content start_time end_time) =
    ("messageId", contact) ∷ optional_field "startTime" start_time
    ++ (optional_field "endTime" end_time
        ++ (("content", content) ∷ ("participantId", "END_USER") ∷ ("senderType", "END_USER") ∷ []))
field_values_of contact (omni_flow dialed) = optional_field "dialedNumber" dialed
field_values_of contact close = []

-- The event of an invocation, with the name of the secret if multiorgVoiceMailPackaging has one.
unfoldable pub event_of : Option String → String → Invocation → Event
unfolding method_name_of field_values_of
event_of secret contact i = record {
  detail_type = none;
  parameters = record {
    values = ("methodName", method_name_of i) ∷ ("contactId", contact) ∷ [];
    field_values = some (field_values_of contact i ++ optional_field "secretName" secret);
  };
  contact_data = none;
}

-- The method that serves an invocation.
abbrev pub method_for : Invocation → Method
method_for (convert f) = update
method_for (send content start_time end_time) = message
method_for (omni_flow dialed) = omni
method_for close = update

method_of-name : (i : Invocation) → method_of (some (method_name_of i)) ≡ method_for i
unfolding method_of method_name_of
method_of-name (convert f) = refl
method_of-name (send content start_time end_time) = refl
method_of-name (omni_flow dialed) = refl
method_of-name close = refl

skip :
    (j k : String) (o : Option String) (rest : Object String)
    → (k == j) ≡ false
    → get j (optional_field k o ++ rest) ≡ get j rest
skip j k none rest h = refl
skip j k (some v) rest h = rw h refl

own_field :
    (secret : Option String) → get "secretName" (optional_field "secretName" secret) ≡ secret
own_field none = refl
own_field (some s) = refl

get-append : (k : String) (o rest : Object String) → get k o ≡ none → get k (o ++ rest) ≡ get k rest
get-append k [] rest h = refl
get-append k ((j, v) ∷ o) rest h = grind (arith, get-append k o rest)

unnamed_fields :
    (contact : String) (i : Invocation) → get "secretName" (field_values_of contact i) ≡ none
unfolding field_values_of
unnamed_fields contact (convert f) =
    skip "secretName" "recordingLocation" f.recording_location _ refl
    ∙ skip "secretName" "totalRecordingDuration" f.total_recording_duration _ refl
    ∙ skip "secretName" "startTime" f.start_time _ refl
    ∙ skip "secretName" "endTime" f.end_time _ refl
unnamed_fields contact (send content start_time end_time) =
    skip "secretName" "startTime" start_time _ refl ∙ skip "secretName" "endTime" end_time _ refl
unnamed_fields contact (omni_flow none) = refl
unnamed_fields contact (omni_flow (some d)) = refl
unnamed_fields contact close = refl

event_of-secret :
    (svc : Services) (secret : Option String) (contact : String) (i : Invocation)
    → resolved_secret svc (event_of secret contact i) ≡ (secret or_else svc.secret_name)
unfolding event_of
event_of-secret svc secret contact i =
    ap (λ o. o or_else svc.secret_name)
      (get-append "secretName" (field_values_of contact i) (optional_field "secretName" secret)
          (unnamed_fields contact i)
        ∙ own_field secret)

event_of-contact :
    (secret : Option String) (contact : String) (i : Invocation)
    → truthy (some contact) ≡ true
    → text_of (event_contact (event_of secret contact i)) ≡ contact
unfolding event_of
event_of-contact secret contact i h = rw h refl

event_of-Targets :
    (svc : Services) (secret : Option String) (contact : String) (i : Invocation)
    → truthy (some contact) ≡ true
    → Only (Targets (method_for i) contact) (handler svc (event_of secret contact i))
      × Costs is_send 1 (handler svc (event_of secret contact i))
unfolding event_of
event_of-Targets svc secret contact i h =
    let (targets, once) = handler-Targets svc (event_of secret contact i) in
    let run = handler svc (event_of secret contact i) in
    (
      subst (λ m. Only (Targets m contact) run) (method_of-name i)
          (subst (λ c. Only (Targets (method_of (some (method_name_of i))) c) run)
            (event_of-contact secret contact i h) targets),
      once,
    )

-- Whatever the services of invokeTelephonyIntegrationApi answer, an invocation of one of the two
-- lambdas for a contact makes at most one request of the telephony API, with the verb and the path
-- that the API documents for the update of the contact's call, for a message of it or for its flow;
-- and the only secret that is read for it is the one that multiorgVoiceMailPackaging names, or else
-- that of the environment.
pub invocation-Targets :
    (svc : Services) (secret : Option String) (contact : String) (i : Invocation)
    → truthy (some contact) ≡ true
    → Only (Targets (method_for i) contact) (handler svc (event_of secret contact i))
      × Costs is_send 1 (handler svc (event_of secret contact i))
      × Only (Named (secret or_else svc.secret_name)) (handler svc (event_of secret contact i))
invocation-Targets svc secret contact i h =
    let (targets, once) = event_of-Targets svc secret contact i h in
    (
      targets,
      once,
      subst (λ o. Only (Named o) (handler svc (event_of secret contact i)))
          (event_of-secret svc secret contact i) (handler-Named svc (event_of secret contact i)),
    )
