-- ===== src/Vfs/Handler/Examples.antt =====
-- Runs of invokeVfsIntegrationApi, and its property at a concrete event.
use service_cloud_voice_lamb.Common.{◌≡◌, refl, none, some, [], ◌∷◌}
use service_cloud_voice_lamb.Common.Effect.{ok, throw, handle, ◌>>=◌}
use service_cloud_voice_lamb.Common.Trace.{Only}
use service_cloud_voice_lamb.Vfs.Escape.{encode_uri_component}
use service_cloud_voice_lamb.Vfs.Calls.{Event, refused, Services, data_of}
use service_cloud_voice_lamb.Vfs.Handler.{
  drop_error, contact_of, read_secret, get_secret_configs, generate_jwt, request,
  get_voicemail_drop, dispatch, secret_from_attributes, resolved_secret, serve, handler,
}
use service_cloud_voice_lamb.Vfs.Handler.Requests.{
  expected_secret, Restricted, vfs_handler-Restricted,
}

abbrev services : Services
services = record {
  secret_name = some "org1";
  secret_value = λ t name. ok [];
  sign_jwt = λ t. ok "jwt";
  send = λ t r. throw (refused 404);
}

abbrev a_number_event : Event
a_number_event = record {
  detail_type = none;
  values =
      ("methodName", "getDefaultOutboundPhoneNumber")
      ∷ ("contactId", "c1")
      ∷ ("agentARN", "arn:aws/agent&x=1")
      ∷ [];
  field_values = none;
  contact_data = none;
}

abbrev a_drop_event : Event
a_drop_event = record {
  detail_type = none;
  values = ("methodName", "getVoicemailDrop") ∷ ("contactId", "c1") ∷ [];
  field_values = none;
  contact_data = none;
}

vfs_handler-Restricted_example :
    Only
      (Restricted (expected_secret services a_number_event) (some "c1"))
      (handler services a_number_event)
vfs_handler-Restricted_example = vfs_handler-Restricted services a_number_event

encode_test : encode_uri_component "arn:aws/é&x" ≡ "arn%3Aaws%2F%C3%A9%26x"
unfolding encode_uri_component
encode_test = refl

-- A voicemail drop that is not found is an answer.
not_found_test :
    (handler services a_drop_event []).0 ≡ ok (data_of (("recordingUrl", "Not found") ∷ []))
unfolding handler contact_of resolved_secret secret_from_attributes serve get_secret_configs
    read_secret dispatch get_voicemail_drop generate_jwt request drop_error handle ◌>>=◌
not_found_test = refl
