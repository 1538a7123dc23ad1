-- ===== src/Alerts/Examples.antt =====
-- A run of realtimeAlert, and its property at a concrete alarm.
use service_cloud_voice_lamb.Common.{◌≡◌, refl, none, some, [], ◌∷◌}
use service_cloud_voice_lamb.Common.Effect.{ok, throw, ◌>>=◌}
use service_cloud_voice_lamb.Common.Trace.{Only}
use service_cloud_voice_lamb.Alerts.{
  SnsMessage, Event, invoke, Services, get_severity, source_of, payload_of, sns_parameters,
  event_time, get_sns_event_payload, payload_for, other_payload, send_event, handler,
}
use service_cloud_voice_lamb.Alerts.Fields.{Alerted, is_known, handler-Alerted}

abbrev services : Services
services = record {
  invoke = λ t. ok tt;
  now = λ t. "2026-01-01T00:00:00.000Z";
  time_of = λ s. throw "RangeError";
}

abbrev alarm : SnsMessage
alarm = record {
  new_state_value = some "ALARM";
  alarm_name = some "errors";
  alarm_description = none;
  aws_account_id = some "1";
  new_state_reason = some "too many";
  trigger = none;
  state_change_time = none;
}

abbrev an_event : Event
an_event = record {
  records = some (record { event_source = some "aws:sns"; message = ok alarm } ∷ []);
  source = none;
}

handler-Alerted_example : Only (Alerted (is_known an_event)) (handler services an_event)
handler-Alerted_example = handler-Alerted services an_event

alarm_test : handler services an_event [] ≡ (
  ok tt,
  invoke (
        some (
          ("methodName", "realtimeAlertEvent")
          ∷ ("Name", "errors")
          ∷ ("Source", "Cloudwatch Alarm from account 1")
          ∷ ("Severity", "Critical")
          ∷ ("Payload", "too many Trigger condition: undefined")
          ∷ ("EventDateTime", "2026-01-01T00:00:00.000Z")
          ∷ []))
      ∷ [],
)
unfolding handler send_event payload_for get_sns_event_payload event_time sns_parameters
    get_severity source_of payload_of ◌>>=◌
alarm_test = refl

-- An event that is neither a notification nor a scheduled one.
unknown_test :
    handler services (record { records = none; source = some "aws.s3" }) []
    ≡ (ok tt, invoke none ∷ [])
unfolding handler send_event payload_for other_payload ◌>>=◌
unknown_test = refl
