-- ===== src/Alerts.antt =====
-- realtimeAlert/handler.js, which makes an alert of a CloudWatch alarm and passes it to
-- invokeSfRestApi.
pub mod Fields
pub mod Examples
use service_cloud_voice_lamb.Common.{
  String, Bool, Option, none, some, List, [], ◌∷◌, ◌++◌, truthy, text_of, equals, if◌then◌else◌,
}
use Prim.Native.String.{◌++◌ as ◌<>◌}
use service_cloud_voice_lamb.Common.Object.{Object, optional_field}
use service_cloud_voice_lamb.Common.Effect.{
  Result, ok, throw, Exec, pure, raise, lift, call, ask, ◌>>=◌,
}

-- The message of an alarm; `trigger` is the JSON text of its condition.
pub record SnsMessage : Type 0 where
  pub new_state_value : Option String
  pub alarm_name : Option String
  pub alarm_description : Option String
  pub aws_account_id : Option String
  pub new_state_reason : Option String
  pub trigger : Option String
  pub state_change_time : Option String

-- `message` is what `JSON.parse(Sns.Message)` gives: an object, or an error.
pub record Notification : Type 0 where
  pub event_source : Option String
  pub message : Result SnsMessage

pub record Event : Type 0 where
  pub records : Option (List Notification)
  pub source : Option String

-- An invocation of invokeSfRestApi, with the parameters of its event, or without an event.
pub data Call : Type 0 where
  invoke : Option (Object String) → Call

-- The lambda, the time of the clock, and the time that a text stands for, which may be none; both in
-- the form of ISO 8601.
pub record Services : Type 0 where
  pub invoke : List Call → Result (Unit {0})
  pub now : List Call → String
  pub time_of : String → Result String

unfoldable pub get_severity : Option String → String
get_severity state =
    if equals state "ALARM"
    then "Critical"
    else if equals state "OK"
    then "Informational"
    else "Warning"

module _ (m : SnsMessage) where
  unfoldable pub source_of : String
  source_of = "Cloudwatch Alarm from account " <> text_of m.aws_account_id

  unfoldable pub payload_of : String
  payload_of = text_of m.new_state_reason <> (" Trigger condition: " <> text_of m.trigger)

-- The parameters of the event; a property that is `undefined` is left out of its text.
unfoldable pub sns_parameters : SnsMessage → String → Object String
unfolding get_severity source_of payload_of
sns_parameters m time =
    (("methodName", "realtimeAlertEvent") ∷ [])
    ++ optional_field "Name" m.alarm_name
    ++ optional_field "Description" m.alarm_description
    ++ (("Source", source_of m)
        ∷ ("Severity", get_severity m.new_state_value)
        ∷ ("Payload", payload_of m)
        ∷ ("EventDateTime", time)
        ∷ [])

unfoldable pub cloudwatch_parameters : String → Object String
cloudwatch_parameters time =
    ("methodName", "realtimeAlertEvent")
    ∷ ("Name", "alert name goes here")
    ∷ ("Description", "alert description here")
    ∷ ("Source", "alert source goes here")
    ∷ ("Severity", "Warning")
    ∷ ("Payload", "some info")
    ∷ ("EventDateTime", time)
    ∷ []

module _ (svc : Services) where
  unfoldable pub event_time : Option String → Exec Call String
  event_time changed = if truthy changed then lift (svc.time_of (text_of changed)) else ask svc.now

  unfoldable pub get_sns_event_payload : SnsMessage → Exec Call (Option (Object String))
  unfolding event_time sns_parameters
  get_sns_event_payload m = do
    time ← event_time m.state_change_time
    pure (some (sns_parameters m time))

  unfoldable pub get_cloudwatch_event_payload : Exec Call (Option (Object String))
  unfolding cloudwatch_parameters
  get_cloudwatch_event_payload = do time ← ask svc.now; pure (some (cloudwatch_parameters time))

  unfoldable pub other_payload : Option String → Exec Call (Option (Object String))
  unfolding get_cloudwatch_event_payload
  other_payload source =
      if equals source "aws.events" then get_cloudwatch_event_payload else pure none

  -- `eventPayload`, by the first record of the event, or by its source.
  unfoldable pub payload_for :
      Option (List Notification) → Option String → Exec Call (Option (Object String))
  unfolding get_sns_event_payload other_payload
  payload_for none source = other_payload source
  payload_for (some []) source = raise "TypeError"
  payload_for (some (r ∷ rs)) source =
      if equals r.event_source "aws:sns"
      then (do message ← lift r.message; get_sns_event_payload message)
      else other_payload source

  unfoldable pub send_event : Event → Exec Call (Unit {0})
  unfolding payload_for
  send_event e = do payload ← payload_for e.records e.source; call (invoke payload) svc.invoke

  unfoldable pub handler : Event → Exec Call (Unit {0})
  unfolding send_event
  handler e = send_event e
