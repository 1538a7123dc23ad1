-- ===== src/Alerts/Fields.antt =====
-- What invokeSfRestApi makes of the alerts that realtimeAlert passes to it.
use service_cloud_voice_lamb.Common.{
  ◌≡◌, refl, inl, inr, String, Bool, true, false, ◌||◌, Option, none, some, List, [], ◌∷◌, All,
  includes, equals, Bool-cases,
}
use service_cloud_voice_lamb.Common.Object.{Object, get, keys}
use service_cloud_voice_lamb.Common.Returns.{
  Returns, Returns-pure, Returns-raise, Returns-any, Returns-if, Returns-bind,
}
use service_cloud_voice_lamb.Common.Trace.{Only, Only-call, Only-bind-Returns, only_rules}
use service_cloud_voice_lamb.Sf.Handler.{alert, method_of, get_realtime_alert_event_field_values}
use service_cloud_voice_lamb.Alerts.{
  SnsMessage, Notification, Event, Call, invoke, Services, get_severity, sns_parameters,
  cloudwatch_parameters, event_time, get_sns_event_payload, get_cloudwatch_event_payload,
  other_payload, payload_for, send_event, handler,
}

abbrev pub is_severity : String → Bool
is_severity s = includes ("Critical" ∷ "Informational" ∷ "Warning" ∷ []) s

abbrev pub is_field : String → Bool
is_field k =
    includes ("Name" ∷ "Description" ∷ "Source" ∷ "Severity" ∷ "Payload" ∷ "EventDateTime" ∷ []) k

-- An object with the properties of an alert.
pub record IsAlertRecord (fields : Object String) : Type 0 where
  pub only_fields : All (λ k. is_field k ≡ true) (keys fields)
  pub severity : (s : String) × (get "Severity" fields ≡ some s) × (is_severity s ≡ true)

-- Parameters that make invokeSfRestApi create an alert.
pub record IsAlert (params : Object String) : Type 0 where
  pub method : method_of (get "methodName" params) ≡ alert
  pub fields : IsAlertRecord (get_realtime_alert_event_field_values params)

get_severity-is_severity : (state : Option String) → is_severity (get_severity state) ≡ true
unfolding get_severity
get_severity-is_severity state = elim (Bool-cases (equals state "ALARM")) [
  | inl e ↦ rw e refl
  | inr e ↦ elim (Bool-cases (equals state "OK")) [
    | inl d ↦ rw (e, d) refl
    | inr d ↦ rw (e, d) refl
  ]
]

sns_fields :
    (m : SnsMessage) (name description : Option String) (time : String)
    → m.alarm_name ≡ name
    → m.alarm_description ≡ description
    → IsAlertRecord (get_realtime_alert_event_field_values (sns_parameters m time))
unfolding sns_parameters get_realtime_alert_event_field_values
sns_fields m none none time p q = record {
  only_fields = rw (p, q) (refl, (refl, (refl, (refl, tt))));
  severity =
      (get_severity m.new_state_value, rw (p, q) refl, get_severity-is_severity m.new_state_value);
}
sns_fields m none (some d) time p q = record {
  only_fields = rw (p, q) (refl, (refl, (refl, (refl, (refl, tt)))));
  severity =
      (get_severity m.new_state_value, rw (p, q) refl, get_severity-is_severity m.new_state_value);
}
sns_fields m (some n) none time p q = record {
  only_fields = rw (p, q) (refl, (refl, (refl, (refl, (refl, tt)))));
  severity =
      (get_severity m.new_state_value, rw (p, q) refl, get_severity-is_severity m.new_state_value);
}
sns_fields m (some n) (some d) time p q = record {
  only_fields = rw (p, q) (refl, (refl, (refl, (refl, (refl, (refl, tt))))));
  severity =
      (get_severity m.new_state_value, rw (p, q) refl, get_severity-is_severity m.new_state_value);
}

sns_parameters-IsAlert : (m : SnsMessage) (time : String) → IsAlert (sns_parameters m time)
unfolding sns_parameters method_of
sns_parameters-IsAlert m time = record {
  method = refl;
  fields = sns_fields m m.alarm_name m.alarm_description time refl refl;
}

cloudwatch_parameters-IsAlert : (time : String) → IsAlert (cloudwatch_parameters time)
unfolding cloudwatch_parameters method_of get_realtime_alert_event_field_values
cloudwatch_parameters-IsAlert time = record {
  method = refl;
  fields = record {
    only_fields = (refl, (refl, (refl, (refl, (refl, (refl, tt))))));
    severity = ("Warning", refl, refl);
  };
}

-- An event that the lambda knows: its first record is a notification, or it is a scheduled one.
abbrev pub is_notified : Option (List Notification) → Bool
is_notified (some (r ∷ rs)) = equals r.event_source "aws:sns"
is_notified records = false

abbrev pub is_known : Event → Bool
is_known e = is_notified e.records || equals e.source "aws.events"

-- The invocation carries an alert if the event was a known one, and nothing if it was not.
abbrev pub Alerted : Bool → Call → Type 0
Alerted true (invoke none) = ⊥
Alerted true (invoke (some params)) = IsAlert params
Alerted false (invoke none) = Unit
Alerted false (invoke (some params)) = ⊥

abbrev HasAlert : Bool → Option (Object String) → Type 0
HasAlert b p = Alerted b (invoke p)

carries : (b : Bool) (params : Object String) → b ≡ true → IsAlert params → HasAlert b (some params)
carries b params e h = rw e h

module _ (svc : Services) where
  sns-HasAlert :
      (m : SnsMessage) (b : Bool) → b ≡ true → Returns (HasAlert b) (get_sns_event_payload svc m)
  unfolding get_sns_event_payload
  sns-HasAlert m b e =
      Returns-bind (λ _. Unit) _ _ (Returns-any _ (λ _. tt))
        λ time _. Returns-pure _ (carries b _ e (sns_parameters-IsAlert m time))

  other-HasAlert :
      (source : Option String)
      → Returns (HasAlert (equals source "aws.events")) (other_payload svc source)
  unfolding other_payload get_cloudwatch_event_payload
  other-HasAlert source =
      Returns-if (equals source "aws.events") _ _
        (λ e.
          Returns-bind (λ _. Unit) _ _ (Returns-any _ (λ _. tt))
            λ time _.
              Returns-pure _
                (carries (equals source "aws.events") _ e (cloudwatch_parameters-IsAlert time)))
        (λ e. rw e (Returns-pure none tt))

  payload_for-HasAlert :
      (records : Option (List Notification)) (source : Option String)
      → Returns
          (HasAlert (is_notified records || equals source "aws.events"))
          (payload_for svc records source)
  unfolding payload_for
  payload_for-HasAlert none source = other-HasAlert source
  payload_for-HasAlert (some []) source = Returns-raise "TypeError"
  payload_for-HasAlert (some (r ∷ rs)) source =
      Returns-if (equals r.event_source "aws:sns") _ _
        (λ e.
          Returns-bind (λ _. Unit) _ _ (Returns-any _ (λ _. tt))
            λ m _. sns-HasAlert m _ (rw e refl))
        (λ e. rw e (other-HasAlert source))

  payload_for-Only :
      (P : Call → Type 0) (records : Option (List Notification)) (source : Option String)
      → Only P (payload_for svc records source)
  unfolding payload_for get_sns_event_payload event_time other_payload get_cloudwatch_event_payload
  payload_for-Only P none source = search only_rules depth 8
  payload_for-Only P (some []) source = search only_rules depth 8
  payload_for-Only P (some (r ∷ rs)) source = search only_rules depth 12

-- Whatever the clock and the lambda answer, what realtimeAlert passes to invokeSfRestApi for a
-- notification or a scheduled event are parameters for which that lambda creates an alert, whose
-- properties are among the six of an alert, with one of the three severities. For any other event the
-- only thing that it passes on is an invocation without an event.
pub handler-Alerted : (svc : Services) (e : Event) → Only (Alerted (is_known e)) (handler svc e)
unfolding handler send_event
handler-Alerted svc e =
    Only-bind-Returns (HasAlert (is_known e)) _ _ (payload_for-Only svc _ e.records e.source)
      (payload_for-HasAlert svc e.records e.source) λ p h. Only-call (invoke p) svc.invoke h
