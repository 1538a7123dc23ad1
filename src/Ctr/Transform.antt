-- ===== src/Ctr/Transform.antt =====
-- `transformCTR` of ctrDataSync/utils.js.
use service_cloud_voice_lamb.Common.{
  ℕ, ltb, String, Bool, false, Option, none, some, ◌||◌, truthy, ◌or_else◌, equals, if◌then◌else◌,
}
use service_cloud_voice_lamb.Common.Object.{Object, get}
use service_cloud_voice_lamb.Common.Effect.{Result, ok, throw, then_ok}
use service_cloud_voice_lamb.Ctr.Records.{Endpoint, Ctr, DisconnectReason, VoiceCall, Update}
use service_cloud_voice_lamb.Ctr.Attributes.{get_call_attributes}

-- `ctr?.Attributes?.key`
abbrev pub attribute : String → Option (Object String) → Option String
attribute key none = none
attribute key (some o) = get key o

-- `o && o.property`
abbrev pub of_part {ℓ} : {A B : Type ℓ} → (A → Option B) → Option A → Option B
of_part f none = none
of_part f (some a) = f a

unfoldable pub disconnect_reason_of : Ctr → DisconnectReason
disconnect_reason_of c =
    if truthy (attribute "callback_flag" c.attributes)
    then record { value = "CALLBACK"; is_error = false }
    else record {
      value = elim (c.disconnect_reason or_else some "UNKNOWN") [ none ↦ "UNKNOWN" | some s ↦ s ];
      is_error =
          equals c.disconnect_reason "TELECOM_PROBLEM"
          || equals c.disconnect_reason "CONTACT_FLOW_DISCONNECT"
          || equals c.disconnect_reason "OTHER";
    }

unfoldable pub get_web_rtc_attribute_value : Option String → Option Endpoint → Option String
get_web_rtc_attribute_value value endpoint =
    value or_else of_part (λ p. p.address) endpoint or_else some "WebRTC_Default"

pub record Numbers : Type 0 where
  pub from : Option String
  pub to : Option String

unfoldable pub web_rtc_numbers : Ctr → Option (Object String) → Result Numbers
web_rtc_numbers c none = throw "TypeError"
web_rtc_numbers c (some attributes) = ok (record {
  from = get_web_rtc_attribute_value (get "WebRTC_From" attributes) c.system_endpoint;
  to = get_web_rtc_attribute_value (get "WebRTC_To" attributes) c.customer_endpoint;
})

abbrev system_address : Ctr → Option String
system_address c = of_part (λ p. p.address) c.system_endpoint

abbrev customer_address : Ctr → Option String
customer_address c = of_part (λ p. p.address) c.customer_endpoint

-- The numbers by the method of initiation.
unfoldable pub numbers_of : Ctr → Result Numbers
numbers_of c =
    if truthy c.initiation_method
    then if equals c.initiation_method "OUTBOUND" || equals c.initiation_method "CALLBACK"
      then ok (record { from = system_address c; to = customer_address c })
      else if equals c.initiation_method "WEBRTC_API"
      then web_rtc_numbers c c.attributes
      else ok (record { from = customer_address c; to = system_address c })
    else ok (record { from = none; to = none })

abbrev if_truthy : Option String → Option String
if_truthy o = if truthy o then o else none

abbrev positive : Option ℕ → Bool
positive none = false
positive (some n) = ltb 0 n

-- The subtype of a call whose initiation method is not empty.
abbrev set_call_subtype : Ctr → String
set_call_subtype c = if equals c.initiation_method "WEBRTC_API" then "WebRTC" else "PSTN"

unfoldable pub voice_call_of : Ctr → Numbers → VoiceCall
voice_call_of c n = record {
  start_time = c.initiation_timestamp;
  end_time = c.disconnect_timestamp;
  parent_call_identifier = c.previous_contact_id;
  disconnect_reason = disconnect_reason_of c;
  secret_name = if_truthy (attribute "secretName" c.attributes);
  accept_time = of_part (λ a. a.connected_to_agent_timestamp) c.agent;
  total_hold_duration = of_part (λ a. a.customer_hold_duration) c.agent;
  longest_hold_duration = of_part (λ a. a.longest_hold_duration) c.agent;
  agent_interaction_duration = of_part (λ a. a.agent_interaction_duration) c.agent;
  number_of_holds = of_part (λ a. a.number_of_holds) c.agent;
  enqueue_time = of_part (λ q. q.enqueue_timestamp) c.queue;
  queue = of_part (λ q. q.name) c.queue;
  initiation_method =
      if equals c.initiation_method "API" then some "INBOUND" else if_truthy c.initiation_method;
  from_number = n.from;
  to_number = n.to;
  call_sub_type = if truthy c.initiation_method then some (set_call_subtype c) else none;
  recording_location =
      if positive (of_part (λ a. a.agent_interaction_duration) c.agent)
      then if_truthy c.recording
      else none;
  call_attributes = of_part (λ o. some (get_call_attributes o)) c.attributes;
}

unfoldable pub transform_ctr : Ctr → Result Update
transform_ctr c =
    then_ok (numbers_of c)
      (λ n. ok (record { contact_id = c.contact_id; fields = voice_call_of c n }))
