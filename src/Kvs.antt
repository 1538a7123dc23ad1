-- ===== src/Kvs.antt =====
-- kvsConsumerTrigger/kvs_trigger.js, which starts the lambda that transcribes the audio of a call.
pub mod Started
pub mod Examples
use service_cloud_voice_lamb.Common.{
  String, Bool, not, Option, none, some, List, truthy, text_of, equals, ◌or_else◌, if◌then◌else◌,
}
use service_cloud_voice_lamb.Common.Object.{Object, get}
use service_cloud_voice_lamb.Common.Effect.{
  Result, ok, throw, then_ok, Exec, pure, raise, lift, call, ask, ◌>>=◌, ◌>>◌,
}

pub record Audio : Type 0 where
  pub stream_arn : Option String
  pub start_fragment_number : Option String
  pub start_timestamp : Option String

-- `audio` is `MediaStreams.Customer.Audio`.
pub record ContactData : Type 0 where
  pub attributes : Option (Object String)
  pub audio : Option Audio
  pub customer_endpoint : Option (Option String)
  pub contact_id : Option String
  pub instance_arn : Option String

pub record Event : Type 0 where
  pub contact_data : Option ContactData
  pub parameters : Option (Object String)

-- What the transcriber is started with; a property that is not set is `none`.
pub record Payload : Type 0 where
  pub stream_arn : Option String
  pub start_fragment_num : Option String
  pub audio_start_timestamp : Option String
  pub customer_phone_number : Option String
  pub voice_call_id : Option String
  pub language_code : String
  pub stream_audio_from_customer : Bool
  pub stream_audio_to_customer : Bool
  pub instance_arn : Option String
  pub engine : String
  pub secret_name : String
  pub vocabulary_name : Option String
  pub vocabulary_filter_name : Option String
  pub vocabulary_filter_method : Option String
  pub specialty : Option String

-- The start of the transcriber, which is not awaited, and the answer "Success" to the contact flow.
pub data Call : Type 0 where
  invoke : Payload → Call
  respond : Call

-- The name of the secret from the environment, and the error, if there is one, that is passed to the
-- callback of the start.
pub record Services : Type 0 where
  pub secret_name : Option String
  pub outcome : List Call → Option String

-- `value.property`, where the value may be missing.
abbrev pub defined {ℓ} : {A : Type ℓ} → Option A → Result A
defined none = throw "TypeError"
defined (some a) = ok a

abbrev pub default_language : Option String → String
default_language none = "en-US"
default_language (some code) = code

-- `value || null`, which is set only if it is not `null`.
abbrev pub unless_empty : Option String → Option String
unless_empty v = if truthy v then v else none

abbrev pub resolved_secret : Option String → Object String → Option String
resolved_secret configured attributes = get "secretName" attributes or_else configured

unfoldable pub payload_for :
    Option String → ContactData → Object String → Audio → Option String → Object String → Payload
payload_for secret data_ attributes audio address params = record {
  stream_arn = audio.stream_arn;
  start_fragment_num = audio.start_fragment_number;
  audio_start_timestamp = audio.start_timestamp;
  customer_phone_number = address;
  voice_call_id = data_.contact_id;
  language_code = default_language (get "languageCode" attributes);
  stream_audio_from_customer = not (equals (get "streamAudioFromCustomer" attributes) "false");
  stream_audio_to_customer = not (equals (get "streamAudioToCustomer" attributes) "false");
  instance_arn = data_.instance_arn;
  engine = text_of (get "engine" params or_else some "standard");
  secret_name = text_of secret;
  vocabulary_name = unless_empty (get "vocabularyName" params);
  vocabulary_filter_name = unless_empty (get "vocabularyFilterName" params);
  vocabulary_filter_method = unless_empty (get "vocabularyFilterMethod" params);
  specialty = unless_empty (get "specialty" params);
}

unfoldable pub require_secret : Option String → Payload → Result Payload
require_secret secret p =
    if truthy secret
    then ok p
    else throw "Secret name not provided in call attributes or SECRET_NAME environment variable"

unfoldable pub build_payload : Option String → Event → Result Payload
unfolding payload_for require_secret
build_payload configured e = then_ok (defined e.contact_data) λ data_.
    then_ok (defined data_.attributes) λ attributes. then_ok (defined data_.audio) λ audio.
      then_ok (defined data_.customer_endpoint) λ address. then_ok (defined e.parameters) λ params.
        require_secret (resolved_secret configured attributes) (
          payload_for (resolved_secret configured attributes) data_ attributes audio address params)

module _ (svc : Services) where
  -- The handler itself: the contact flow is answered without waiting for the start.
  unfoldable pub handler : Event → Exec Call (Unit {0})
  unfolding build_payload
  handler e = do
    payload ← lift (build_payload svc.secret_name e)
    call (invoke payload) (λ t. ok tt)
    call respond (λ t. ok tt)

  -- The callback of the start.
  unfoldable pub invoked : Option String → Exec Call (Unit {0})
  invoked none = call respond (λ t. ok tt)
  invoked (some err) = raise err

  unfoldable pub run : Event → Exec Call (Unit {0})
  unfolding handler invoked
  run e = do handler e; err ← ask svc.outcome; invoked err
