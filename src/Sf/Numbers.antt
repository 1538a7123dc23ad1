-- ===== src/Sf/Numbers.antt =====
-- invokeSfRestApi: fetchOutboundPhoneNumber.js, fetchDefaultVoicemailGreetingUrl.js and
-- fetchAgentPhoneNumber.js.
use service_cloud_voice_lamb.Common.{
  String, true, Option, none, some, [], ◌∷◌, truthy, text_of, if◌then◌else◌,
}
use Prim.Native.String.{◌++◌}
use service_cloud_voice_lamb.Common.Object.{get}
use service_cloud_voice_lamb.Common.Effect.{Action, pure, handle, ◌>>=◌}
use service_cloud_voice_lamb.Sf.Json.{Json, bool, text, object, fields_of, member, is_truthy}
use service_cloud_voice_lamb.Sf.Calls.{Fault, Configs, Call, Services, Event}
use service_cloud_voice_lamb.Sf.Secrets.{get_secret_configs}
use service_cloud_voice_lamb.Sf.Query.{invoke_query}

unfoldable pub outbound_query : Configs → String → String
outbound_query c agent =
    "SELECT MessagingPlatformKey\n"
    ++ ("                    FROM MessagingChannel\n"
        ++ ("                    WHERE MessageType='Voice'\n"
            ++ ("                      AND IsActive = true\n"
                ++ ("                      AND Id in\n"
                    ++ ("                          (SELECT ChannelId\n"
                        ++ ("                           FROM ContactCenterChannel\n"
                            ++ ("                           WHERE ContactCenterChannel.ContactCenter.InternalName='"
                                ++ (text_of c.call_center_api_name
                                    ++ ("')\n"
                                        ++ ("                      AND SessionHandlerId in\n"
                                            ++ ("                          (SELECT ReferenceRecordId\n"
                                                ++ ("                           FROM CallCenterRoutingMap\n"
                                                    ++ ("                           WHERE ExternalId='"
                                                        ++ (agent
                                                            ++ ("'\n"
                                                            ++ ("                           )\n"
                                                            ++ ("                    LIMIT 1")))))))))))))))))

unfoldable pub greeting_query : String → String
greeting_query agent =
    "SELECT VoiceMailGreeting2.GreetingUrl FROM VoiceMailGreeting2Rep\n"
    ++ ("                                      WHERE VoiceMailGreeting2.Type='DROP'\n"
        ++ ("                                        AND RepId IN (SELECT ReferenceRecordId\n"
            ++ ("                                                      FROM CallCenterRoutingMap\n"
                ++ ("                                                      WHERE ExternalId = '"
                    ++ (agent
                        ++ ("')\n"
                            ++ ("                                        AND IsDefault = true\n"
                                ++ ("                                          LIMIT 1"))))))))

-- `results && results.k ? results.k : null`
unfoldable pub part_of_result : String → Option Json → Option Json
part_of_result k none = none
part_of_result k (some v) =
    let part = member k v in
    if is_truthy (some v) then if is_truthy part then part else none else none

-- `{ success: true, k: v }`, without the property if there is no value.
abbrev pub success_with : String → Option Json → Json
success_with k v = object (fields_of (("success", some (bool true)) ∷ (k, v) ∷ []))

module _ (svc : Services) (secret_name access_name : Option String) where
  -- A query whose errors are logged.
  run_query : String → Action Fault Call (Option Json)
  run_query q =
      handle
        (invoke_query svc (some q) (("methodName", "queryRecord") ∷ []) secret_name access_name)
        (λ e. pure none)

  unfoldable pub get_messaging_platform_key : String → Action Fault Call (Option Json)
  unfolding run_query
  get_messaging_platform_key agent = do
    c ← get_secret_configs svc secret_name
    found ← run_query (outbound_query c agent)
    pure (part_of_result "MessagingPlatformKey" found)

  unfoldable pub fetch_outbound_phone_number : Event → Action Fault Call Json
  fetch_outbound_phone_number e =
      if truthy (get "agentARN" e.parameters)
      then (do
        found ← get_messaging_platform_key (text_of (get "agentARN" e.parameters))
        pure (success_with "outboundPhoneNumber" found))
      else pure (success_with "outboundPhoneNumber" none)

  unfoldable pub get_default_voicemail_greeting_url : String → Action Fault Call (Option Json)
  unfolding run_query
  get_default_voicemail_greeting_url agent = do
    found ← run_query (greeting_query agent)
    pure (part_of_result "GreetingUrl" found)

  unfoldable pub fetch_default_voicemail_greeting_url : Event → Action Fault Call Json
  fetch_default_voicemail_greeting_url e =
      if truthy (get "agentARN" e.parameters)
      then (do
        found ← get_default_voicemail_greeting_url (text_of (get "agentARN" e.parameters))
        pure (success_with "GreetingUrl" found))
      else pure (success_with "GreetingUrl" none)

abbrev pub agent_phone_number : Json
agent_phone_number = success_with "outboundPhoneNumber" (some (text ""))
