-- ===== src/Telephony/Api.antt =====
-- invokeTelephonyIntegrationApi/telephonyIntegrationApi.js. The answer of a request is the
-- property `data` of the axios response.
use service_cloud_voice_lamb.Common.{String, Option, [], ◌∷◌, text_of}
use Prim.Native.String.{◌++◌}
use service_cloud_voice_lamb.Common.Object.{Object}
use service_cloud_voice_lamb.Common.Effect.{Exec, pure, raise, call, handle, ◌>>=◌}
use service_cloud_voice_lamb.Telephony.Calls.{
  Config, VoiceCallFields, OmniFlowPayload, CallbackPayload, RoutePayload, empty, voice_call,
  fields, omni_flow, callback, route, post, patch, with_provider, without_provider, Request, Call,
  send, Services,
}
use service_cloud_voice_lamb.Telephony.Secrets.{jwt_params, generate_jwt}

module _ (svc : Services) where
  request : Config → String → Request → Exec Call (Object String)
  request c jwt r = call (send c.scrt_endpoint_base jwt r) (λ t. svc.send t r)

  -- The path of a voice call, with what stands behind the contact.
  unfoldable pub call_path : Option String → String → String
  call_path contact tail = "/voiceCalls/" ++ (text_of contact ++ tail)

  unfoldable pub create_voice_call : VoiceCallFields → Config → Exec Call (Object String)
  unfolding request
  create_voice_call values c = do
    jwt ← generate_jwt svc (jwt_params c)
    handle
        (request c jwt (record {
          verb = post;
          path = "/voiceCalls";
          body = voice_call (record values { call_center_api_name = c.call_center_api_name });
          provider = with_provider;
        }))
        (λ _. raise "Error creating VoiceCall record")

  unfoldable pub update_voice_call :
      Option String → Object String → Config → Exec Call (Object String)
  unfolding request call_path
  update_voice_call contact values c = do
    jwt ← generate_jwt svc (jwt_params c)
    handle
        (request c jwt (record {
          verb = patch;
          path = call_path contact "";
          body = fields values;
          provider = with_provider;
        }))
        (λ _. raise "Error updating VoiceCall record.")

  unfoldable pub execute_omni_flow :
      Option String → OmniFlowPayload → Config → Exec Call (Object String)
  unfolding request call_path
  execute_omni_flow contact payload c = do
    jwt ← generate_jwt svc (jwt_params c)
    handle
        (request c jwt (record {
          verb = patch;
          path = call_path contact "/omniFlow";
          body = omni_flow payload;
          provider = with_provider;
        }))
        (λ _. raise "Error executing Omni Flow")

  -- An error of the endpoint is answered, so that Kinesis does not retry the records.
  unfoldable pub send_message : Option String → Object String → Config → Exec Call (Object String)
  unfolding request call_path
  send_message contact values c = do
    jwt ← generate_jwt svc (jwt_params c)
    handle
        (request c jwt (record {
          verb = post;
          path = call_path contact "/messages";
          body = fields values;
          provider = with_provider;
        }))
        (λ _. pure (("result", "Error") ∷ []))

  unfoldable pub cancel_omni_flow_execution : Option String → Config → Exec Call (Object String)
  unfolding request call_path
  cancel_omni_flow_execution contact c = do
    jwt ← generate_jwt svc (jwt_params c)
    handle
        (request c jwt (record {
          verb = patch;
          path = call_path contact "/clearRouting";
          body = empty;
          provider = without_provider;
        }))
        (λ _. raise "Error cancelling OmniFlowExecution")

  unfoldable pub reroute_flow_execution : Option String → Config → Exec Call (Object String)
  unfolding request call_path
  reroute_flow_execution contact c = do
    jwt ← generate_jwt svc (jwt_params c)
    handle
        (request c jwt (record {
          verb = patch;
          path = call_path contact "/reroute";
          body = empty;
          provider = without_provider;
        }))
        (λ _. raise "Error in Reroute Flow Execution")

  unfoldable pub callback_execution :
      Option String → CallbackPayload → Config → Exec Call (Object String)
  unfolding request call_path
  callback_execution contact payload c = do
    jwt ← generate_jwt svc (jwt_params c)
    handle
        (request c jwt (record {
          verb = post;
          path = call_path contact "/requestCallback";
          body = callback payload;
          provider = without_provider;
        }))
        (λ _. raise "Error in Callback Execution")

  unfoldable pub route_voice_call :
      Option String → RoutePayload → Config → Exec Call (Object String)
  unfolding request
  route_voice_call contact payload c = do
    jwt ← generate_jwt svc (jwt_params c)
    handle
        (request c jwt (record {
          verb = patch;
          path = "/voiceCalls/route/" ++ text_of contact;
          body = route payload;
          provider = with_provider;
        }))
        (λ _. raise "Error routing voice call")
