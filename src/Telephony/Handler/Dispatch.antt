-- ===== src/Telephony/Handler/Dispatch.antt =====
-- Which requests the switch over the method in invokeTelephonyIntegrationApi/handler.js makes.
use service_cloud_voice_lamb.Common.{ℕ, ◌≡◌, refl, String, Option, none, some, text_of, arith}
use Prim.Native.String.{◌++◌}
use service_cloud_voice_lamb.Common.Object.{Object}
use service_cloud_voice_lamb.Common.Effect.{Exec, pure, call, handle, ◌>>=◌}
use service_cloud_voice_lamb.Common.Trace.{Only, Only-pure, Only-ask, Only-bind, only_rules}
use service_cloud_voice_lamb.Common.Cost.{
  Costs, Costs-weaken, Costs-raise, Costs-free, Costs-call, Costs-handle_left, Costs-pure,
  Costs-Only, Costs-bind_left, Costs-bind_right,
}
use service_cloud_voice_lamb.Telephony.Calls.{
  JwtParams, Verb, post, patch, Request, CacheData, Call, send, Services,
}
use service_cloud_voice_lamb.Telephony.Secrets.{generate_jwt}
use service_cloud_voice_lamb.Telephony.Cache.{store_in_cache, store_at}
use service_cloud_voice_lamb.Telephony.Fields.{Context}
use service_cloud_voice_lamb.Telephony.Api.{
  create_voice_call, update_voice_call, execute_omni_flow, send_message, cancel_omni_flow_execution,
  reroute_flow_execution, callback_execution, route_voice_call,
}
use service_cloud_voice_lamb.Telephony.Handler.{
  Method, create, update, transfer, omni, cancel, reroute, message, callback, route, cache, jwt,
  unsupported, data_of, dispatch,
}
use service_cloud_voice_lamb.Telephony.Handler.Rules.{
  inbound_fields-Only, transfer_fields-Only, named_fields-Only,
}

-- The one request of each method, from the API's documentation of its endpoints.
abbrev pub target : Method → String → Option (Verb × String)
target create contact = some (post, "/voiceCalls")
target update contact = some (patch, "/voiceCalls/" ++ (contact ++ ""))
target transfer contact = some (post, "/voiceCalls")
target omni contact = some (patch, "/voiceCalls/" ++ (contact ++ "/omniFlow"))
target cancel contact = some (patch, "/voiceCalls/" ++ (contact ++ "/clearRouting"))
target reroute contact = some (patch, "/voiceCalls/" ++ (contact ++ "/reroute"))
target message contact = some (post, "/voiceCalls/" ++ (contact ++ "/messages"))
target callback contact = some (post, "/voiceCalls/" ++ (contact ++ "/requestCallback"))
target route contact = some (patch, "/voiceCalls/route/" ++ contact)
target cache contact = none
target jwt contact = none
target unsupported contact = none

-- A request to the Salesforce endpoint is the given one; other calls are not restricted.
abbrev pub Asks : Option (Verb × String) → Call → Type 0
Asks o (send endpoint token r) = some (r.verb, r.path) ≡ o
Asks o c = Unit

-- A request is the method's, at the contact.
abbrev pub Targets : Method → String → Call → Type 0
Targets m contact c = Asks (target m contact) c

pub store_in_cache-Only :
    (m : Method) (contact : String) (svc : Services) (c : Option String) (cached : CacheData)
    → Only (Targets m contact) (store_in_cache svc c cached)
unfolding store_in_cache store_at
store_in_cache-Only m contact svc c cached = search (only_rules, tt)

pub dispatch-Targets :
    (svc : Services) (x : Context) (m : Method)
    → Only (Targets m (text_of x.contact)) (dispatch svc x m)
unfolding dispatch create_voice_call update_voice_call execute_omni_flow send_message
    cancel_omni_flow_execution reroute_flow_execution callback_execution route_voice_call
    generate_jwt
dispatch-Targets svc x create = search (only_rules, inbound_fields-Only, tt) depth 8
dispatch-Targets svc x update = search (only_rules, named_fields-Only, tt) depth 8
dispatch-Targets svc x transfer = search (only_rules, transfer_fields-Only, tt) depth 8
dispatch-Targets svc x message = search (only_rules, named_fields-Only, tt) depth 8
dispatch-Targets svc x cache = search (only_rules, store_in_cache-Only) depth 8
dispatch-Targets svc x _ = search only_rules depth 8

abbrev pub is_send : Call → ℕ
is_send (send endpoint token r) = 1
is_send c = 0

pub store_in_cache_free :
    (svc : Services) (c : Option String) (cached : CacheData)
    → Only (λ u. is_send u ≡ 0) (store_in_cache svc c cached)
unfolding store_in_cache store_at
store_in_cache_free svc c cached = search only_rules

-- The shape of every function of the API.
one_send :
    (svc : Services) (params : JwtParams) (endpoint : Option String) (r : Request)
    (f : String → Exec Call (Object String))
    → ((e : String) → Costs is_send 0 (f e))
    → Costs is_send 1 (do
      o ← (do
        token ← generate_jwt svc params
        handle (call (send endpoint token r) (λ t. svc.send t r)) f)
      pure (data_of o))
unfolding generate_jwt
one_send svc params endpoint r f h =
    Costs-bind_left _ _
      (Costs-bind_right _ _ (Costs-free _ _ refl)
        (λ token. Costs-handle_left _ _ (Costs-call _ _) h))
      (λ o. Costs-pure _)

generate_jwt_free :
    (svc : Services) (p : JwtParams) → Only (λ u. is_send u ≡ 0) (generate_jwt svc p)
unfolding generate_jwt
generate_jwt_free svc p = search only_rules

pub dispatch_sends :
    (svc : Services) (x : Context) (m : Method) → Costs is_send 1 (dispatch svc x m)
unfolding dispatch create_voice_call update_voice_call execute_omni_flow send_message
    cancel_omni_flow_execution reroute_flow_execution callback_execution route_voice_call
dispatch_sends svc x create =
    Costs-bind_right _ _ (Costs-Only _ (inbound_fields-Only svc x))
      (λ v. one_send svc _ _ _ _ (λ e. Costs-raise _))
dispatch_sends svc x transfer =
    Costs-bind_right _ _ (Costs-Only _ (transfer_fields-Only svc x))
      (λ v. one_send svc _ _ _ _ (λ e. Costs-raise _))
dispatch_sends svc x update =
    Costs-bind_right _ _ (Costs-Only _ (named_fields-Only x))
      (λ v. one_send svc _ _ _ _ (λ e. Costs-raise _))
dispatch_sends svc x message =
    Costs-bind_right _ _ (Costs-Only _ (named_fields-Only x))
      (λ v. one_send svc _ _ _ _ (λ e. Costs-pure _))
dispatch_sends svc x omni = one_send svc _ _ _ _ (λ e. Costs-raise _)
dispatch_sends svc x cancel = one_send svc _ _ _ _ (λ e. Costs-raise _)
dispatch_sends svc x reroute = one_send svc _ _ _ _ (λ e. Costs-raise _)
dispatch_sends svc x callback = one_send svc _ _ _ _ (λ e. Costs-raise _)
dispatch_sends svc x route = one_send svc _ _ _ _ (λ e. Costs-raise _)
dispatch_sends svc x cache = Costs-weaken (omega arith) (
    Costs-Only _ (
      Only-bind _ _ (Only-ask _)
        (λ now. Only-bind _ _ (store_in_cache_free svc _ _) (λ u. Only-pure _))))
dispatch_sends svc x jwt =
    Costs-weaken (omega arith)
      (Costs-bind_left _ _ (Costs-Only _ (generate_jwt_free svc _)) (λ token. Costs-pure _))
dispatch_sends svc x unsupported = Costs-weaken (omega arith) (Costs-raise _)
