-- ===== src/Telephony/Handler/Requests.antt =====
-- Which requests an event of each method of invokeTelephonyIntegrationApi/handler.js makes.
use service_cloud_voice_lamb.Common.{
  ◌≡◌, refl, sym, subst, String, Bool, true, false, Option, none, some, truthy, text_of, equals,
  ◌==◌, if◌then◌else◌, arith,
}
use Prim.Native.String.{◌++◌ as ◌<>◌}
use service_cloud_voice_lamb.Common.Text.{append-empty}
use service_cloud_voice_lamb.Common.Object.{get}
use service_cloud_voice_lamb.Common.Effect.{pure, ◌>>=◌}
use service_cloud_voice_lamb.Common.Trace.{
  Only, Only-if, Only-pure, Only-bind, Only-bind-Returns, only_rules,
}
use service_cloud_voice_lamb.Common.Cost.{
  Costs, Costs-if, Costs-weaken, Costs-raise, Costs-pure, Costs-Only, Costs-bind_left,
  Costs-bind_right,
}
use service_cloud_voice_lamb.Common.Returns.{Returns, Returns-pure, Returns-raise, Returns-bind}
use service_cloud_voice_lamb.Telephony.Calls.{ContactData, Event, Verb, post, patch, Services}
use service_cloud_voice_lamb.Telephony.Fields.{Context, need, contact_of}
use service_cloud_voice_lamb.Telephony.Handler.{
  Method, Reply, method_of, remember, serve, handle_event, handler,
}
use service_cloud_voice_lamb.Telephony.Handler.Rules.{contact_of-Only, get_secret_configs-Only}
use service_cloud_voice_lamb.Telephony.Handler.Dispatch.{
  target, Asks, Targets, store_in_cache-Only, dispatch-Targets, is_send, store_in_cache_free,
  dispatch_sends,
}

remember-Targets :
    (m : Method) (contact : String) (svc : Services) (x : Context) (n : Method) (r : Reply)
    → Only (Targets m contact) (remember svc x n r)
unfolding remember
remember-Targets m contact svc x n r = search (only_rules, store_in_cache-Only)

remember_free :
    (svc : Services) (x : Context) (n : Method) (r : Reply)
    → Only (λ u. is_send u ≡ 0) (remember svc x n r)
unfolding remember
remember_free svc x n r = search (only_rules, store_in_cache_free)

abbrev contact_id_of : Option ContactData → Option String
contact_id_of none = none
contact_id_of (some d) = d.contact_id

-- The contact that a contact event is about: the parameter's, or else that of the contact data.
abbrev pub event_contact : Event → Option String
event_contact e =
    if truthy (get "contactId" e.parameters.values)
    then get "contactId" e.parameters.values
    else contact_id_of e.contact_data

contact_choice :
    (b : Bool) (c : Option String) (o : Option ContactData)
    → Returns
        (λ r. r ≡ (if b then c else contact_id_of o))
        (if b then pure c else (do d ← need o; pure d.contact_id))
contact_choice true c o = Returns-pure c refl
contact_choice false c none = Returns-bind (λ d. ⊥) _ _ (Returns-raise _) (λ d q. absurd q)
contact_choice false c (some d) =
    Returns-bind (λ a. a ≡ d) _ _ (Returns-pure d refl) (λ a p. Returns-pure _ (rw p refl))

pub contact_of-Returns : (e : Event) → Returns (λ c. c ≡ event_contact e) (contact_of e)
unfolding contact_of
contact_of-Returns e = contact_choice _ _ e.contact_data

serve-Targets :
    (svc : Services) (e : Event) (contact : Option String)
    → Only
        (Targets (method_of (get "methodName" e.parameters.values)) (text_of contact))
        (serve svc e contact)
unfolding serve
serve-Targets svc e contact = Only-bind _ _ (get_secret_configs-Only svc _ tt) λ c.
    Only-bind _ _ (dispatch-Targets svc _ _)
      λ r. Only-bind _ _ (remember-Targets _ _ svc _ _ r) λ u. Only-pure _

serve_sends :
    (svc : Services) (e : Event) (contact : Option String) → Costs is_send 1 (serve svc e contact)
unfolding serve
serve_sends svc e contact =
    Costs-bind_right _ _ (Costs-Only _ (get_secret_configs-Only svc _ refl)) λ c.
      Costs-bind_left _ _ (dispatch_sends svc _ _)
        λ r. Costs-bind_right _ _ (Costs-Only _ (remember_free svc _ _ r)) λ u. Costs-pure _

serve_at-Targets :
    (svc : Services) (e : Event) (contact : Option String)
    → contact ≡ event_contact e
    → Only
        (Targets (method_of (get "methodName" e.parameters.values)) (text_of (event_contact e)))
        (serve svc e contact)
serve_at-Targets svc e contact p = rw (sym p) (serve-Targets svc e contact)

handle_event-Targets :
    (svc : Services) (e : Event)
    → Only
        (Targets (method_of (get "methodName" e.parameters.values)) (text_of (event_contact e)))
        (handle_event svc e)
unfolding handle_event
handle_event-Targets svc e =
    Only-bind-Returns _ _ _ (contact_of-Only e) (contact_of-Returns e)
      λ c q. let served = serve_at-Targets svc e c q in search (only_rules, served)

handler_sends : (svc : Services) (e : Event) → Costs is_send 1 (handler svc e)
unfolding handler handle_event
handler_sends svc e = Costs-if _ _ _ _ (Costs-weaken (omega arith) (Costs-pure _)) (
    Costs-bind_right _ _ (Costs-Only _ (contact_of-Only e))
      λ c. Costs-if _ _ _ _ (serve_sends svc e c) (Costs-weaken (omega arith) (Costs-raise _)))

-- The requests are those of the method that the code finds.
pub handler-Targets :
    (svc : Services) (e : Event)
    → Only
        (Targets (method_of (get "methodName" e.parameters.values)) (text_of (event_contact e)))
        (handler svc e)
      × Costs is_send 1 (handler svc e)
unfolding handler
handler-Targets svc e = (search (only_rules, handle_event-Targets), handler_sends svc e)

-- The one request for the name of a method, from the API's documentation of its endpoints.
abbrev pub documented : Option String → String → Option (Verb × String)
documented none contact = none
documented (some name) contact =
    if name == "createVoiceCall"
    then some (post, "/voiceCalls")
    else if name == "updateVoiceCall"
    then some (patch, "/voiceCalls/" <> contact)
    else if name == "createTransferVC"
    then some (post, "/voiceCalls")
    else if name == "executeOmniFlow"
    then some (patch, "/voiceCalls/" <> (contact <> "/omniFlow"))
    else if name == "cancelOmniFlowExecution"
    then some (patch, "/voiceCalls/" <> (contact <> "/clearRouting"))
    else if name == "rerouteFlowExecution"
    then some (patch, "/voiceCalls/" <> (contact <> "/reroute"))
    else if name == "sendMessage"
    then some (post, "/voiceCalls/" <> (contact <> "/messages"))
    else if name == "callbackExecution"
    then some (post, "/voiceCalls/" <> (contact <> "/requestCallback"))
    else if name == "routeVoiceCall"
    then some (patch, "/voiceCalls/route/" <> contact)
    else if name == "updateCache"
    then none
    else if name == "getJwtToken"
    then none
    else none

-- The request that an event asks for; a warm-up event asks for none.
abbrev pub wanted : Event → Option (Verb × String)
wanted e =
    if equals e.detail_type "Scheduled Event"
    then none
    else documented (get "methodName" e.parameters.values) (text_of (event_contact e))

target-if :
    (b : Bool) (m n : Method) (contact : String)
    → target (if b then m else n) contact ≡ (if b then target m contact else target n contact)
target-if true m n contact = refl
target-if false m n contact = refl

documented-target :
    (name : Option String) (contact : String)
    → target (method_of name) contact ≡ documented name contact
unfolding method_of
documented-target none contact = refl
documented-target (some name) contact = simp (target-if, append-empty)

handle_event-Asks :
    (svc : Services) (e : Event)
    → Only
        (Asks (documented (get "methodName" e.parameters.values) (text_of (event_contact e))))
        (handle_event svc e)
handle_event-Asks svc e =
    subst (λ o. Only (Asks o) (handle_event svc e))
      (documented-target (get "methodName" e.parameters.values) (text_of (event_contact e)))
      (handle_event-Targets svc e)

-- Whatever the services answer, every request that the lambda makes to the Salesforce endpoint has
-- the verb and the path that the API documents for the name of the event's method at the event's
-- contact (the parameter `contactId`, or else the contact of the contact data), and there is at most
-- one. Names that have no endpoint, and warm-up events, make no request.
pub handler-Asks :
    (svc : Services) (e : Event)
    → Only (Asks (wanted e)) (handler svc e) × Costs is_send 1 (handler svc e)
unfolding handler
handler-Asks svc e = (
  Only-if (equals e.detail_type "Scheduled Event") _ _ (λ p. Only-pure _)
      (λ p. rw p (handle_event-Asks svc e)),
  handler_sends svc e,
)
