-- ===== src/ContactEvents/Rules.antt =====
-- The tests of utils.js of handleContactEvents, and of multiorgHandleContactEvents beside them.
use service_cloud_voice_lamb.Common.{
  ◌≡◌, refl, String, Bool, true, false, not, ◌&&◌, ◌||◌, Option, none, some, List, [], ◌∷◌, equals,
  includes, if◌then◌else◌,
}
use service_cloud_voice_lamb.Common.Effect.{ok, throw, Result}
use service_cloud_voice_lamb.ContactEvents.Calls.{Step, Criteria, Detail, Event}

-- `contactEventInitiationMethods.includes(m)`
abbrev pub is_initiation : Option String → Bool
is_initiation m = equals m "INBOUND" || equals m "TRANSFER"

abbrev pub abandoned_detail : Option Detail → Option String → Bool
abandoned_detail none detail_type = false
abandoned_detail (some d) detail_type =
    equals detail_type "Amazon Connect Contact Event"
    && is_initiation d.initiation_method
    && equals d.event_type "DISCONNECTED"
    && not d.has_agent_info

unfoldable pub is_disconnected_event_for_abandoned_call : Event → Bool
is_disconnected_event_for_abandoned_call e = abandoned_detail e.detail e.detail_type

-- The two tests of `steps[0]`, where `steps` may be missing.
abbrev pub first_step_expired : Option (List Step) → Result Bool
first_step_expired none = throw "TypeError"
first_step_expired (some []) = ok false
first_step_expired (some (s ∷ steps)) = ok (s.has_agents_criteria && equals s.status "EXPIRED")

abbrev pub criteria_expired : Option Criteria → Result Bool
criteria_expired none = ok false
criteria_expired (some c) = first_step_expired c.steps

-- The tests in front of those of the steps, in both lambdas.
abbrev pub is_update : Detail → Option String → Bool
is_update d detail_type =
    equals detail_type "Amazon Connect Contact Event"
    && is_initiation d.initiation_method
    && equals d.event_type "CONTACT_DATA_UPDATED"

abbrev pub updates_status : Option (List String) → Bool
updates_status none = false
updates_status (some properties) = includes properties "RoutingCriteria.Step.Status"

abbrev pub has_criteria : Option Criteria → Bool
has_criteria none = false
has_criteria (some c) = true

abbrev expired_detail : Option Detail → Option String → Result Bool
expired_detail none detail_type = ok false
expired_detail (some d) detail_type =
    if has_criteria d.routing_criteria
      && is_update d detail_type
      && updates_status d.updated_properties
    then criteria_expired d.routing_criteria
    else ok false

unfoldable pub is_routing_criteria_expired_event_for_call : Event → Result Bool
is_routing_criteria_expired_event_for_call e = expired_detail e.detail e.detail_type

abbrev multiorg_expired_detail : Option Detail → Option String → Result Bool
multiorg_expired_detail none detail_type = ok false
multiorg_expired_detail (some d) detail_type =
    if has_criteria d.routing_criteria && is_update d detail_type
    then criteria_expired d.routing_criteria
    else ok false

-- The test of multiorgHandleContactEvents.
unfoldable pub multiorg_is_routing_criteria_expired_event_for_call : Event → Result Bool
multiorg_is_routing_criteria_expired_event_for_call e =
    multiorg_expired_detail e.detail e.detail_type

abbrev says_updated : Option Detail → Bool
says_updated none = false
says_updated (some d) = updates_status d.updated_properties

narrowed :
    (a b c : Bool) (x : Result Bool)
    → (if a && b && c then x else ok false)
      ≡ (if c then (if a && b then x else ok false) else ok false)
narrowed true true true x = refl
narrowed true true false x = refl
narrowed true false true x = refl
narrowed true false false x = refl
narrowed false b true x = refl
narrowed false b false x = refl

-- The two lambdas agree on the events that say that the status of a routing step was updated; on all
-- other events handleContactEvents takes the criteria for not expired, whatever they are.
expired-differs :
    (e : Event)
    → is_routing_criteria_expired_event_for_call e ≡ (
        if says_updated e.detail
        then multiorg_is_routing_criteria_expired_event_for_call e
        else ok false)
unfolding is_routing_criteria_expired_event_for_call
    multiorg_is_routing_criteria_expired_event_for_call
expired-differs e = go e.detail e.detail_type
  where
    go :
        (d : Option Detail) (n : Option String)
        → expired_detail d n ≡ (if says_updated d then multiorg_expired_detail d n else ok false)
    go none n = refl
    go (some d) n =
        narrowed (has_criteria d.routing_criteria) (is_update d n)
          (updates_status d.updated_properties) (criteria_expired d.routing_criteria)
