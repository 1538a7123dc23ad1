-- ===== src/Ctr/Sync/Served.antt =====
-- What invokeTelephonyIntegrationApi makes of the updates of ctrDataSync.
use service_cloud_voice_lamb.Common.{
  ◌≡◌, refl, ap, subst, ◌∙◌, ℕ, String, Bool, true, false, Option, none, some, List, [], ◌∷◌, ◌++◌,
  All, truthy, text_of, ◌or_else◌, ◌==◌, if◌then◌else◌, arith,
}
use service_cloud_voice_lamb.Common.Object.{Object, get, optional_field}
use service_cloud_voice_lamb.Common.Effect.{Result, ok, throw, then_ok}
use service_cloud_voice_lamb.Common.Trace.{Only}
use service_cloud_voice_lamb.Common.Cost.{Costs}
use service_cloud_voice_lamb.Telephony.Calls.{Event, Services}
use service_cloud_voice_lamb.Telephony.Handler.{update, method_of, handler}
use service_cloud_voice_lamb.Telephony.Handler.Dispatch.{Targets, is_send}
use service_cloud_voice_lamb.Telephony.Handler.Requests.{event_contact, handler-Targets}
use service_cloud_voice_lamb.Telephony.Handler.Names.{Named, resolved_secret, handler-Named}
use service_cloud_voice_lamb.Ctr.Records.{
  Ctr, DisconnectReason, VoiceCall, Update, Call, update_voice_call, Services as CtrServices,
}
use service_cloud_voice_lamb.Ctr.Transform.{Numbers, voice_call_of, numbers_of, transform_ctr}
use service_cloud_voice_lamb.Ctr.Sync.{should_process_ctr, handler as sync_handler}
use service_cloud_voice_lamb.Ctr.Sync.Updates.{send_then, updates, handler-updates}

-- The texts that stand for values that are no texts, and the JSON text of the attributes.
pub record Shown : Type 0 where
  pub number : ℕ → String
  pub reason : DisconnectReason → String
  pub attributes : Object String → String

shown_as {ℓ} : {A : Type ℓ} → (A → String) → Option A → Option String
shown_as f none = none
shown_as f (some a) = some (f a)

-- The properties with a value: `null` and `undefined` are deleted.
unfoldable present : List (String × Option String) → Object String
present [] = []
present ((k, none) ∷ o) = present o
present ((k, some v) ∷ o) = (k, v) ∷ present o

unfoldable values_of : Shown → VoiceCall → List (String × Option String)
unfolding shown_as
values_of w f =
    ("startTime", f.start_time)
    ∷ ("endTime", f.end_time)
    ∷ ("parentCallIdentifier", f.parent_call_identifier)
    ∷ ("disconnectReason", some (w.reason f.disconnect_reason))
    ∷ ("secretName", f.secret_name)
    ∷ ("acceptTime", f.accept_time)
    ∷ ("totalHoldDuration", shown_as w.number f.total_hold_duration)
    ∷ ("longestHoldDuration", shown_as w.number f.longest_hold_duration)
    ∷ ("agentInteractionDuration", shown_as w.number f.agent_interaction_duration)
    ∷ ("numberOfHolds", shown_as w.number f.number_of_holds)
    ∷ ("enqueueTime", f.enqueue_time)
    ∷ ("queue", f.queue)
    ∷ ("initiationMethod", f.initiation_method)
    ∷ ("fromNumber", f.from_number)
    ∷ ("toNumber", f.to_number)
    ∷ ("callSubType", f.call_sub_type)
    ∷ ("recordingLocation", f.recording_location)
    ∷ ("callAttributes", shown_as w.attributes f.call_attributes)
    ∷ []

unfoldable pub update_event : Shown → Update → Event
unfolding present values_of
update_event w u = record {
  detail_type = none;
  parameters = record {
    values = ("methodName", "updateVoiceCall") ∷ optional_field "contactId" u.contact_id;
    field_values = some (present (values_of w u.fields));
  };
  contact_data = none;
}

-- The value of a key in `present fs`.
abbrev first_some : Option String → Option String → Option String
first_some none rest = rest
first_some (some v) rest = some v

abbrev found : String → List (String × Option String) → Option String
found k [] = none
found k ((j, v) ∷ fs) = let rest = found k fs in if j == k then first_some v rest else rest

get-present : (k : String) (fs : List (String × Option String)) → get k (present fs) ≡ found k fs
unfolding present
get-present k [] = refl
get-present k ((j, none) ∷ fs) = ground (arith, get-present k fs)
get-present k ((j, some v) ∷ fs) = ground (arith, get-present k fs)

first_some-none : (o : Option String) → first_some o none ≡ o
first_some-none none = refl
first_some-none (some s) = refl

update_event-secret :
    (svc : Services) (w : Shown) (u : Update)
    → resolved_secret svc (update_event w u) ≡ (u.fields.secret_name or_else svc.secret_name)
unfolding update_event values_of
update_event-secret svc w u =
    ap (λ o. o or_else svc.secret_name)
      (get-present "secretName" (values_of w u.fields) ∙ first_some-none u.fields.secret_name)

update_event-contact :
    (w : Shown) (c : Option String) (f : VoiceCall)
    → truthy c ≡ true
    → event_contact (update_event w (record { contact_id = c; fields = f })) ≡ c
unfolding update_event
update_event-contact w none f h = refl
update_event-contact w (some s) f h = rw h refl

update_event-method :
    (w : Shown) (u : Update)
    → method_of (get "methodName" (update_event w u).parameters.values) ≡ update
unfolding update_event method_of
update_event-method w u = refl

should_process_ctr-contact : (c : Ctr) → should_process_ctr c ≡ true → truthy c.contact_id ≡ true
unfolding should_process_ctr
should_process_ctr-contact c h = ground arith

module _ (svc : Services) (w : Shown) where
  -- What an update asks of the telephony lambda.
  abbrev pub Served : Call → Type 0
  Served (update_voice_call u) =
      (truthy u.contact_id ≡ true)
      × Only (Targets update (text_of u.contact_id)) (handler svc (update_event w u))
      × Costs is_send 1 (handler svc (update_event w u))
      × Only (Named (u.fields.secret_name or_else svc.secret_name)) (handler svc (update_event w u))

  update-Served :
      (c : Option String) (f : VoiceCall)
      → truthy c ≡ true
      → Served (update_voice_call (record { contact_id = c; fields = f }))
  update-Served c f h =
      let u : Update = record { contact_id = c; fields = f } in
      let run = handler svc (update_event w u) in
      let (targets, once) = handler-Targets svc (update_event w u) in
      (
        h,
        subst (λ o. Only (Targets update (text_of o)) run) (update_event-contact w c f h)
            (subst (λ m. Only (Targets m (text_of (event_contact (update_event w u)))) run)
              (update_event-method w u) targets),
        once,
        subst (λ o. Only (Named o) run) (update_event-secret svc w u)
            (handler-Named svc (update_event w u)),
      )

  translated-Served :
      (c : Ctr) (r : Result Numbers) (rest : List Call)
      → truthy c.contact_id ≡ true
      → All Served rest
      → All Served (
          send_then
            (then_ok r (λ n. ok (record { contact_id = c.contact_id; fields = voice_call_of c n })))
            rest)
  translated-Served c (ok n) rest h k = (update-Served c.contact_id (voice_call_of c n) h, k)
  translated-Served c (throw e) rest h k = tt

  chosen-Served :
      (b : Bool) (calls rest : List Call)
      → (b ≡ true → All Served calls)
      → All Served rest
      → All Served (if b then calls else rest)
  chosen-Served true calls rest h k = h refl
  chosen-Served false calls rest h k = k

  updates-Served : (records : List Ctr) → All Served (updates records)
  unfolding transform_ctr
  updates-Served [] = tt
  updates-Served (c ∷ records) =
      let rest = updates-Served records in
      chosen-Served (should_process_ctr c) _ _
        (λ h. translated-Served c (numbers_of c) _ (should_process_ctr-contact c h) rest) rest

-- Whatever the telephony lambda answers, and even if its invocations fail, ctrDataSync invokes it
-- once for every record of the batch that is to be synchronised, in the order of the batch, with
-- the translation of the record, up to the first of them that cannot be translated, and makes no
-- other call. Each of these invocations names a contact, and whatever the services of the telephony
-- lambda answer, it makes at most one request for it, with the verb and the path of the update of
-- that contact's call, and reads no secret but the one of the update, or else that of its
-- environment.
pub handler-Served :
    (ctr_svc : CtrServices) (svc : Services) (w : Shown) (records : List Ctr) (t : List Call)
    → ((sync_handler ctr_svc records t).1 ≡ t ++ updates records)
      × All (Served svc w) (updates records)
handler-Served ctr_svc svc w records t =
    (handler-updates ctr_svc records t, updates-Served svc w records)
