-- ===== src/Ctr/Sync.antt =====
-- ctrDataSync/handler.js: which records of a batch become updates.
pub mod Updates
pub mod Served
pub mod Examples
use service_cloud_voice_lamb.Common.{
  ◌≡◌, refl, sym, ap, ◌∙◌, String, Bool, true, false, not, Option, none, some, List, [], ◌∷◌, ◌++◌,
  ◌||◌, ◌&&◌, truthy, equals, if◌then◌else◌, append_assoc, append-nil, map,
}
use service_cloud_voice_lamb.Common.Effect.{
  Result, ok, throw, Exec, pure, lift, call, settle, all_settled, ◌>>=◌, ◌>>◌,
}
use service_cloud_voice_lamb.Ctr.Records.{Ctr, Update, Call, update_voice_call, Services}
use service_cloud_voice_lamb.Ctr.Transform.{attribute, transform_ctr}

-- A channel, a method and a contact that are synchronised, and no voicemail that is packaged.
unfoldable pub should_process_ctr : Ctr → Bool
should_process_ctr c =
    if equals (attribute "NoSync" c.attributes) "true"
    then false
    else equals c.channel "VOICE"
      && (equals c.initiation_method "INBOUND"
          || equals c.initiation_method "OUTBOUND"
          || equals c.initiation_method "TRANSFER"
          || equals c.initiation_method "CALLBACK"
          || equals c.initiation_method "API"
          || equals c.initiation_method "WEBRTC_API")
      && truthy c.contact_id
      && not (truthy (attribute "vm_flag" c.attributes) && c.recordings)

module _ (svc : Services) where
  unfoldable pub update_voice_call_record : Update → Exec Call String
  update_voice_call_record u = call (update_voice_call u) svc.invoke

  -- The loop over the records, which gathers the promises of the updates.
  unfoldable pub sync_records : List Ctr → List (Result String) → Exec Call (List (Result String))
  sync_records [] promises = pure promises
  sync_records (c ∷ records) promises =
      if should_process_ctr c
      then (do
        u ← lift (transform_ctr c)
        promise ← settle (update_voice_call_record u)
        sync_records records (promises ++ promise ∷ []))
      else sync_records records promises

  unfoldable pub handler : List Ctr → Exec Call (List String)
  handler records = do promises ← sync_records records []; lift (all_settled promises)
