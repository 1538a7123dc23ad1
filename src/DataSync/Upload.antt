-- ===== src/DataSync/Upload.antt =====
-- contactDataSync/transcriptUploader.js, with the invocations of contactDataSync/sfRestApi.js.
use service_cloud_voice_lamb.Common.{
  ℕ, String, Bool, true, false, Option, none, some, List, [], ◌∷◌, ◌++◌, if◌then◌else◌, length, leb,
}
use service_cloud_voice_lamb.Common.Object.{Object, put}
use service_cloud_voice_lamb.Common.Effect.{Exec, pure, call, ◌>>=◌}
use service_cloud_voice_lamb.DataSync.Calls.{
  Item, Entry, upload, Call, get_object, invoke, Services,
}
use service_cloud_voice_lamb.DataSync.Transcript.{get_transcript}
use service_cloud_voice_lamb.DataSync.Paths.{get_contact_lens_s3_path}

-- The related records of each contact; a later item replaces an earlier one of the same contact.
unfoldable pub related_from :
    List Item → Object (Option (List String)) → Object (Option (List String))
related_from [] o = o
related_from (item ∷ items) o = related_from items (put item.contact_id item.related_records o)

-- `batch.size >= config.batchSize`
abbrev pub is_full : Object (List Entry) → Option ℕ → Bool
is_full batch none = false
is_full batch (some n) = leb n (length batch)

-- A batch with the entries of a file, if there are any.
unfoldable pub added : List Entry → Object (List Entry) → Object (List Entry)
added [] batch = batch
added (e ∷ entries) batch = put e.conversation_id (e ∷ entries) batch

abbrev pub has_entries : List Entry → Bool
has_entries [] = false
has_entries (e ∷ entries) = true

module _ (svc : Services) (secret access : Option String) where
  unfoldable pub invoke_sf_rest_api_upload_transcript : Object (List Entry) → Exec Call String
  invoke_sf_rest_api_upload_transcript batch = call (invoke (upload batch secret access)) svc.invoke

  -- What follows the loop.
  unfoldable pub last_batch : Object (List Entry) → List String → Exec Call (List String)
  last_batch [] results = pure results
  last_batch (entry ∷ batch) results = do
    result ← invoke_sf_rest_api_upload_transcript (entry ∷ batch)
    pure (results ++ result ∷ [])

  unfoldable pub fetch_transcript_from_cl_file :
      Object (Option (List String)) → String → Exec Call (List Entry)
  fetch_transcript_from_cl_file related key = do
    a ← call (get_object key) svc.get_object
    get_transcript svc a related

  -- The loop over the files, with the batch and the results so far.
  unfoldable pub upload_from :
      Object (Option (List String))
      → List String
      → Object (List Entry)
      → List String
      → Exec Call (List String)
  upload_from related [] batch results = last_batch batch results
  upload_from related (key ∷ keys) batch results = do
    entries ← fetch_transcript_from_cl_file related key
    if has_entries entries
        then if is_full (added entries batch) svc.batch_size
          then (do
            result ← invoke_sf_rest_api_upload_transcript (added entries batch)
            upload_from related keys [] (results ++ result ∷ []))
          else upload_from related keys (added entries batch) results
        else upload_from related keys batch results

  unfoldable pub process_transcript : List Item → Exec Call (List String)
  process_transcript items = do
    keys ← get_contact_lens_s3_path svc items
    upload_from (related_from items []) keys [] []
