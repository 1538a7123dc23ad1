-- ===== src/DataSync/Handler.antt =====
-- contactDataSync/handler.js, with fetchUploadIdsStatus.js and the invocation of sfRestApi.js beside it.
pub mod Batches
pub mod Examples
use service_cloud_voice_lamb.Common.{
  ℕ, String, Bool, true, false, Option, none, some, List, [], ◌∷◌, equals, ◌or_else◌, if◌then◌else◌,
  length, ltb,
}
use Prim.Native.String.{◌++◌}
use service_cloud_voice_lamb.Common.Effect.{Exec, pure, call, ◌>>=◌}
use service_cloud_voice_lamb.DataSync.Calls.{Item, Event, fetch_status, Call, invoke, Services}
use service_cloud_voice_lamb.DataSync.Upload.{process_transcript}

-- Why a request is refused; the text of the answer names the number.
pub data Problem : Type 0 where
  no_payload : Problem
  too_many_contacts : (limit : ℕ) → Problem
  batch_too_large : (size : ℕ) → Problem
  no_upload_ids : Problem
  unsupported : (operation : Option String) → Problem

pub data Reply : Type 0 where
  uploaded : List String → Reply
  status : String → Reply
  bad_request : Problem → Reply

-- `n > limit`, where one that is not set compares as false.
abbrev pub exceeds : ℕ → Option ℕ → Bool
exceeds n none = false
exceeds n (some limit) = ltb limit n

abbrev pub limit_of : Option ℕ → ℕ
limit_of none = 0
limit_of (some n) = n

abbrev pub payload_problem : Option ℕ → Option (List Item) → Option Problem
payload_problem limit none = some no_payload
payload_problem limit (some []) = some no_payload
payload_problem limit (some (item ∷ items)) =
    if exceeds (length (item ∷ items)) limit
    then some (too_many_contacts (limit_of limit))
    else none

abbrev max_batch_size : ℕ
max_batch_size = 10

abbrev pub size_problem : Option ℕ → Option Problem → Option Problem
size_problem none problem = problem
size_problem (some n) problem = if ltb max_batch_size n then some (batch_too_large n) else problem

-- The last of the two checks wins.
unfoldable pub validate_upload_transcript_request : Services → Event → Option Problem
validate_upload_transcript_request svc e =
    size_problem svc.batch_size (payload_problem svc.max_contact_ids e.payload)

abbrev pub ids_problem : Option (List String) → Option Problem
ids_problem none = some no_upload_ids
ids_problem (some []) = some no_upload_ids
ids_problem (some (id ∷ ids)) = none

unfoldable pub validate_fetch_upload_ids_status_request : Event → Option Problem
validate_fetch_upload_ids_status_request e = ids_problem e.upload_ids

-- `ids.join()`
abbrev pub join : List String → String
join [] = ""
join (id ∷ []) = id
join (id ∷ next ∷ ids) = id ++ ("," ++ join (next ∷ ids))

abbrev or_empty {ℓ} : {A : Type ℓ} → Option (List A) → List A
or_empty none = []
or_empty (some xs) = xs

abbrev pub unless_problem : Option Problem → Exec Call Reply → Exec Call Reply
unless_problem none m = m
unless_problem (some problem) m = pure (bad_request problem)

module _ (svc : Services) where
  abbrev pub secret_of : Event → Option String
  secret_of e = e.secret_name or_else svc.secret_name

  abbrev pub access_secret_of : Event → Option String
  access_secret_of e = e.access_token_secret_name or_else svc.access_token_secret_name

  unfoldable pub process_upload : Event → Exec Call Reply
  process_upload e = do
    found ← process_transcript svc (secret_of e) (access_secret_of e) (or_empty e.payload)
    pure (uploaded found)

  unfoldable pub invoke_sf_rest_api_fetch_upload_ids_status :
      String → Option String → Option String → Exec Call String
  invoke_sf_rest_api_fetch_upload_ids_status upload_ids secret access_secret =
      call (invoke (fetch_status upload_ids secret access_secret)) svc.invoke

  unfoldable pub process_fetch_upload_ids_status : Event → Exec Call Reply
  unfolding invoke_sf_rest_api_fetch_upload_ids_status
  process_fetch_upload_ids_status e = do
    result ←
        invoke_sf_rest_api_fetch_upload_ids_status (join (or_empty e.upload_ids)) (secret_of e)
          (access_secret_of e)
    pure (status result)

  unfoldable pub handler : Event → Exec Call Reply
  handler e =
      if equals e.operation "uploadTranscript"
      then unless_problem (validate_upload_transcript_request svc e) (process_upload e)
      else if equals e.operation "fetchUploadIdsStatus"
      then unless_problem (validate_fetch_upload_ids_status_request e)
          (process_fetch_upload_ids_status e)
      else pure (bad_request (unsupported e.operation))
