-- ===== src/DataSync/Handler/Batches.antt =====
-- How many conversations contactDataSync uploads at a time.
use service_cloud_voice_lamb.Common.{
  ℕ, suc, ◌≤◌, ◌≡◌, refl, String, true, false, Option, none, some, List, [], ◌∷◌, ◌++◌, length, ltb,
  equals, arith, Bool-cases, inl, inr,
}
use service_cloud_voice_lamb.Common.Object.{Object, put}
use service_cloud_voice_lamb.Common.Effect.{Exec}
use service_cloud_voice_lamb.Common.Trace.{Only, only_rules, Only-pure, Only-if, Only-bind}
use service_cloud_voice_lamb.DataSync.Calls.{
  Item, Event, Timestamp, Utterance, Analysis, Entry, upload, Call, invoke, Services,
}
use service_cloud_voice_lamb.DataSync.Transcript.{described, get_transcript, entries_at}
use service_cloud_voice_lamb.DataSync.Paths.{listed, paths_from, get_contact_lens_s3_path}
use service_cloud_voice_lamb.DataSync.Upload.{
  added, has_entries, is_full, invoke_sf_rest_api_upload_transcript, last_batch,
  fetch_transcript_from_cl_file, upload_from, process_transcript,
}
use service_cloud_voice_lamb.DataSync.Handler.{
  Problem, Reply, unless_problem, validate_upload_transcript_request, payload_problem, size_problem,
  process_upload, process_fetch_upload_ids_status, handler,
}

-- An upload has from 1 to 10 conversations; no other call is restricted.
abbrev pub IsBatch : Call → Type 0
IsBatch (invoke (upload batch secret access)) = (1 ≤ length batch) × (length batch ≤ 10)
IsBatch c = Unit

length-put :
    {V : Type 0} (k : String) (v : V) (o : Object V)
    → (1 ≤ length (put k v o)) × (length (put k v o) ≤ suc (length o))
length-put k v [] = (omega arith, omega arith)
length-put k v ((j, w) ∷ o) = ground (arith, length-put k v o)

length-added :
    (entries : List Entry) (batch : Object (List Entry))
    → has_entries entries ≡ true
    → (1 ≤ length (added entries batch)) × (length (added entries batch) ≤ suc (length batch))
unfolding added
length-added [] batch h = absurd (cc)
length-added (e ∷ entries) batch h = length-put e.conversation_id (e ∷ entries) batch

below_full :
    (o : Option ℕ) (n : ℕ) (batch : Object (List Entry))
    → o ≡ some n
    → n ≤ 10
    → is_full batch o ≡ false
    → length batch ≤ 9
below_full none n batch h k q = absurd (cc)
below_full (some j) n batch h k q =
    let e : j ≡ n = cc in
    let low : suc (length batch) ≤ j = ground (arith, q) in omega (arith, low, e, k)

module _ (svc : Services) (n : ℕ) (sized : svc.batch_size ≡ some n) (small : n ≤ 10)
    (secret access : Option String) where
  send-IsBatch :
      (batch : Object (List Entry))
      → 1 ≤ length batch
      → length batch ≤ 10
      → Only IsBatch (invoke_sf_rest_api_upload_transcript svc secret access batch)
  unfolding invoke_sf_rest_api_upload_transcript
  send-IsBatch batch p q = search only_rules

  last-IsBatch :
      (batch : Object (List Entry)) (results : List String)
      → length batch ≤ 9
      → Only IsBatch (last_batch svc secret access batch results)
  unfolding last_batch
  last-IsBatch [] results h = Only-pure results
  last-IsBatch (entry ∷ batch) results h =
      Only-bind _ _ (send-IsBatch (entry ∷ batch) (omega arith) (omega (arith, h)))
        (λ result. Only-pure _)

  entries-IsBatch :
      (a : Analysis) (related : Object (Option (List String))) (date : Option ℕ)
      (us : Option (List Utterance))
      → Only IsBatch (entries_at a related date us)
  entries-IsBatch a related date none = search only_rules
  entries-IsBatch a related date (some us) = search only_rules

  fetch-IsBatch :
      (related : Object (Option (List String))) (key : String)
      → Only IsBatch (fetch_transcript_from_cl_file svc secret access related key)
  unfolding fetch_transcript_from_cl_file get_transcript described
  fetch-IsBatch related key = search (only_rules, entries-IsBatch) depth 10

  upload-IsBatch :
      (related : Object (Option (List String))) (keys : List String) (batch : Object (List Entry))
      (results : List String)
      → length batch ≤ 9
      → Only IsBatch (upload_from svc secret access related keys batch results)
  unfolding upload_from
  upload-IsBatch related [] batch results h = last-IsBatch batch results h
  upload-IsBatch related (key ∷ keys) batch results h =
      Only-bind _ _ (fetch-IsBatch related key) λ entries.
        Only-if (has_entries entries) _ _
          (λ p.
            let (low, high) = length-added entries batch p in
            Only-if (is_full (added entries batch) svc.batch_size) _ _
              (λ q.
                Only-bind _ _ (send-IsBatch (added entries batch) low (omega (arith, high, h)))
                  (λ result. upload-IsBatch related keys [] (results ++ result ∷ []) (omega arith)))
              (λ q.
                upload-IsBatch related keys (added entries batch) results
                  (below_full svc.batch_size n (added entries batch) sized small q)))
          (λ p. upload-IsBatch related keys batch results h)

module _ (svc : Services) where
  listed-IsBatch : (o : Option Timestamp) → Only IsBatch (listed svc o)
  unfolding listed
  listed-IsBatch none = search only_rules
  listed-IsBatch (some d) = search only_rules

  described-IsBatch :
      (contact : String) (instance : Option String) → Only IsBatch (described svc contact instance)
  unfolding described
  described-IsBatch contact instance = search only_rules

  paths-IsBatch :
      (items : List Item) (keys found : List String)
      → Only IsBatch (paths_from svc items keys found)
  unfolding paths_from
  paths-IsBatch [] keys found = search only_rules
  paths-IsBatch (item ∷ items) keys found =
      search (only_rules, listed-IsBatch, described-IsBatch, paths-IsBatch items) depth 10

process-IsBatch :
    (svc : Services) (n : ℕ) (sized : svc.batch_size ≡ some n) (small : n ≤ 10)
    (secret access : Option String) (items : List Item)
    → Only IsBatch (process_transcript svc secret access items)
unfolding process_transcript get_contact_lens_s3_path
process-IsBatch svc n sized small secret access items =
    Only-bind _ _ (paths-IsBatch svc items [] [])
      (λ keys. upload-IsBatch svc n sized small secret access _ keys [] [] (omega arith))

unless-IsBatch :
    (o : Option Problem) (m : Exec Call Reply)
    → (o ≡ none → Only IsBatch m)
    → Only IsBatch (unless_problem o m)
unless-IsBatch none m h = h refl
unless-IsBatch (some problem) m h = search only_rules

small_size :
    (o : Option ℕ) (n : ℕ) (problem : Option Problem)
    → o ≡ some n
    → size_problem o problem ≡ none
    → n ≤ 10
small_size none n problem h k = absurd (cc)
small_size (some j) n problem h k = elim (Bool-cases (ltb 10 j)) [
  | inl p ↦ absurd (ground (arith, p, k))
  | inr p ↦ let e : j ≡ n = cc in let q : j ≤ 10 = ground (arith, p) in omega (arith, q, e)
]

-- If a size of the batches is configured, then whatever the services answer, and whatever the size and
-- the request are, every upload has from 1 to 10 conversations.
pub data_sync_handler-IsBatch :
    (svc : Services) (e : Event) (n : ℕ) → svc.batch_size ≡ some n → Only IsBatch (handler svc e)
unfolding handler process_upload process_fetch_upload_ids_status validate_upload_transcript_request
data_sync_handler-IsBatch svc e n sized =
    Only-if (equals e.operation "uploadTranscript") _ _
      (λ p. unless-IsBatch _ _ λ valid.
        let small =
          small_size svc.batch_size n (payload_problem svc.max_contact_ids e.payload) sized valid in
        Only-bind _ _ (process-IsBatch svc n sized small _ _ _) (λ found. Only-pure _))
      (λ p.
        Only-if (equals e.operation "fetchUploadIdsStatus") _ _
          (λ q. unless-IsBatch _ (process_fetch_upload_ids_status svc e) λ valid. search only_rules)
          (λ q. search only_rules))
