-- ===== src/ContactLens/Consumer/Multi.antt =====
-- multiorgContactLensConsumer: handler.js and cacheUtils.js. Each record gets the name of the secret
-- that the cache has for its contact, before the records are handed to contactLensProcessor.
use service_cloud_voice_lamb.Common.{
  String, Option, none, some, List, [], ◌∷◌, ◌&&◌, not, ◌==◌, ltb, length, truthy, text_of,
  if◌then◌else◌,
}
use service_cloud_voice_lamb.Common.Effect.{Exec, pure, raise, call, handle, ◌>>=◌}
use service_cloud_voice_lamb.Telephony.Cache.{bucket_of, key_of}
use service_cloud_voice_lamb.ContactLens.Calls.{Payload, KinesisRecord}
use service_cloud_voice_lamb.ContactLens.Consumer.{
  Call, get_cached, Services, max_records, success, forward,
}

unfoldable pub with_name : KinesisRecord → Option String → KinesisRecord
with_name r name = if truthy name then record r { secret_name = name } else r

module _ (svc : Services) where
  unfoldable pub retrieve_at : String → String → Exec Call (Option String)
  retrieve_at location contact =
      let bucket = bucket_of location in
      let key = key_of location contact in
      handle (call (get_cached bucket key) (λ t. svc.get_cached t bucket key)) (λ err. pure none)

  -- The name of the secret in the cached object, if there is one.
  unfoldable pub retrieve_from_cache : String → Exec Call (Option String)
  retrieve_from_cache contact =
      if not (contact == "") && truthy svc.secret_cache_s3
      then retrieve_at (text_of svc.secret_cache_s3) contact
      else pure none

  -- A payload that is `null` or cannot be read is an error.
  unfoldable pub name_of : Option Payload → Exec Call (Option String)
  unfolding retrieve_from_cache retrieve_at
  name_of none = raise "TypeError"
  name_of (some p) = retrieve_from_cache p.contact_id

  unfoldable pub link : KinesisRecord → Exec Call KinesisRecord
  unfolding name_of with_name
  link r = handle (do name ← name_of r.payload; pure (with_name r name)) (λ err. pure r)

  unfoldable pub link_all : List KinesisRecord → Exec Call (List KinesisRecord)
  unfolding link
  link_all [] = pure []
  link_all (r ∷ rs) = do linked ← link r; rest ← link_all rs; pure (linked ∷ rest)

  unfoldable pub handler : Option (List KinesisRecord) → Exec Call String
  unfolding link_all
  handler none = pure success
  handler (some records) =
      if ltb max_records (length records)
      then pure success
      else (do linked ← link_all records; forward svc linked)
