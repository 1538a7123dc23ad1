-- ===== src/ContactLens/Consumer.antt =====
-- contactLensConsumer/handler.js, which hands the records of the stream to contactLensProcessor, and
-- what it and multiorgContactLensConsumer ask of the services around them.
pub mod Multi
pub mod Forwarded
pub mod Linked
pub mod Stored
pub mod Examples
use service_cloud_voice_lamb.Common.{
  ℕ, String, Option, none, some, List, ltb, length, if◌then◌else◌,
}
use service_cloud_voice_lamb.Common.Effect.{Result, Exec, pure, call, ◌>>=◌, ◌>>◌}
use service_cloud_voice_lamb.ContactLens.Calls.{KinesisRecord}

pub data Call : Type 0 where
  get_cached : (bucket key : String) → Call
  invoke : List KinesisRecord → Call

-- S3, and the lambda of contactLensProcessor, with the place of the cache from the environment. Of
-- a cached object only the name of the secret counts.
pub record Services : Type 0 where
  pub secret_cache_s3 : Option String
  pub get_cached : List Call → String → String → Result (Option String)
  pub invoke : List Call → Result (Unit {0})

abbrev pub max_records : ℕ
max_records = 5

-- The text that every run answers.
abbrev pub success : String
success = "Success"

module _ (svc : Services) where
  unfoldable pub forward : List KinesisRecord → Exec Call String
  forward records = do call (invoke records) svc.invoke; pure success

  unfoldable pub handler : Option (List KinesisRecord) → Exec Call String
  unfolding forward
  handler none = pure success
  handler (some records) =
      if ltb max_records (length records) then pure success else forward records
