-- ===== src/Telephony/Cache.antt =====
-- The cache of secret names in S3: cacheUtils.js of invokeTelephonyIntegrationApi, which writes it
-- and reads it back.
pub mod RoundTrip
use service_cloud_voice_lamb.Common.{
  String, Bool, true, false, Option, none, some, List, [], ◌∷◌, truthy, text_of, if◌then◌else◌,
  ◌==◌, eqb,
}
use Prim.Native.Char.{Char, code}
use Prim.Native.String
use Prim.Native.String.{◌++◌}
use service_cloud_voice_lamb.Common.Effect.{Exec, pure, call, handle, ◌>>=◌, ◌>>◌}
use service_cloud_voice_lamb.Telephony.Calls.{CacheData, Call, put_object, get_object, Services}

-- `s.split('/')`
push_char : Char → List String → List String
push_char c [] = String.◌∷◌ c "" ∷ []
push_char c (part ∷ parts) = String.◌∷◌ c part ∷ parts

unfoldable pub split_slash : String → List String
unfolding push_char
split_slash String.[] = "" ∷ []
split_slash (String.◌∷◌ c s) =
    let rest = split_slash s in if eqb (code c) b'/' then "" ∷ rest else push_char c rest

-- `parts.join('/')`
unfoldable pub join_slash : List String → String
join_slash [] = ""
join_slash (part ∷ []) = part
join_slash (part ∷ q ∷ parts) = part ++ ("/" ++ join_slash (q ∷ parts))

first_part : List String → String
first_part [] = ""
first_part (part ∷ parts) = part

other_parts : List String → List String
other_parts [] = []
other_parts (part ∷ parts) = parts

unfoldable pub bucket_of : String → String
unfolding first_part
bucket_of location = first_part (split_slash location)

unfoldable pub key_of : String → String → String
unfolding other_parts
key_of location contact =
    let directory = join_slash (other_parts (split_slash location)) in
    if directory == "" then contact else directory ++ ("/" ++ contact)

unfoldable pub store_at : Services → String → Option String → CacheData → Exec Call Bool
store_at svc location contact cached =
    handle
      (do
        call (put_object (bucket_of location) (key_of location (text_of contact)) cached)
            svc.put_object
        pure true)
      (λ _. pure false)

unfoldable pub store_in_cache : Services → Option String → CacheData → Exec Call Bool
store_in_cache svc contact cached =
    if truthy svc.secret_cache_s3
    then store_at svc (text_of svc.secret_cache_s3) contact cached
    else pure false

unfoldable pub retrieve_at : Services → String → Option String → Exec Call (Option CacheData)
retrieve_at svc location contact =
    let bucket = bucket_of location in
    let key = key_of location (text_of contact) in
    handle
      (do
        cached ← call (get_object bucket key) (λ t. svc.get_object t bucket key)
        pure (some cached))
      (λ _. pure none)

unfoldable pub retrieve_from_cache : Services → Option String → Exec Call (Option CacheData)
retrieve_from_cache svc contact =
    if truthy svc.secret_cache_s3
    then retrieve_at svc (text_of svc.secret_cache_s3) contact
    else pure none
