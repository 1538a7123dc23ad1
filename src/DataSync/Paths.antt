-- ===== src/DataSync/Paths.antt =====
-- `getContactLensS3Path` of contactDataSync/awsUtils.js.
use service_cloud_voice_lamb.Common.{
  ℕ, zero, suc, ◌-◌, String, Bool, true, false, not, Option, none, some, List, [], ◌∷◌, ◌++◌, keep,
  if◌then◌else◌,
}
use Prim.Native.String.{◌++◌ as ◌<>◌}
use service_cloud_voice_lamb.Common.Text.{contains, text_length}
use service_cloud_voice_lamb.Common.Effect.{Exec, pure, call, ◌>>=◌}
use service_cloud_voice_lamb.DataSync.Calls.{Item, Timestamp, Contact, Call, list_objects, Services}
use service_cloud_voice_lamb.DataSync.Transcript.{described}

-- `s.padStart(n, "0")`
abbrev pad_zeros : ℕ → String → String
pad_zeros zero s = s
pad_zeros (suc n) s = "0" <> pad_zeros n s

abbrev pub pad_start : String → ℕ → String
pad_start s n = pad_zeros (n - text_length s) s

unfoldable pub prefix_of : Timestamp → String
prefix_of d =
    "Analysis/Voice/"
    <> (d.year <> ("/" <> (pad_start d.month 2 <> ("/" <> (pad_start d.day 2 <> "/")))))

abbrev pub is_empty {ℓ} : {A : Type ℓ} → List A → Bool
is_empty [] = true
is_empty (x ∷ xs) = false

-- The start of a contact that had an agent.
abbrev pub usable : Contact → Option Timestamp
usable c = if c.has_agent_info then c.initiation_timestamp else none

module _ (svc : Services) where
  -- The keys that lie under the day of a contact, if it can be used.
  unfoldable pub listed : Option Timestamp → Exec Call (List String)
  listed none = pure []
  listed (some d) = call (list_objects (prefix_of d)) svc.list_objects

  -- The loop, with all the keys that were listed, and the paths that were found.
  unfoldable pub paths_from :
      List Item → (listed_keys found : List String) → Exec Call (List String)
  paths_from [] keys found = pure found
  paths_from (item ∷ items) keys found =
      let matched = keep (λ k. contains k item.contact_id) keys in
      if not (is_empty matched) then paths_from items keys (found ++ matched) else do
        contact ← described svc item.contact_id svc.connect_instance_id
        fresh ← listed (usable contact)
        paths_from items (keys ++ fresh) (found ++ keep (λ k. contains k item.contact_id) fresh)

  unfoldable pub get_contact_lens_s3_path : List Item → Exec Call (List String)
  get_contact_lens_s3_path items = paths_from items [] []
