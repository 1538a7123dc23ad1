-- ===== src/Ctr/Attributes.antt =====
-- `getCallAttributes` of ctrDataSync/utils.js.
use service_cloud_voice_lamb.Common.{
  ◌≡◌, refl, ◌∙◌, sym, ap, String, Bool, true, false, Option, none, some, [], ◌∷◌, if◌then◌else◌,
  ◌==◌, truthy, text_of, ◌&&◌, eq_iff, Bool-cases, inl, inr,
}
use Prim.Native.String.{◌++◌}
use service_cloud_voice_lamb.Common.Text.{starts_with, substring}
use service_cloud_voice_lamb.Common.Object.{Object, get, put, get-put, IsUnique}
use service_cloud_voice_lamb.Telephony.Attributes.{
  strip_from, get_call_attributes as filtered, get-get_call_attributes, construct_flow_input_params,
  get-construct_flow_input_params,
}

abbrev pub status_key : String
status_key = "sf_realtime_transcription_status"

-- The status is copied at every key of the attributes.
abbrev copy_status : Option String → Object String → Object String
copy_status status out = if truthy status then put status_key (text_of status) out else out

unfoldable pub copy_from : Option String → Object String → Object String → Object String
copy_from status [] out = out
copy_from status ((key, value) ∷ rest) out =
    copy_from status rest (
      copy_status status (if starts_with key "sfdc-" then put (substring key 5) value out else out))

unfoldable pub get_call_attributes : Object String → Object String
get_call_attributes raw = copy_from (get status_key raw) raw []

module _ (status : Option String) where
  get-copy_status :
      (k : String) (out : Object String)
      → (truthy status && (status_key == k)) ≡ false
      → get k (copy_status status out) ≡ get k out
  get-copy_status k out h = chosen (truthy status) h
    where
      chosen :
          (b : Bool)
          → (b && (status_key == k)) ≡ false
          → get k (if b then put status_key (text_of status) out else out) ≡ get k out
      chosen true e =
          get-put status_key k (text_of status) out
          ∙ ap (λ b. if b then some (text_of status) else get k out) e
      chosen false e = refl

  kept_alike :
      (b : Bool) (k j v : String) (o p : Object String)
      → get k o ≡ get k p
      → get k (if b then put j v o else o) ≡ get k (if b then put j v p else p)
  kept_alike true k j v o p h =
      get-put j k v o ∙ ap (λ g. if j == k then some v else g) h ∙ sym (get-put j k v p)
  kept_alike false k j v o p h = h

  -- At other keys than the status the loop is that of the filter without one.
  get-copy_from :
      (k : String) (raw o p : Object String)
      → (truthy status && (status_key == k)) ≡ false
      → get k o ≡ get k p
      → get k (copy_from status raw o) ≡ get k (strip_from "sfdc-" raw p)
  unfolding copy_from strip_from
  get-copy_from k [] o p h e = e
  get-copy_from k ((key, value) ∷ raw) o p h e =
      get-copy_from k raw _ _ h (
        get-copy_status k _ h
        ∙ kept_alike (starts_with key "sfdc-") k (substring key 5) value o p e)

  put_status :
      (o : Object String)
      → truthy status ≡ true
      → get status_key (copy_status status o) ≡ some (text_of status)
  put_status o h = rw (h, get-put) refl

  copied :
      (raw o : Object String)
      → truthy status ≡ true
      → get status_key o ≡ some (text_of status)
      → get status_key (copy_from status raw o) ≡ some (text_of status)
  unfolding copy_from
  copied [] o h e = e
  copied ((key, value) ∷ raw) o h e =
      copied raw _ h
        (put_status (if starts_with key "sfdc-" then put (substring key 5) value o else o) h)

copied_status :
    (o : Option String) (raw : Object String)
    → get status_key raw ≡ o
    → truthy o ≡ true
    → get status_key (copy_from o raw []) ≡ o
unfolding copy_from
copied_status none raw h p = absurd (cc)
copied_status (some s) [] h p = h
copied_status (some s) ((key, value) ∷ raw) h p =
    copied (some s) raw _ p (
      put_status (some s) (if starts_with key "sfdc-" then put (substring key 5) value [] else [])
        p)

-- Of a contact's attributes, whose keys are distinct, the update of the call has the transcription
-- status, if there is one, under its own key, and under each other key the value of the attribute
-- that is that key with "sfdc-" in front.
get-status_attributes :
    (raw : Object String) (k : String)
    → IsUnique raw
    → get k (get_call_attributes raw) ≡ (
        if truthy (get status_key raw) && (status_key == k)
        then get status_key raw
        else get ("sfdc-" ++ k) raw)
unfolding get_call_attributes filtered
get-status_attributes raw k h =
    elim (Bool-cases (truthy (get status_key raw) && (status_key == k))) [
      | inl p ↦ rw p (at_status p)
      | inr p ↦
          rw p (
            get-copy_from (get status_key raw) k raw [] [] p refl ∙ get-get_call_attributes raw k h)
    ]
  where
    both : (a b : Bool) → (a && b) ≡ true → (a ≡ true) × (b ≡ true)
    both true b q = (refl, q)
    both false b q = absurd (cc)

    at_status :
        (truthy (get status_key raw) && (status_key == k)) ≡ true
        → get k (copy_from (get status_key raw) raw []) ≡ get status_key raw
    at_status p =
        let (t, e) = both _ _ p in
        let same : status_key ≡ k = (eq_iff status_key k).0 e in
        rw (sym same) (copied_status (get status_key raw) raw refl t)

-- Of a contact's attributes, whose keys are distinct, a voice call that invokeTelephonyIntegrationApi
-- creates gets under each key the value of the attribute that is that key with "sfdc-" in front, a
-- flow gets the one with "flowInput-" in front, and neither gets another attribute; and the update
-- that ctrDataSync makes of the call has the attributes that it was created with, but for the
-- transcription status, which, if there is one, stands under its own key.
pub filters-get :
    (raw : Object String) (k : String)
    → IsUnique raw
    → (get k (filtered raw) ≡ get ("sfdc-" ++ k) raw)
      × (get k (construct_flow_input_params raw) ≡ get ("flowInput-" ++ k) raw)
      × (get k (get_call_attributes raw) ≡ (
          if truthy (get status_key raw) && (status_key == k)
          then get status_key raw
          else get k (filtered raw)))
filters-get raw k h = (
  get-get_call_attributes raw k h,
  get-construct_flow_input_params raw k h,
  rw (get-get_call_attributes raw k h) (get-status_attributes raw k h),
)
