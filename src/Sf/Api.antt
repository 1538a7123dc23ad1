-- ===== src/Sf/Api.antt =====
-- invokeSfRestApi/sfRestApi.js. The result of a request is the data of its response.
pub mod Requests
pub mod Recovery
use service_cloud_voice_lamb.Common.{
  ℕ, String, Bool, true, false, Option, none, some, List, [], ◌∷◌, text_of, if◌then◌else◌, eqb,
  ◌==◌,
}
use Prim.Native.String
use Prim.Native.String.{◌++◌}
use service_cloud_voice_lamb.Common.Object.{Object, put}
use service_cloud_voice_lamb.Common.Effect.{
  Attempt, ok, throw, Result, Action, pure, raise, lift, call, handle, ◌>>=◌, ◌>>◌,
}
use service_cloud_voice_lamb.Sf.Json.{
  Json, null, bool, number, text, list, object, nil, item, end, fields_of, member, without,
  text_value,
}
use service_cloud_voice_lamb.Sf.Calls.{
  Fault, refused, failed, error, Configs, Verb, get, post, patch, Url, path, with_parameter, Body,
  no_body, fields, form, Request, Call, send, Services,
}
use service_cloud_voice_lamb.Sf.Secrets.{get_secret_configs}
use service_cloud_voice_lamb.Sf.Token.{with_message, get_access_token}

-- `v.k`, which is a TypeError for `undefined` and `null`.
abbrev pub property : String → Option Json → Attempt Fault (Option Json)
property k none = throw (error "TypeError")
property k (some null) = throw (error "TypeError")
property k (some v) = ok (member k v)

-- A property of the first error in the data of a response, or of the data itself.
unfoldable pub error_part : String → String → Option Json → Attempt Fault (Option Json)
error_part k j (some (list (item v rest))) = property k (some v)
error_part k j v = property j v

abbrev error_object : ℕ → Option Json → Option Json → Option Json → Json
error_object status status_text code message = object (
    fields_of (
      ("success", some (bool false))
      ∷ ("status", some (number status))
      ∷ ("statusText", status_text)
      ∷ ("errorCode", code)
      ∷ ("errorMessage", message)
      ∷ []))

unfoldable pub build_error : Fault → Action Fault Call (Option Json)
build_error (refused status status_text found) = do
  code ← lift (error_part "errorCode" "error" found)
  message ← lift (error_part "message" "error_description" found)
  pure (some (error_object status (text_value status_text) code message))
build_error (failed message code reason) =
    pure (some (error_object 500 (text_value code) (text_value code) (text_value reason)))

unfoldable pub is_unauthorized : Fault → Bool
is_unauthorized (refused status status_text found) = eqb status 401
is_unauthorized (failed message code reason) = false

-- The parts of a request that its caller chooses.
pub record Draft : Type 0 where
  pub verb : Verb
  pub url : Url
  pub body : Body
  pub headers : Object String

-- `records[0]`
unfoldable pub index_zero : Option Json → Attempt Fault (Option Json)
index_zero none = throw (error "TypeError")
index_zero (some null) = throw (error "TypeError")
index_zero (some (list (item v rest))) = ok (some v)
index_zero (some (text (String.◌∷◌ c s))) = ok (some (text (String.◌∷◌ c "")))
index_zero (some v) = ok (member "0" v)

-- `delete result.attributes`
unfoldable pub delete_attributes : Option Json → Attempt Fault (Option Json)
delete_attributes none = throw (error "TypeError")
delete_attributes (some null) = throw (error "TypeError")
delete_attributes (some (object o)) = ok (some (object (without "attributes" o)))
delete_attributes (some v) = ok (some v)

-- `v === 0`
abbrev pub is_zero : Option Json → Bool
is_zero (some (number n)) = eqb n 0
is_zero v = false

-- `v.length`, as far as it is compared with 0.
unfoldable pub has_no_items : Option Json → Attempt Fault Bool
has_no_items none = throw (error "TypeError")
has_no_items (some null) = throw (error "TypeError")
has_no_items (some (list nil)) = ok true
has_no_items (some (text s)) = ok (s == "")
has_no_items (some v) = ok (is_zero (member "length" v))

unfoldable pub put_all : Object String → Object String → Object String
put_all [] o = o
put_all ((k, v) ∷ added) o = put_all added (put k v o)

module _ (svc : Services) (secret_name access_name : Option String) where
  -- A request with a token, the cached one or a fresh one.
  unfoldable pub authorized : Configs → Draft → Bool → Action Fault Call (Option Json)
  authorized c d refresh = do
    token ← get_access_token svc c access_name refresh
    let r : Request = record {
      verb = d.verb;
      base_url = c.base_url;
      url = d.url;
      body = d.body;
      headers = put "Authorization" ("Bearer " ++ text_of token) d.headers;
    }
    call (send r) (λ t. svc.send t r)

  unfoldable pub send_request : Draft → Action Fault Call (Option Json)
  send_request d = do
    c ← get_secret_configs svc secret_name
    handle (authorized c d false) (λ e. if is_unauthorized e then authorized c d true else raise e)

  abbrev json_headers : Object String
  json_headers = ("Content-Type", "application/json") ∷ []

  unfoldable pub create_record : String → Object String → Action Fault Call (Option Json)
  create_record name values =
      handle
        (do
          found ← send_request (record {
            verb = post;
            url = path ("/sobjects/" ++ name);
            body = fields values;
            headers = json_headers;
          })
          success ← lift (property "success" found)
          id ← lift (property "id" found)
          pure (some (object (fields_of (("success", success) ∷ ("recordId", id) ∷ [])))))
        build_error

  abbrev updated : Option Json → Json
  updated (some (text s)) = object (fields_of (("success", some (bool (s == ""))) ∷ []))
  updated v = object (fields_of (("success", some (bool false)) ∷ []))

  unfoldable pub update_record :
      String → Option String → Object String → Action Fault Call (Option Json)
  update_record name id values =
      handle
        (do
          found ← send_request (record {
            verb = patch;
            url = path ("/sobjects/" ++ (name ++ ("/" ++ text_of id)));
            body = fields values;
            headers = json_headers;
          })
          pure (some (updated found)))
        build_error

  unfoldable pub send_realtime_alert_event : Object String → Action Fault Call (Option Json)
  send_realtime_alert_event values =
      handle
        (do
          found ← send_request (record {
            verb = post;
            url = path "/sobjects/RealtimeAlertEvent";
            body = fields values;
            headers = json_headers;
          })
          success ← lift (property "success" found)
          id ← lift (property "id" found)
          errors ← lift (property "errors" found)
          pure (
              some
                (object (fields_of (("success", success) ∷ ("id", id) ∷ ("errors", errors) ∷ [])))))
        build_error

  unfoldable pub upload_transcript : Result (Object String) → Action Fault Call (Option Json)
  upload_transcript payloads =
      handle
        (do
          parts ← lift (with_message payloads)
          send_request (record {
            verb = post;
            url = path "connect/conversations/upload";
            body = form parts;
            headers = put_all svc.form_headers (("Accept", "application/json") ∷ []);
          }))
        build_error

  unfoldable pub fetch_upload_ids_status : Option String → Action Fault Call (Option Json)
  fetch_upload_ids_status ids =
      handle
        (send_request (record {
          verb = get;
          url = with_parameter "connect/conversations/upload" "uploadIds" (text_of ids);
          body = no_body;
          headers = [];
        }))
        build_error

  unfoldable pub first_record : Option Json → Action Fault Call (Option Json)
  first_record found = do
    total ← lift (property "totalSize" found)
    if is_zero total then pure (some (object end)) else (do
      records ← lift (property "records" found)
      first ← lift (index_zero records)
      lift (delete_attributes first))

  unfoldable pub query_record : Option String → Action Fault Call (Option Json)
  query_record soql =
      handle
        (do
          found ← send_request (record {
            verb = get;
            url = with_parameter "/query/" "q" (text_of soql);
            body = no_body;
            headers = [];
          })
          first_record found)
        build_error

  unfoldable pub search_record : Option String → Action Fault Call (Option Json)
  search_record sosl =
      handle
        (do
          found ← send_request (record {
            verb = get;
            url = with_parameter "/search/" "q" (text_of sosl);
            body = no_body;
            headers = [];
          })
          records ← lift (property "searchRecords" found)
          is_empty ← lift (has_no_items records)
          if is_empty then pure (some (object end)) else lift (index_zero records))
        build_error
