-- ===== src/Vfs/Handler/Requests.antt =====
-- Which requests invokeVfsIntegrationApi/handler.js makes.
use service_cloud_voice_lamb.Common.{
  ◌≡◌, refl, subst, if◌then◌else◌, arith, ◌or_else◌, String, true, Option, none, some, truthy,
  text_of, equals, ◌⊎◌, inl, inr,
}
use Prim.Native.Char.{char}
use Prim.Native.String.{◌++◌}
use service_cloud_voice_lamb.Common.Text.{avoids}
use service_cloud_voice_lamb.Common.Object.{get}
use service_cloud_voice_lamb.Common.Returns.{Returns, Returns-pure, Returns-raise, Returns-if}
use service_cloud_voice_lamb.Common.Trace.{
  Only, Only-if, Only-pure, Only-raise, Only-bind-Returns, only_rules,
}
use service_cloud_voice_lamb.Telephony.Calls.{Config}
use service_cloud_voice_lamb.Vfs.Escape.{encode_uri_component, encode-avoids}
use service_cloud_voice_lamb.Vfs.Calls.{
  ContactData, Event, Fault, refused, error, Call, secret_value, sign_jwt, send, Services,
}
use service_cloud_voice_lamb.Vfs.Handler.{
  attribute_of, field_of, secret_from_attributes, drop_url, number_url, greeting_url, drop_error,
  initial_contact, contact_of, read_secret, get_secret_configs, generate_jwt, request,
  get_voicemail_drop, get_default_outbound_phone_number, get_voicemail_greeting, dispatch,
  resolved_secret, serve, handler,
}

-- The value of a parameter ends neither the parameter nor the query.
abbrev pub IsOneValue : String → Type 0
IsOneValue value = (avoids (char b'&' tt) value ≡ true) × (avoids (char b'#' tt) value ≡ true)

-- The address of the contact's voicemail drop, or of one of the two queries with one parameter.
abbrev pub IsAddress : Option String → String → Type 0
IsAddress contact url =
    (url ≡ "/voiceCalls/" ++ (text_of contact ++ "/voicemailDrop"))
    ⊎ ((value : String) × (url ≡ "/voiceCalls/defaultOutboundPhoneNumber?externalRepId=" ++ value)
        × IsOneValue value)
    ⊎ ((value : String) × (url ≡ "/voiceCalls/voicemailGreeting?toPhoneNumber=" ++ value)
        × IsOneValue value)

-- The name of the secret for an event: that of the attributes of the call, or else that of the field
-- values, or else that of the environment. A name that is empty does not count.
abbrev pub expected_secret : Services → Event → Option String
expected_secret svc e =
    attribute_of "secretName" e.contact_data
    or_else (field_of "secretName" e.field_values or_else svc.secret_name)

or_else_assoc : (a b c : Option String) → ((a or_else b) or_else c) ≡ (a or_else (b or_else c))
or_else_assoc a b c = ground arith

resolved-expected : (svc : Services) (e : Event) → resolved_secret svc e ≡ expected_secret svc e
unfolding resolved_secret secret_from_attributes
resolved-expected svc e =
    or_else_assoc (attribute_of "secretName" e.contact_data) (field_of "secretName" e.field_values)
      svc.secret_name

-- A secret is read under the name, which is not empty, and a request has such an address.
abbrev pub Restricted : Option String → Option String → Call → Type 0
Restricted name contact (secret_value s) = (truthy name ≡ true) × (s ≡ text_of name)
Restricted name contact (sign_jwt params) = Unit
Restricted name contact (send r) = IsAddress contact r.url

encoded-IsOneValue : (s : String) → IsOneValue (encode_uri_component s)
encoded-IsOneValue s =
    (encode-avoids (char b'&' tt) s (refl, refl), encode-avoids (char b'#' tt) s (refl, refl))

module _ (svc : Services) (name contact : Option String) where
  error-Restricted : (f : Fault) → Only (Restricted name contact) (drop_error f)
  unfolding drop_error
  error-Restricted (refused status) = search only_rules
  error-Restricted (error message) = search only_rules

  request-Restricted :
      (c : Config) (jwt url : String)
      → IsAddress contact url
      → Only (Restricted name contact) (request svc c jwt url)
  unfolding request
  request-Restricted c jwt url h = search only_rules

  drop-Restricted : (c : Config) → Only (Restricted name contact) (get_voicemail_drop svc contact c)
  unfolding get_voicemail_drop generate_jwt drop_url
  drop-Restricted c =
      let h : IsAddress contact (drop_url contact) = inl refl in
      search (only_rules, error-Restricted, request-Restricted, h)

  number-Restricted :
      (agent : String) (c : Config)
      → Only (Restricted name contact) (get_default_outbound_phone_number svc agent c)
  unfolding get_default_outbound_phone_number generate_jwt number_url
  number-Restricted agent c =
      let h : IsAddress contact (number_url agent) =
        inr (inl (encode_uri_component agent, refl, encoded-IsOneValue agent)) in
      search (only_rules, request-Restricted, h)

  greeting-Restricted :
      (phone : String) (c : Config)
      → Only (Restricted name contact) (get_voicemail_greeting svc phone c)
  unfolding get_voicemail_greeting generate_jwt greeting_url
  greeting-Restricted phone c =
      let h : IsAddress contact (greeting_url phone) =
        inr (inr (encode_uri_component phone, refl, encoded-IsOneValue phone)) in
      search (only_rules, request-Restricted, h)

  dispatch-Restricted :
      (e : Event) (c : Config) → Only (Restricted name contact) (dispatch svc e contact c)
  unfolding dispatch
  dispatch-Restricted e c =
      search (only_rules, drop-Restricted, number-Restricted, greeting-Restricted) depth 12

  configs-Restricted : Only (Restricted name contact) (get_secret_configs svc name)
  unfolding get_secret_configs read_secret
  configs-Restricted = search only_rules

initial-Restricted :
    (name contact : Option String) (o : Option ContactData)
    → Only (Restricted name contact) (initial_contact o)
initial-Restricted name contact none = search only_rules
initial-Restricted name contact (some d) = search only_rules

contact-Restricted :
    (name contact : Option String) (e : Event) → Only (Restricted name contact) (contact_of e)
unfolding contact_of
contact-Restricted name contact e = search (only_rules, initial-Restricted)

-- The contact of an event: the parameter, or else the initial contact of the contact data.
abbrev pub expected_contact : Event → Option String
expected_contact e =
    if truthy (get "contactId" e.values)
    then get "contactId" e.values
    else elim e.contact_data [ none ↦ none | some d ↦ d.initial_contact_id ]

initial-Returns :
    (o : Option ContactData)
    → Returns (λ c. c ≡ elim o [ none ↦ none | some d ↦ d.initial_contact_id ]) (initial_contact o)
initial-Returns none = Returns-raise _
initial-Returns (some d) = Returns-pure _ refl

contact_of-Returns : (e : Event) → Returns (λ c. c ≡ expected_contact e) (contact_of e)
unfolding contact_of
contact_of-Returns e =
    Returns-if (truthy (get "contactId" e.values)) _ _ (λ p. rw p (Returns-pure _ refl))
      (λ p. rw p (initial-Returns e.contact_data))

serve-Restricted :
    (svc : Services) (e : Event) (contact : Option String)
    → contact ≡ expected_contact e
    → Only (Restricted (resolved_secret svc e) (expected_contact e)) (serve svc e contact)
unfolding serve
serve-Restricted svc e contact p =
    rw p (search (only_rules, dispatch-Restricted, configs-Restricted) depth 12)

-- What the handler calls is what its parts call.
handler-Only :
    (P : Call → Type 0) (svc : Services) (e : Event)
    → Only P (contact_of e)
    → ((c : Option String) → c ≡ expected_contact e → Only P (serve svc e c))
    → Only P (handler svc e)
unfolding handler
handler-Only P svc e h k =
    Only-if (equals e.detail_type "Scheduled Event") _ _ (λ _. Only-pure _)
      (λ _.
        Only-bind-Returns _ _ _ h (contact_of-Returns e)
          λ c p. Only-if (truthy (resolved_secret svc e)) _ _ (λ _. k c p) (λ _. Only-raise _))

handler-Resolved :
    (svc : Services) (e : Event)
    → Only (Restricted (resolved_secret svc e) (expected_contact e)) (handler svc e)
handler-Resolved svc e =
    handler-Only (Restricted (resolved_secret svc e) (expected_contact e)) svc e
      (contact-Restricted (resolved_secret svc e) (expected_contact e) e) (serve-Restricted svc e)

-- Whatever the services answer, a secret is read only under the name that the attributes of the call
-- give, or else the field values, or else the environment, which is not empty, and every request of
-- the lambda goes to the voicemail drop of the event's contact or is one of the two queries, with a
-- value that has neither & nor # in it.
pub vfs_handler-Restricted :
    (svc : Services) (e : Event)
    → Only (Restricted (expected_secret svc e) (expected_contact e)) (handler svc e)
vfs_handler-Restricted svc e =
    subst (λ name. Only (Restricted name (expected_contact e)) (handler svc e))
      (resolved-expected svc e) (handler-Resolved svc e)
