-- ===== src/Telephony/Handler/Rules.antt =====
-- Which calls the parts of invokeTelephonyIntegrationApi make, for a predicate on calls.
use service_cloud_voice_lamb.Common.{String, Option, none, some, text_of}
use service_cloud_voice_lamb.Common.Trace.{Only, Only-pure, Only-raise, only_rules}
use service_cloud_voice_lamb.Telephony.Calls.{
  Endpoint, ContactData, Event, Call, secret_value, Services,
}
use service_cloud_voice_lamb.Telephony.Secrets.{get_secret_configs, read_secret}
use service_cloud_voice_lamb.Telephony.Fields.{
  need, Context, address_of, web_rtc_type, pstn_type, get_call_type_specific_attributes,
  get_participant_key, inbound_fields, transfer_fields, named_fields, contact_of,
}

module _ {P : Call → Type 0} where
  pub Only-need : {A : Type 0} (o : Option A) → Only P (need o)
  Only-need none = Only-raise _
  Only-need (some a) = Only-pure a

  address_of-Only : (o : Option Endpoint) → Only P (address_of o)
  unfolding address_of
  address_of-Only o = search (only_rules, Only-need)

  pub contact_of-Only : (e : Event) → Only P (contact_of e)
  unfolding contact_of
  contact_of-Only e = search (only_rules, Only-need)

  web_rtc_type-Only : (d : ContactData) → Only P (web_rtc_type d)
  unfolding web_rtc_type
  web_rtc_type-Only d = search (only_rules, Only-need)

  pstn_type-Only : (d : ContactData) → Only P (pstn_type d)
  unfolding pstn_type
  pstn_type-Only d = search (only_rules, address_of-Only)

  types-Only : (d : ContactData) → Only P (get_call_type_specific_attributes d)
  unfolding get_call_type_specific_attributes
  types-Only d = search (only_rules, Only-need, web_rtc_type-Only, pstn_type-Only)

  key-Only : (d : ContactData) (s : String) → Only P (get_participant_key d s)
  unfolding get_participant_key
  key-Only d s = search (only_rules, address_of-Only)

  ruleset field_rules = (only_rules, Only-need, address_of-Only, types-Only, key-Only)

  pub inbound_fields-Only : (svc : Services) (x : Context) → Only P (inbound_fields svc x)
  unfolding inbound_fields
  inbound_fields-Only svc x = search field_rules depth 8

  pub transfer_fields-Only : (svc : Services) (x : Context) → Only P (transfer_fields svc x)
  unfolding transfer_fields
  transfer_fields-Only svc x = search field_rules depth 8

  pub named_fields-Only : (x : Context) → Only P (named_fields x)
  unfolding named_fields
  named_fields-Only x = search field_rules

  pub get_secret_configs-Only :
      (svc : Services) (name : Option String)
      → P (secret_value (text_of name))
      → Only P (get_secret_configs svc name)
  unfolding get_secret_configs read_secret
  get_secret_configs-Only svc name h = search only_rules
