-- ===== src/Telephony.antt =====
-- invokeTelephonyIntegrationApi: contact flow events to requests of the Salesforce telephony API.
pub mod Calls
pub mod Attributes
pub mod Secrets
pub mod Cache
pub mod Api
pub mod Fields
pub mod Handler
