-- ===== src/Sf.antt =====
-- invokeSfRestApi: requests of the Salesforce REST API, with an access token that is kept in a secret.
pub mod Json
pub mod Calls
pub mod Secrets
pub mod Token
pub mod Api
pub mod Query
pub mod Phone
pub mod Numbers
pub mod Handler
