-- ===== src/Keys.antt =====
-- authKeysSSMUtil: the lambda that makes key pairs and stores keys in the secret of an org.
pub mod Calls
pub mod Secrets
pub mod Handler
pub mod Stored
pub mod Examples
