-- ===== src/ContactLens.antt =====
-- contactLensProcessor: transcripts from Kinesis to Salesforce, in bulk and with retries.
pub mod Calls
pub mod Secrets
pub mod Bulk
pub mod Batch
pub mod Consumer
