-- ===== src/DataSync.antt =====
-- contactDataSync: transcripts of finished calls are sent to Salesforce again.
pub mod Calls
pub mod Transcript
pub mod Paths
pub mod Upload
pub mod Handler
