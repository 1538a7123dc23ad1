-- ===== src/Vfs.antt =====
-- invokeVfsIntegrationApi: the voicemail and phone number requests of contact flows.
pub mod Escape
pub mod Calls
pub mod Handler
