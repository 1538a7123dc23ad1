-- ===== src/Voicemail.antt =====
-- The voicemail lambdas: recordings of calls to audio files, and transcripts to voice calls.
pub mod Decoder
pub mod Audio
pub mod Packaging
pub mod Multiorg
pub mod Transcribe
pub mod Pipeline
pub mod Served
