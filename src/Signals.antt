-- ===== src/Signals.antt =====
-- postCallAnalysisTrigger and multiorgPostCallAnalysisTrigger: the signals of a post-call analysis.
pub mod Chunks
pub mod Key
pub mod Calls
pub mod Analysis
pub mod Single
pub mod Multi
pub mod Posted
pub mod Order
pub mod Examples
