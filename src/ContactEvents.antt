-- ===== src/ContactEvents.antt =====
-- handleContactEvents and multiorgHandleContactEvents: events of contacts become invocations of
-- invokeTelephonyIntegrationApi.
pub mod Calls
pub mod Rules
pub mod Single
pub mod Multi
pub mod Examples
