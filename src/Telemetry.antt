-- ===== src/Telemetry.antt =====
-- The telemetry library of telemetry_service.js: events, their queue, and the page's own calls.
pub mod Types
pub mod Sync
pub mod Event
pub mod Dispatch
pub mod Api
pub mod Client
pub mod FingerPrint
pub mod Ponyfill
pub mod Proper
pub mod Accounting
