-- ===== src/Page.antt =====
-- The page's own script, the last part of telemetry_service.js.
pub mod Nullable
pub mod Session
pub mod Elements
pub mod Events
pub mod Redirect
pub mod Navigate
pub mod Password
pub mod Startup
pub mod Merge
pub mod Onload
