-- ===== src/Login.antt =====
-- The functions of ansible/artifacts/sunbird/login/resources/js/login.js, the page's script without
-- telemetry. Those that have the same text in telemetry_service.js are the definitions under Page;
-- the others, its handlers that leave the page among them, are definitions of their own.
pub mod Shared
pub mod Leave
pub mod Navigate
pub mod Password
pub mod Onload
