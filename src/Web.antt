-- ===== src/Web.antt =====
-- The browser around the page: its storage areas, its document, and the functions of the platform
-- and of the bundled libraries, which are parameters.
pub mod Store
pub mod Dom
pub mod Libs
