-- ===== src/Core.antt =====
-- client/coreapi.py: the variables of a page, and the login session with the switch.
pub mod Regex
pub mod Variables
pub mod Session
