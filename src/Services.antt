-- ===== src/Services.antt =====
-- services.py, helpers.py and the entries of __init__.py: how calls of services reach a switch, and
-- what is kept for each configured switch.
pub mod Calls
pub mod Isolation
pub mod Lifecycle
pub mod Balance
pub mod Entries
pub mod Running
pub mod Store
mod Tests
