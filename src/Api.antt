-- ===== src/Api.antt =====
-- client/tplink_api.py: what `TpLinkApi` reads from the switch's pages and writes to its forms.
pub mod Query
pub mod Apply
pub mod Fields
pub mod Lag
pub mod Vlan
pub mod Limits
pub mod Mirror
pub mod Settings
pub mod Device
pub mod Cable
pub mod Features
pub mod Poe
pub mod Trace
mod Tests
