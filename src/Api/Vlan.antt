-- ===== src/Api/Vlan.antt =====
-- The VLAN pages and forms of `TpLinkApi`.
pub mod Mtu
pub mod PortBased
pub mod Tagged
pub mod Pvid
