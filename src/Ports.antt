-- ===== src/Ports.antt =====
-- The port helpers of client/tplink_api.py: `_decode_port_mask`, `_encode_port_mask`,
-- `_unique_ports`, `_validate_ports`, `_expand_trunk_ports` and `_ports_for_trunk`.
-- A port number that has passed validation is a natural number; before that it is any integer.
pub mod Mask
pub mod Validate
pub mod Trunk
mod Tests
