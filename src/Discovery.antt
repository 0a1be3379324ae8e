-- ===== src/Discovery.antt =====
-- client/discovery.py: the cipher and the packets of the discovery protocol. Bytes are numbers. The
-- socket, its queue and the loop that collects answers are not modelled.
pub mod Cipher
pub mod Packet
mod Tests
