-- ===== src/V3/RoundTrip.antt =====
-- Every packet of mqtt-core/src/v3 read back from what `encode_packet` writes.
pub mod Fields
pub mod Bodies
pub mod Connect
pub mod Packets
