-- ===== src/V5/RoundTrip.antt =====
-- Encoding and then decoding the packets of mqtt-core/src/v5.
pub mod Fields
pub mod Connect
pub mod Bodies
pub mod Packets
