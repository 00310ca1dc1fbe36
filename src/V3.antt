-- ===== src/V3.antt =====
-- mqtt-core/src/v3: the packets of MQTT 3.1.1 and their codec.
pub mod Types
pub mod Encode
pub mod Decode
pub mod RoundTrip
pub mod Fuel
