-- ===== src/V5.antt =====
-- mqtt-core/src/v5: the packets of MQTT 5 and their codec.
pub mod Reasons
pub mod Properties
pub mod Types
pub mod Encode
pub mod Decode
pub mod RoundTrip
pub mod Fuel
