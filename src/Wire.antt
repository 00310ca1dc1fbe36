-- ===== src/Wire.antt =====
-- What the codecs of mqtt-core/src/v3 and mqtt-core/src/v5 do alike.
pub mod Read
pub mod Write
pub mod Frame
pub mod Fields
pub mod Flags
pub mod Fuel
pub mod Stream
pub mod Whole
