-- ===== src/Examples.antt =====
-- Concrete inputs for the theorems: the wire of mqtt-core and the broker of mqtt-broker.
mod Codec
mod Version
mod Access
mod Table
mod Database
mod Server
