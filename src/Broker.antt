-- ===== src/Broker.antt =====
-- mqtt-broker: the broker engine.
pub mod Auth
pub mod Acl
pub mod Subscription
pub mod Store
pub mod Metrics
pub mod State
pub mod Process
pub mod ProcessV5
pub mod Router
pub mod Sql
pub mod Persistence
pub mod Request
pub mod Connection
pub mod Invariant
