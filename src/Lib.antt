-- ===== src/Lib.antt =====
-- AtomMQTT: an MQTT broker, with a codec library, a web interface and a client.
--
-- The parts and how they meet. mqtt-core reads and writes packets. In mqtt-broker/src/server.rs a
-- connection decodes packets and gives each to `process_packet`, which answers it, changes the
-- shared `BrokerState` and queues messages for the router. The router takes the messages one by
-- one: it looks up the subscribers of a topic, sends to their connections, keeps retained messages
-- and clears up after a connection. Access rules (auth.rs) are asked on the way.
--
-- Which file models what:
--   Prelude            Boolean tests, lists, bytes, `MqttError` and results, bits, searches
--   Common             mqtt-core/src/common.rs: `QoS`, `PacketType`
--   Common/Utf8        `str::from_utf8`, as the strings of the protocol use it
--   Common/Strings     `encode_string`, `decode_string`
--   Common/Length      `encode_remaining_length`, `decode_remaining_length`
--   Common/Split       `str::split`, `splitn`, `lines` and `trim` on bytes
--   Common/Levels      the broker's matching of levels as a relation, and as a test
--   Common/Topic       `TopicFilter`, `TopicName`
--   Wire               what the codecs of both versions share: `decode_packet` without the bodies,
--                      fields, flags, and proofs on whole packets and on a buffer that fills up
--   V3                 mqtt-core/src/v3: `Types` (types.rs), `Encode` and `Decode` (codec.rs);
--                      `RoundTrip` has the proofs on one after the other, `Fuel` those on loops
--   V5                 mqtt-core/src/v5, laid out like V3, with `Reasons` (types.rs), `Properties`
--                      (properties.rs) and its `Ids`
--   Codec              mqtt-core/src/codec.rs: `MqttPacket`, `MqttCodec`, `MqttFramedCodec`
--   Broker/Auth        `Authenticator` of mqtt-broker/src/auth.rs, with the lines of its file
--   Broker/Acl         `AclChecker` of mqtt-broker/src/auth.rs
--   Broker/Subscription  mqtt-broker/src/subscription.rs; its children relate the tree to a
--                      table of who has subscribed to what
--   Broker/Store       what is relied on of the `dashmap` crate, as an interface with laws
--   Broker/Metrics     mqtt-broker/src/metrics.rs
--   Broker/State       `BrokerState` and its records (lib.rs, session.rs, will.rs, retention.rs)
--   Broker/Process     `process_v3_packet` of mqtt-broker/src/server.rs
--   Broker/ProcessV5   `process_v5_packet` and `process_packet` of the same file
--   Broker/Request     `decode_first_packet`, `decode_packet_by_version` and the request in a CONNECT
--   Broker/Connection  `handle_connection` as a state machine, a step for each thing that happens
--   Broker/Router      the background router of `start_broker` in mqtt-broker/src/server.rs
--   Broker/Invariant   steps of connections and messages of the router in any order
--   Broker/Sql         what is relied on of SQLite and the `rusqlite` crate, as an interface with laws
--   Broker/Persistence  mqtt-broker/src/persistence.rs: tables, events, the writer, the loading
--   Examples           concrete inputs
--
-- How. Text and byte vectors are lists of numbers. A `String` is the list of its UTF-8 bytes, and
-- `split`, `trim` and `lines` work on those. The mutable position of a decoder is the list of the
-- bytes that are left. A state function takes the state and returns it. A send on a channel is an
-- entry in a log of the state, in the order of the calls, and a persistence event likewise. A
-- channel's receiver and the clock are outside. The counters of the metrics wrap at 64 bits.
--
-- One handler, one message of the router and one pass of a connection's loop are each one step, which
-- nothing interrupts. That is an abstraction: the code takes a lock for each access only, and on
-- several threads, or at the write of a CONNACK, other tasks can run between two accesses of a
-- handler. Such interleavings, as of a send to the router before the retained message is removed, are
-- not in the model.
--
-- `Matches` in Common/Levels is how the broker matches: MQTT's rules, but for topics that begin with
-- `$`, which are not set apart, and for a `#` before the last level, which is not refused.
--
-- Bounds and fuel. `encode_loop` has fuel `length + 1`, and each round divides by 128.
-- `filter_loop` has one unit of fuel for each segment of the filter. `read_filters` and
-- `read_strings` have one for each byte of the payload, and each round takes at least two bytes.
-- `read_properties` has one for each byte that belongs to the properties, and each round takes one.
--
-- `decimal` has 20 rounds, the digits of a 64-bit number.
--
-- A connection. Each step is given the clock, what `read_buf` or the connection's channel yields,
-- whether a write succeeds, and the sender of a new channel. Steps of different connections and of
-- the router may come in any order; each step is one pass of the loop.
--
-- Persistence. The times in the tables are left out, since no start reads them. The writer runs on
-- the list of what its channel yields; what the database answers to a flush is a parameter.
--
-- Not modelled: opening the database, the configuration file, mqtt-web with the restore at a start,
-- mqtt-client, and sockets, tasks and logs. A web message keeps the payload's bytes where the code
-- writes them as text. A CONNACK is written whole or not at all.
pub mod Prelude
pub mod Common
pub mod Wire
pub mod V3
pub mod V5
pub mod Codec
pub mod Broker
pub mod Examples
