-- ===== src/Broker/Connection.antt =====
-- `handle_connection` of mqtt-broker/src/server.rs as a state machine: a connection waits for its
-- first bytes, serves packets, or has returned. One step takes what happens next: what `read_buf`
-- or the connection's own channel yields, and whether a write succeeds. The socket, the two arms of
-- `select!` and the clock are outside: each step is given what they come to.
pub mod First
pub mod Start
pub mod Accepted
pub mod Opened
pub mod Serving
pub mod Ending
pub mod Refused
use atom_mqtt.Prelude.{
  ℕ, ◌+◌, ◌%◌, ◌^◌, Bool, true, false, Option, none, some, List, [], ◌∷◌, ◌++◌, length, drop,
  if◌then◌else◌, Bytes, codes, MqttResult, ok, err,
}
use atom_mqtt.Common.{ProtocolVersion, qos_to_u8, level_byte}
use atom_mqtt.V3.Types as Types3
use atom_mqtt.V3.Decode as Decode3
use atom_mqtt.V5.Reasons as Reasons
use atom_mqtt.Wire.Read.{unwrap_or}
use atom_mqtt.Codec.{MqttPacket, encode_any}
use atom_mqtt.Broker.Store.{DashMap}
use atom_mqtt.Broker.Auth.{AuthErrorKind, success, denied, authenticate}
use atom_mqtt.Broker.Metrics.{
  increment_packets_sent, increment_bytes_sent, increment_packets_received,
  increment_clients_connected, decrement_clients_connected,
}
use atom_mqtt.Broker.State.{
  BrokerState, SessionState, WillMessage, send_event, send_message, count, save_session, save_will,
  client_disconnected,
}
use atom_mqtt.Broker.Process.{is_empty, mark_disconnected}
use atom_mqtt.Broker.ProcessV5.{process_packet}
use atom_mqtt.Broker.Request.{
  Request, request_of, decode_first_packet, decode_packet_by_version, connack_of, to_v3_return_code,
  to_v5_reason_code, anonymous_name,
}

-- `SessionState::new`
abbrev pub session_new : ℕ → Bytes → ProtocolVersion → Bool → ℕ → Option Bytes → SessionState
session_new now client_id version clean_session keep_alive username = record {
  client_id = client_id;
  protocol_version = version;
  clean_session = clean_session;
  keep_alive = keep_alive;
  connected = true;
  created_at = now;
  last_active = now;
  username = username;
}

-- What the main loop works on: `framed_buf` is `buf`.
pub record Conn : Type 0 where
  pub client_id : Bytes
  pub username : Option Bytes
  pub version : ProtocolVersion
  pub clean_session : Bool
  pub buf : Bytes

-- `finished` is `return Ok(())` and `failed` a return by `?`.
pub data Phase : Type 0 where
  reading : Phase
  serving : Conn → Phase
  finished failed : Phase

-- What a wait comes to: bytes read, none at the end of the stream; an error of the read; or data on
-- the connection's channel.
pub data Arrival : Type 0 where
  received : Bytes → Arrival
  read_failed : Arrival
  forwarded : Bytes → Arrival

-- The clock, the sender of a new channel, and whether what is written in this step is.
pub record Input : Type 0 where
  pub now : ℕ
  pub tx : ℕ
  pub writes : Bool
  pub arrival : Arrival

module _ (M : DashMap) where
  -- The phase, what was written to the socket, and the state after a step.
  abbrev pub Result : Type 0
  Result = Phase × List Bytes × BrokerState M

  unfoldable pub count_sent : Bytes → BrokerState M → BrokerState M
  unfolding count
  count_sent bytes s =
      count M (increment_bytes_sent (length bytes)) (count M increment_packets_sent s)

  -- `encode_packet(…)?`, the write, which may fail by `?`, and the two counters.
  unfoldable pub send_packet : Bool → MqttPacket → BrokerState M → Option Bytes × BrokerState M
  unfolding count_sent
  send_packet writes packet s = elim (encode_any packet) [
    | err e ↦ (none, s)
    | ok bytes ↦ if writes then (some bytes, count_sent bytes s) else (none, s)
  ]

  -- A client that failed to authenticate.
  unfoldable pub refuse : Input → Request → AuthErrorKind → BrokerState M → Result
  unfolding send_packet
  refuse i r reason s =
      let (sent, s') =
        send_packet i.writes
          (connack_of r.version (to_v3_return_code reason) (to_v5_reason_code reason)) s in
      elim sent [ none ↦ (failed, [], s') | some bytes ↦ (finished, bytes ∷ [], s') ]

  -- `generate_client_id` for a client without a name; `fetch_add` wraps.
  unfoldable pub name_client : Bytes → BrokerState M → Bytes × BrokerState M
  name_client client_id s =
      if is_empty client_id
      then (
        anonymous_name s.next_client_id,
        record s { next_client_id = (s.next_client_id + 1) % 2 ^ 64 },
      )
      else (client_id, s)

  -- `if let Some(mut will) = will_opt { … }`
  unfoldable pub store_will : Bytes → Option WillMessage → BrokerState M → BrokerState M
  unfolding send_event
  store_will client_id none s = s
  store_will client_id (some will) s =
      send_event M
        (save_will client_id will.topic will.payload (qos_to_u8 will.qos) will.retain
          will.delay_interval)
        (record s { wills = M.insert s.wills client_id (record will { client_id = client_id }) })

  -- From the check for an existing session to the event that saves the new one.
  unfoldable pub open_session : ℕ → Bytes → Bytes → Request → BrokerState M → BrokerState M
  unfolding send_event count store_will level_byte
  open_session now client_id username r s =
      let s₁ : BrokerState M = mark_disconnected M client_id s in
      let s₂ : BrokerState M = record s₁ {
        sessions =
            M.insert s₁.sessions client_id
              (session_new now client_id r.version r.clean_session r.keep_alive (some username));
      } in
      send_event M
        (save_session client_id (level_byte r.version) r.clean_session r.keep_alive (some username))
        (store_will client_id r.will (count M increment_clients_connected s₂))

  -- After the CONNACK: the sender of the connection's channel, and what follows the CONNECT, which
  -- is read once more with the codec of MQTT 3.1.1.
  unfoldable pub start_serving :
      Input → Bytes → Bytes → Request → Bytes → Bytes → BrokerState M → Result
  start_serving i client_id username r buf connack s =
      let s' : BrokerState M = record s { connections = M.insert s.connections client_id i.tx } in
      elim (Decode3.decode_packet buf) [
        | err e ↦ (failed, connack ∷ [], s')
        | ok none ↦ (failed, connack ∷ [], s')
        | ok (some (p, consumed)) ↦ (
          serving (record {
            client_id = client_id;
            username = some username;
            version = r.version;
            clean_session = r.clean_session;
            buf = drop consumed buf;
          }),
          connack ∷ [],
          s',
        )
      ]

  -- A client that has authenticated under a user name, by the client identifier that it has or got.
  unfoldable pub accept_as : Input → Request → Bytes → Bytes → Bytes → BrokerState M → Result
  unfolding open_session send_packet start_serving
  accept_as i r username buf client_id s =
      let (sent, s') =
        send_packet i.writes (connack_of r.version Types3.accepted Reasons.success)
          (open_session i.now client_id username r s) in
      elim sent [
        | none ↦ (failed, [], s')
        | some connack ↦ start_serving i client_id username r buf connack s'
      ]

  unfoldable pub accept : Input → Request → Bytes → Bytes → BrokerState M → Result
  unfolding name_client accept_as
  accept i r username buf s =
      let (client_id, s') = name_client r.client_id s in accept_as i r username buf client_id s'

  -- A first packet that is a CONNECT.
  unfoldable pub connect_with : Input → Request → Bytes → BrokerState M → Result
  unfolding refuse accept
  connect_with i r buf s =
      elim (authenticate s.authenticator s.allow_anonymous r.username r.password) [
        | denied reason ↦ refuse i r reason s
        | success username ↦ accept i r username buf s
      ]

  -- The bytes of the first read.
  unfoldable pub first_bytes : Input → Bytes → BrokerState M → Result
  unfolding connect_with decode_first_packet request_of
  first_bytes i buf s = elim (decode_first_packet buf) [
    | err e ↦ (failed, [], s)
    | ok none ↦ (finished, [], s)
    | ok (some packet) ↦ elim (request_of i.now packet) [
      | none ↦ (finished, [], s)
      | some r ↦ connect_with i r buf s
    ]
  ]

  -- "Cleanup on disconnect"
  unfoldable pub end_connection : Conn → BrokerState M → BrokerState M
  unfolding count send_message
  end_connection c s = send_message M (client_disconnected c.client_id c.clean_session) (
      mark_disconnected M c.client_id (
        count M decrement_clients_connected
          (record s { connections = M.remove s.connections c.client_id })))

  -- "Send response if any": the phase that follows is given.
  unfoldable pub write_answer : Input → Phase → Option MqttPacket → BrokerState M → Result
  unfolding send_packet
  write_answer i next none s = (next, [], s)
  write_answer i next (some response) s =
      let (sent, s') = send_packet i.writes response s in
      elim sent [ none ↦ (failed, [], s') | some bytes ↦ (next, bytes ∷ [], s') ]

  -- A packet decoded in the loop, with its size.
  unfoldable pub serve : Input → Conn → MqttPacket → ℕ → BrokerState M → Result
  unfolding count write_answer
  serve i c packet size s =
      let (answer, s') =
        process_packet M i.now packet c.client_id (unwrap_or c.username (codes "anonymous"))
          (count M increment_packets_received s) in
      write_answer i (serving (record c { buf = drop size c.buf })) answer s'

  -- The wait of the loop when more bytes are needed.
  unfoldable pub wait : Input → Conn → Arrival → BrokerState M → Result
  unfolding end_connection count_sent
  wait i c (received []) s = (finished, [], end_connection c s)
  wait i c (received (b ∷ more)) s = (serving (record c { buf = c.buf ++ (b ∷ more) }), [], s)
  wait i c read_failed s = (failed, [], s)
  wait i c (forwarded bytes) s =
      if i.writes
      then (serving c, bytes ∷ [], count_sent bytes s)
      else (finished, [], end_connection c s)

  -- One pass of the loop.
  unfoldable pub turn : Input → Conn → BrokerState M → Result
  unfolding serve wait end_connection decode_packet_by_version
  turn i c s = elim (decode_packet_by_version c.buf c.version) [
    | err e ↦ (finished, [], end_connection c s)
    | ok none ↦ wait i c i.arrival s
    | ok (some (packet, size)) ↦ serve i c packet size s
  ]

  -- Nothing is forwarded before the connection has its channel.
  unfoldable pub first_arrival : Input → Arrival → BrokerState M → Result
  unfolding first_bytes
  first_arrival i (received []) s = (finished, [], s)
  first_arrival i (received (b ∷ buf)) s = first_bytes i (b ∷ buf) s
  first_arrival i read_failed s = (failed, [], s)
  first_arrival i (forwarded bytes) s = (reading, [], s)

  unfoldable pub step : Input → Phase → BrokerState M → Result
  unfolding first_arrival turn
  step i reading s = first_arrival i i.arrival s
  step i (serving c) s = turn i c s
  step i finished s = (finished, [], s)
  step i failed s = (failed, [], s)
