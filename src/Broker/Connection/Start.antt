-- ===== src/Broker/Connection/Start.antt =====
-- How a connection of mqtt-broker/src/server.rs starts, by the version of its CONNECT.
use atom_mqtt.Prelude.{
  ℕ, ◌≤◌, ◌≡◌, refl, sym, subst, ◌∙◌, true, false, some, ◌∷◌, ◌++◌, length, drop-append, Bytes,
  str_eq_refl, [],
}
use atom_mqtt.Common
use atom_mqtt.Wire.Frame.{max_packet_size}
use atom_mqtt.V3.Types as Types3
use atom_mqtt.V3.Encode as Encode3
use atom_mqtt.V3.RoundTrip.Packets as Packets3
use atom_mqtt.V3.RoundTrip.Connect as Connect3
use atom_mqtt.V5.Types as Types5
use atom_mqtt.V5.Reasons as Reasons
use atom_mqtt.V5.Encode as Encode5
use atom_mqtt.V5.RoundTrip.Connect as Connect5
use atom_mqtt.Codec.{v311, v5, encode_any}
use atom_mqtt.Broker.Request.{Request, request_of, connack_of}
use atom_mqtt.Broker.Store.{DashMap}
use atom_mqtt.Broker.Auth.{success, authenticate}
use atom_mqtt.Broker.State.{BrokerState}
use atom_mqtt.Broker.Process.{is_empty}
use atom_mqtt.Broker.Connection.{
  Input, Phase, serving, failed, Result, count_sent, open_session, start_serving, first_bytes,
}
use atom_mqtt.Broker.Connection.Opened.{Opened, open_session-Opened}
use atom_mqtt.Broker.Connection.Accepted.{
  connect_v5-refused_by_v3, first_bytes-accepted, Opened-connections, request_v5, request_v3,
  first_v5, first_v3,
}

-- The CONNACK of a client that got in.
abbrev pub accepted_v5 : Bytes
accepted_v5 = Encode5.packet_bytes (
    Types5.connack
      (record { session_present = false; reason_code = Reasons.success; properties = [] }))

abbrev pub accepted_v3 : Bytes
accepted_v3 =
    Encode3.packet_bytes
      (Types3.connack (record { session_present = false; return_code = Types3.accepted }))

module _ (M : DashMap) where
  -- What a step came to: the phase, the bytes written, the sender that the client is connected by,
  -- and a session opened for it.
  pub record Started (i : Input) (client username : Bytes) (r : Request) (phase : Phase)
      (connack : Bytes) (s : BrokerState M) (after : Result M) : Type 0 where
    pub reached : after.0 ≡ phase
    pub answered : after.1 ≡ connack ∷ []
    pub sender : M.get after.2.connections client ≡ some i.tx
    pub opened : Opened M i.now client username r s after.2

  start_serving-Started :
      (i : Input) (client username buf connack : Bytes) (r : Request) (s : BrokerState M)
      (phase : Phase) (after : Result M)
      → let t = count_sent M connack (open_session M i.now client username r s) in
        after ≡ (phase, connack ∷ [], record t { connections = M.insert t.connections client i.tx })
        → Started i client username r phase connack s after
  start_serving-Started i client username buf connack r s phase after e =
      let t : BrokerState M = count_sent M connack (open_session M i.now client username r s) in
      let joined : M.Map ℕ = M.insert t.connections client i.tx in
      subst (Started i client username r phase connack s) (sym e) (record {
        reached = refl;
        answered = refl;
        sender = M.get-insert t.connections client client i.tx ∙ rw (str_eq_refl client) refl;
        opened =
            Opened-connections M i.now client username r s t joined
              (open_session-Opened M i.now client username connack r s);
      })

  -- A client of MQTT 5 whose CONNECT is accepted loses its connection at once: it is sent the
  -- CONNACK, and then the function returns an error without the cleanup. The client stays connected
  -- in the broker's state: its sender stands in the map of connections, its session is marked as
  -- connected, the clients counted as connected are one more, and the router is told nothing. The
  -- first read holds the CONNECT, whose fields fit and which has at most 10 MB and a client
  -- identifier; the client authenticates, and the write succeeds.
  pub connect_v5-abandoned :
      (i : Input) (c : Types5.ConnectPacket) (more username : Bytes) (s : BrokerState M)
      → Connect5.ConnectFits c
      → length (Encode5.packet_bytes (Types5.connect c)) ≤ max_packet_size
      → is_empty c.client_id ≡ false
      → authenticate s.authenticator s.allow_anonymous c.username c.password ≡ success username
      → i.writes ≡ true
      → Started i c.client_id username
          (request_v5 M i.now c)
          failed
          accepted_v5
          s
          (first_bytes M i (Encode5.packet_bytes (Types5.connect c) ++ more) s)
  unfolding start_serving encode_any Encode5.encode_packet connack_of request_of
  connect_v5-abandoned i c more username s fits small named known writes =
      let buf : Bytes = Encode5.packet_bytes (Types5.connect c) ++ more in
      start_serving-Started i c.client_id username buf accepted_v5 (request_v5 M i.now c) s failed _
        (first_bytes-accepted M i buf s (v5 (Types5.connect c)) (request_v5 M i.now c) username
            accepted_v5 (first_v5 M c more fits small) refl known named refl writes
          ∙ rw (connect_v5-refused_by_v3 c more small, start_serving) refl)

  -- A client of MQTT 3.1.1 whose CONNECT is accepted is sent a CONNACK without the session-present
  -- flag, gets a new session in place of an old one and is served from what follows its CONNECT,
  -- under the conditions above. With a clean session too, its subscriptions stay, and so does an
  -- older will where the CONNECT has none.
  pub connect_v3-serving :
      (i : Input) (c : Types3.ConnectPacket) (more username : Bytes) (s : BrokerState M)
      → Connect3.ConnectFits c
      → length (Encode3.packet_bytes (Types3.connect c)) ≤ max_packet_size
      → is_empty c.client_id ≡ false
      → authenticate s.authenticator s.allow_anonymous c.username c.password ≡ success username
      → i.writes ≡ true
      → Started i c.client_id username
          (request_v3 M i.now c)
          (serving (record {
            client_id = c.client_id;
            username = some username;
            version = Common.v311;
            clean_session = c.clean_session;
            buf = more;
          }))
          accepted_v3
          s
          (first_bytes M i (Encode3.packet_bytes (Types3.connect c) ++ more) s)
  unfolding start_serving encode_any Encode3.encode_packet connack_of request_of
  connect_v3-serving i c more username s fits small named known writes =
      let bytes : Bytes = Encode3.packet_bytes (Types3.connect c) in
      start_serving-Started i c.client_id username (bytes ++ more) accepted_v3
        (request_v3 M i.now c) s _ _
        (first_bytes-accepted M i (bytes ++ more) s (v311 (Types3.connect c)) (request_v3 M i.now c)
            username accepted_v3 (first_v3 M c more fits small) refl known named refl writes
          ∙ rw (Packets3.packet-Reads (Types3.connect c) more fits small, start_serving)
              (rw (drop-append bytes more) refl))
