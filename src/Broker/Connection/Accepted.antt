-- ===== src/Broker/Connection/Accepted.antt =====
-- What becomes of a client that authenticates in mqtt-broker/src/server.rs.
use atom_mqtt.Prelude.{
  ℕ, ◌≤◌, ◌≡◌, refl, ap, ◌∙◌, true, false, some, ◌++◌, length, Bytes, codes, ok, err, ◌>>=◌,
  unsupported_version,
}
use atom_mqtt.Common
use atom_mqtt.Wire.Fields.{read-encode_string}
use atom_mqtt.Wire.Frame.{max_packet_size}
use atom_mqtt.Wire.Write.{frame}
use atom_mqtt.Wire.Whole.{decode_packet-frame}
use atom_mqtt.V3.Types as Types3
use atom_mqtt.V3.Encode as Encode3
use atom_mqtt.V3.Decode as Decode3
use atom_mqtt.V3.RoundTrip.Packets as Packets3
use atom_mqtt.V3.RoundTrip.Connect as Connect3
use atom_mqtt.V5.Types as Types5
use atom_mqtt.V5.Reasons as Reasons
use atom_mqtt.V5.Encode as Encode5
use atom_mqtt.V5.RoundTrip.Packets as Packets5
use atom_mqtt.V5.RoundTrip.Connect as Connect5
use atom_mqtt.Codec.{MqttPacket, v311, v5, encode_any, whole_connect}
use atom_mqtt.Broker.Request.{
  Request, request_of, decode_first_packet, first_level, first_at, connack_of, will_of_v3,
  will_of_v5,
}
use atom_mqtt.Broker.Store.{DashMap}
use atom_mqtt.Broker.Auth.{success, authenticate}
use atom_mqtt.Broker.State.{BrokerState}
use atom_mqtt.Broker.Process.{is_empty}
use atom_mqtt.Broker.Connection.{
  Input, count_sent, name_client, open_session, start_serving, accept_as, accept, connect_with,
  first_bytes,
}
use atom_mqtt.Broker.Connection.First.{decode_first_packet-frame, send_packet-sent}
use atom_mqtt.Broker.Connection.Opened.{Opened}

-- The codec of MQTT 3.1.1 refuses a CONNECT of MQTT 5 for its version.
pub connect_v5-refused_by_v3 :
    (c : Types5.ConnectPacket) (more : Bytes)
    → length (Encode5.packet_bytes (Types5.connect c)) ≤ max_packet_size
    → Decode3.decode_packet (Encode5.packet_bytes (Types5.connect c) ++ more)
      ≡ err (unsupported_version 5)
unfolding Encode5.packet_bytes
connect_v5-refused_by_v3 c more small =
    decode_packet-frame Decode3.decode_body Common.connect 16 (Encode5.connect_remaining c) more
      (unfold Common.packet_type_from_u8 in refl) small
    ∙ ap (λ r. r >>= λ packet. ok (some (packet, length (frame 16 (Encode5.connect_remaining c)))))
        refused
  where
    refused :
        Decode3.decode_body Common.connect 16 (Encode5.connect_remaining c)
        ≡ err (unsupported_version 5)
    refused =
        unfold Decode3.decode_body Decode3.decode_connect in
        rw (Connect5.connect_remaining_name c)
          (rw (read-encode_string (codes "MQTT") (Connect5.after_name c) Connect5.name-Fits) refl)

module _ (M : DashMap) where
  accept_as-sent :
      (i : Input) (r : Request) (username buf client connack : Bytes) (s : BrokerState M)
      → encode_any (connack_of r.version Types3.accepted Reasons.success) ≡ ok connack
      → i.writes ≡ true
      → accept_as M i r username buf client s
        ≡ start_serving M i client username r buf connack
            (count_sent M connack (open_session M i.now client username r s))
  accept_as-sent i r username buf client connack s encoded writes =
      let sent =
        send_packet-sent M i.writes (connack_of r.version Types3.accepted Reasons.success) connack
          (open_session M i.now client username r s) encoded writes in
      unfold accept_as in rw (sent, accept_as) (rw sent refl)

  keeps_name :
      (client : Bytes) (s : BrokerState M)
      → is_empty client ≡ false
      → name_client M client s ≡ (client, s)
  unfolding name_client
  keeps_name client s named = rw (named, name_client) refl

  -- A client with a name, when the CONNACK is written.
  accept_named :
      (i : Input) (r : Request) (username buf connack : Bytes) (s : BrokerState M)
      → is_empty r.client_id ≡ false
      → encode_any (connack_of r.version Types3.accepted Reasons.success) ≡ ok connack
      → i.writes ≡ true
      → accept M i r username buf s
        ≡ start_serving M i r.client_id username r buf connack
            (count_sent M connack (open_session M i.now r.client_id username r s))
  unfolding accept
  accept_named i r username buf connack s named encoded writes =
      ap (λ (n : Bytes × BrokerState M). accept_as M i r username buf n.0 n.1)
        (keeps_name r.client_id s named)
      ∙ accept_as-sent i r username buf r.client_id connack s encoded writes

  pub first_bytes-accepted :
      (i : Input) (buf : Bytes) (s : BrokerState M) (packet : MqttPacket) (r : Request)
      (username connack : Bytes)
      → decode_first_packet buf ≡ ok (some packet)
      → request_of i.now packet ≡ some r
      → authenticate s.authenticator s.allow_anonymous r.username r.password ≡ success username
      → is_empty r.client_id ≡ false
      → encode_any (connack_of r.version Types3.accepted Reasons.success) ≡ ok connack
      → i.writes ≡ true
      → first_bytes M i buf s
        ≡ start_serving M i r.client_id username r buf connack
            (count_sent M connack (open_session M i.now r.client_id username r s))
  unfolding first_bytes connect_with
  first_bytes-accepted i buf s packet r username connack read asked known named encoded writes =
      rw (read, first_bytes)
        (rw asked
          (rw (known, connect_with) (accept_named i r username buf connack s named encoded writes)))

  -- The session and the counter of a state do not depend on its connections.
  pub Opened-connections :
      (now : ℕ) (client username : Bytes) (r : Request) (s t : BrokerState M) (m : M.Map ℕ)
      → Opened M now client username r s t
      → Opened M now client username r s (record t { connections = m })
  Opened-connections now client username r s t m o = record {
    session = o.session;
    counted = o.counted;
    queue = o.queue;
    will = o.will;
    tree = o.tree;
    active = o.active;
  }

  -- What a CONNECT of MQTT 5 asks for, and one of MQTT 3.1.1.
  abbrev pub request_v5 : ℕ → Types5.ConnectPacket → Request
  request_v5 now c = record {
    client_id = c.client_id;
    version = Common.v5;
    keep_alive = c.keep_alive;
    clean_session = c.clean_start;
    username = c.username;
    password = c.password;
    will = will_of_v5 now c.will;
  }

  abbrev pub request_v3 : ℕ → Types3.ConnectPacket → Request
  request_v3 now c = record {
    client_id = c.client_id;
    version = Common.v311;
    keep_alive = c.keep_alive;
    clean_session = c.clean_session;
    username = c.username;
    password = c.password;
    will = will_of_v3 now c.will;
  }

  pub first_v5 :
      (c : Types5.ConnectPacket) (more : Bytes)
      → Connect5.ConnectFits c
      → length (Encode5.packet_bytes (Types5.connect c)) ≤ max_packet_size
      → decode_first_packet (Encode5.packet_bytes (Types5.connect c) ++ more)
        ≡ ok (some (v5 (Types5.connect c)))
  unfolding Encode5.packet_bytes first_at first_level whole_connect Encode5.connect_remaining
  first_v5 c more fits small =
      decode_first_packet-frame 5 (Encode5.connect_remaining c) more small refl
      ∙ rw (Packets5.packet-Reads (Types5.connect c) more fits small) refl

  pub first_v3 :
      (c : Types3.ConnectPacket) (more : Bytes)
      → Connect3.ConnectFits c
      → length (Encode3.packet_bytes (Types3.connect c)) ≤ max_packet_size
      → decode_first_packet (Encode3.packet_bytes (Types3.connect c) ++ more)
        ≡ ok (some (v311 (Types3.connect c)))
  unfolding Encode3.packet_bytes first_at first_level whole_connect Encode3.connect_remaining
  first_v3 c more fits small =
      decode_first_packet-frame 4 (Encode3.connect_remaining c) more small refl
      ∙ rw (Packets3.packet-Reads (Types3.connect c) more fits small) refl
