-- ===== src/Broker/Request.antt =====
-- What `handle_connection` of mqtt-broker/src/server.rs does to a CONNECT before it touches the
-- broker's state: `decode_first_packet`, and the request in the packet; also
-- `decode_packet_by_version`, the codes for a refused client (auth.rs) and the names for clients
-- without one (lib.rs).
use atom_mqtt.Prelude.{
  ℕ, zero, suc, ◌+◌, ◌%◌, ◌/◌, ◌==◌, Bool, false, Option, none, some, [], ◌∷◌, ◌++◌, length, drop,
  ltb, if◌then◌else◌, Bytes, codes, MqttResult, ok, err, ◌>>=◌, invalid, unsupported_version,
}
use atom_mqtt.Common.{ProtocolVersion, qos_to_u8}
use atom_mqtt.Common
use atom_mqtt.Common.Length.{decode_remaining_length}
use atom_mqtt.V3.Types as Types3
use atom_mqtt.V3.Types.{ConnectReturnCode}
use atom_mqtt.V3.Decode as Decode3
use atom_mqtt.V5.Types as Types5
use atom_mqtt.V5.Reasons.{ReasonCode}
use atom_mqtt.V5.Reasons
use atom_mqtt.V5.Decode as Decode5
use atom_mqtt.Codec.{MqttPacket, v311, v5, whole_connect}
use atom_mqtt.Broker.Auth.{
  AuthErrorKind, bad_username_or_password, anonymous_disallowed, not_authorized,
}
use atom_mqtt.Broker.State.{WillMessage}

-- `to_v3_return_code` of auth.rs
unfoldable pub to_v3_return_code : AuthErrorKind → ConnectReturnCode
to_v3_return_code bad_username_or_password = Types3.bad_username_or_password
to_v3_return_code anonymous_disallowed = Types3.not_authorized
to_v3_return_code not_authorized = Types3.not_authorized

-- `to_v5_reason_code` of auth.rs
unfoldable pub to_v5_reason_code : AuthErrorKind → ReasonCode
to_v5_reason_code bad_username_or_password = Reasons.bad_user_name_or_password
to_v5_reason_code anonymous_disallowed = Reasons.not_authorized
to_v5_reason_code not_authorized = Reasons.not_authorized

-- `decode_first_packet` from the protocol level on, of data that has eight bytes.
unfoldable pub first_level : Bytes → MqttResult ℕ
first_level (a ∷ b ∷ c ∷ d ∷ e ∷ f ∷ level ∷ g ∷ rest) = ok level
first_level _ = invalid "CONNECT packet too short"

-- `match protocol_level` in it
unfoldable pub first_at : ℕ → Bytes → MqttResult (Option MqttPacket)
unfolding whole_connect
first_at protocol_level buf =
    if protocol_level == 4
    then whole_connect (Decode3.decode_packet buf) (invalid "Failed to decode CONNECT") v311
    else if protocol_level == 5
    then whole_connect (Decode5.decode_packet buf) (invalid "Failed to decode CONNECT") v5
    else err (unsupported_version protocol_level)

-- `decode_first_packet`
unfoldable pub decode_first_packet : Bytes → MqttResult (Option MqttPacket)
unfolding first_level first_at
decode_first_packet [] = ok none
decode_first_packet (header ∷ tail) = if ltb (suc (length tail)) 2 then ok none else do
  (remaining_len, len_bytes) ← decode_remaining_length tail
  if ltb (suc (length tail)) (1 + len_bytes + remaining_len)
      then ok none
      else (do level ← first_level (drop len_bytes tail); first_at level (header ∷ tail))

-- `.map(|opt| opt.map(|(p, s)| (…, s)))`
unfoldable pub sized {ℓ} :
    {P : Type ℓ}
    → (P → MqttPacket)
    → MqttResult (Option (P × ℕ))
    → MqttResult (Option (MqttPacket × ℕ))
sized packet_of (ok (some (p, size))) = ok (some (packet_of p, size))
sized packet_of (ok none) = ok none
sized packet_of (err e) = err e

-- `decode_packet_by_version`
unfoldable pub decode_packet_by_version :
    Bytes → ProtocolVersion → MqttResult (Option (MqttPacket × ℕ))
unfolding sized
decode_packet_by_version [] version = ok none
decode_packet_by_version (b ∷ buf) Common.v311 = sized v311 (Decode3.decode_packet (b ∷ buf))
decode_packet_by_version (b ∷ buf) Common.v5 = sized v5 (Decode5.decode_packet (b ∷ buf))

-- What a CONNECT of either version asks for.
pub record Request : Type 0 where
  pub client_id : Bytes
  pub version : ProtocolVersion
  pub keep_alive : ℕ
  pub clean_session : Bool
  pub username : Option Bytes
  pub password : Option Bytes
  pub will : Option WillMessage

-- `connect.will.as_ref().map(…)` for MQTT 3.1.1
unfoldable pub will_of_v3 : ℕ → Option Types3.Will → Option WillMessage
will_of_v3 now none = none
will_of_v3 now (some w) = some (record {
  client_id = [];
  topic = w.topic;
  payload = w.message;
  qos = w.qos;
  retain = w.retain;
  delay_interval = 0;
  created_at = now;
})

-- And for MQTT 5.
unfoldable pub will_of_v5 : ℕ → Option Types5.Will → Option WillMessage
will_of_v5 now none = none
will_of_v5 now (some w) = some (record {
  client_id = [];
  topic = w.topic;
  payload = w.payload;
  qos = w.qos;
  retain = w.retain;
  delay_interval = w.delay_interval;
  created_at = now;
})

-- `match packet { … }`: nothing for a first packet that is not a CONNECT.
unfoldable pub request_of : ℕ → MqttPacket → Option Request
unfolding will_of_v3 will_of_v5
request_of now (v311 (Types3.connect c)) = some (record {
  client_id = c.client_id;
  version = Common.v311;
  keep_alive = c.keep_alive;
  clean_session = c.clean_session;
  username = c.username;
  password = c.password;
  will = will_of_v3 now c.will;
})
request_of now (v5 (Types5.connect c)) = some (record {
  client_id = c.client_id;
  version = Common.v5;
  keep_alive = c.keep_alive;
  clean_session = c.clean_start;
  username = c.username;
  password = c.password;
  will = will_of_v5 now c.will;
})
request_of now _ = none

-- A CONNACK of either version.
unfoldable pub connack_of : ProtocolVersion → ConnectReturnCode → ReasonCode → MqttPacket
connack_of Common.v311 code reason =
    v311 (Types3.connack (record { session_present = false; return_code = code }))
connack_of Common.v5 code reason =
    v5 (Types5.connack (record { session_present = false; reason_code = reason; properties = [] }))

-- The decimal digits that `format!` writes, on fuel.
decimal : ℕ → ℕ → Bytes
decimal zero n = []
decimal (suc fuel) n =
    let before = decimal fuel (n / 10) in
    if ltb n 10 then (n + 48) ∷ [] else before ++ (n % 10 + 48) ∷ []

-- `format!("anonymous_{}", id)`; the digits of a 64-bit number are at most 20.
unfoldable pub anonymous_name : ℕ → Bytes
unfolding decimal
anonymous_name id = codes "anonymous_" ++ decimal 20 id
