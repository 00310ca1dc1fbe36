-- ===== src/V5/Decode.antt =====
-- The decoders of mqtt-core/src/v5/codec.rs.
use atom_mqtt.Prelude.{
  ℕ, zero, suc, ◌/◌, ◌%◌, Bool, true, false, not, Option, none, some, List, [], ◌∷◌, length, drop,
  ◌==◌, if◌then◌else◌, Bytes, MqttResult, ok, err, ok_or, invalid, ◌>>=◌, invalid_packet, text,
  unknown_reason_code, unknown_auth_reason_code, unsupported_version,
}
use atom_mqtt.Common.{Qos, at_most_once, qos_from_u8, qos_eq, PacketType}
use atom_mqtt.Common
use atom_mqtt.Common.Strings.{be16}
use atom_mqtt.Wire.Frame
use atom_mqtt.Wire.Read.{
  has_flag, read_string, read_u16, read_byte, read_binary, read_optional, unwrap_or, read_strings,
}
use atom_mqtt.V5.Reasons.{ReasonCode, success, reason_code_from_u8}
use atom_mqtt.V5.Properties.{Properties, decode_properties, get_will_delay_interval}
use atom_mqtt.V5.Types.{
  Will, ConnectPacket, ConnAckPacket, PublishPacket, AckPacket, send, retain_handling_from_u8,
  SubscribeFilter, SubscribePacket, CodesPacket, UnsubscribePacket, ReasonPacket, MqttPacketV5,
  connect, connack, publish, puback, pubrec, pubrel, pubcomp, subscribe, suback, unsubscribe,
  unsuback, pingreq, pingresp, disconnect, auth,
}

-- `let (properties, consumed) = Properties::decode(&data[pos..])?; pos += consumed;`
unfoldable pub read_props : Bytes → MqttResult (Properties × Bytes)
read_props data_ = do (props, consumed) ← decode_properties data_; ok (props, drop consumed data_)

unfoldable pub read_payload : Bytes → MqttResult (Bytes × Bytes)
unfolding read_binary
read_payload =
    read_binary (invalid "Missing will payload length") (invalid "Will payload truncated")

unfoldable pub read_will : Bool → Qos → Bool → Bytes → MqttResult (Option Will × Bytes)
unfolding read_props read_payload
read_will false qos retain data_ = ok (none, data_)
read_will true qos retain data_ = do
  (will_props, after_props) ← read_props data_
  (topic, rest) ← read_string after_props
  (payload, rest') ← read_payload rest
  ok (
    some (record {
      topic = topic;
      payload = payload;
      qos = qos;
      retain = retain;
      properties = will_props;
      delay_interval = unwrap_or (get_will_delay_interval will_props) 0;
    }),
    rest',
  )

-- From the client identifier on.
unfoldable pub connect_payload : ℕ → ℕ → Properties → Bytes → MqttResult ConnectPacket
unfolding read_will read_optional unwrap_or qos_from_u8
connect_payload connect_flags keep_alive properties data_ = do
  (client_id, after_id) ← read_string data_
  (will, after_will) ←
      read_will (has_flag connect_flags 0x04)
        (unwrap_or (qos_from_u8 (connect_flags / 8 % 4)) at_most_once) (has_flag connect_flags 0x20)
        after_id
  (username, after_username) ← read_optional (has_flag connect_flags 0x80) after_will
  (password, after_password) ← read_optional (has_flag connect_flags 0x40) after_username
  ok (record {
    client_id = client_id;
    clean_start = has_flag connect_flags 0x02;
    keep_alive = keep_alive;
    properties = properties;
    will = will;
    username = username;
    password = password;
  })

unfoldable pub decode_connect : Bytes → MqttResult ConnectPacket
unfolding connect_payload read_byte read_u16
decode_connect data_ = do
  (protocol_name, after_name) ← read_string data_
  (protocol_level, after_level) ← read_byte (invalid "Missing protocol level") after_name
  if not (protocol_level == 5) then err (unsupported_version protocol_level) else do
    (connect_flags, after_flags) ← read_byte (invalid "Missing connect flags") after_level
    (keep_alive, after_keep) ← read_u16 (invalid "Missing keep alive") after_flags
    (properties, rest) ← read_props after_keep
    connect_payload connect_flags keep_alive properties rest

unfoldable pub decode_connack : Bytes → MqttResult ConnAckPacket
decode_connack [] = invalid "CONNACK too short"
decode_connack (flags ∷ []) = invalid "CONNACK missing reason code"
decode_connack (flags ∷ code ∷ rest) = do
  reason_code ← ok_or (reason_code_from_u8 code) (invalid_packet (unknown_reason_code code))
  (properties, consumed) ← decode_properties rest
  ok (record {
    session_present = has_flag flags 0x01;
    reason_code = reason_code;
    properties = properties;
  })

unfoldable pub read_id : Qos → Bytes → MqttResult (Option ℕ × Bytes)
unfolding read_u16 qos_eq
read_id qos data_ =
    if not (qos_eq qos at_most_once)
    then (do
      (pid, rest) ← read_u16 (invalid "Missing packet ID in PUBLISH") data_
      ok (some pid, rest))
    else ok (none, data_)

unfoldable pub decode_publish : Bytes → ℕ → MqttResult PublishPacket
unfolding read_id qos_from_u8
decode_publish data_ fixed_header = do
  qos ← ok_or (qos_from_u8 (fixed_header / 2 % 4)) (invalid_packet (text "Invalid QoS"))
  (topic, after_topic) ← read_string data_
  (properties, rest) ← read_props after_topic
  (packet_id, payload) ← read_id qos rest
  ok (record {
    topic = topic;
    payload = payload;
    qos = qos;
    retain = has_flag fixed_header 0x01;
    packet_id = packet_id;
    properties = properties;
  })

-- `if data.len() > n { Properties::decode(&data[n..])? } else { (Properties::new(), 0) }`
unfoldable pub optional_props : Bytes → MqttResult (Properties × ℕ)
optional_props [] = ok ([], 0)
optional_props (b ∷ data_) = decode_properties (b ∷ data_)

-- The reason code is a success where it is left out or not known.
unfoldable pub read_reason : Bytes → ReasonCode × Bytes
unfolding unwrap_or
read_reason [] = (success, [])
read_reason (code ∷ rest) = (unwrap_or (reason_code_from_u8 code) success, rest)

-- `decode_puback`, `decode_pubrec`, `decode_pubrel` and `decode_pubcomp` differ in the text of the
-- error.
unfoldable pub decode_ack : MqttResult AckPacket → Bytes → MqttResult AckPacket
unfolding optional_props read_reason
decode_ack short (hi ∷ lo ∷ rest) =
    let (reason_code, after_code) = read_reason rest in
    (do
      (properties, consumed) ← optional_props after_code
      ok (record { packet_id = be16 hi lo; reason_code = reason_code; properties = properties }))
decode_ack short _ = short

-- The options byte of a filter.
unfoldable pub filter_of : Bytes → Qos → ℕ → SubscribeFilter
unfolding unwrap_or retain_handling_from_u8
filter_of path qos options = record {
  path = path;
  qos = qos;
  no_local = has_flag options 0x04;
  retain_as_published = has_flag options 0x08;
  retain_handling = unwrap_or (retain_handling_from_u8 (options / 16 % 4)) send;
}

-- The `while` loop on fuel. Each round takes a byte at least, so the length is fuel enough.
unfoldable pub read_filters : ℕ → Bytes → MqttResult (List SubscribeFilter)
unfolding read_byte qos_from_u8
read_filters fuel [] = ok []
read_filters zero (b ∷ data_) = ok []
read_filters (suc fuel) (b ∷ data_) = do
  (topic, rest) ← read_string (b ∷ data_)
  (options, rest') ← read_byte (invalid "Missing subscription options") rest
  qos ← ok_or (qos_from_u8 (options % 4)) (invalid_packet (text "Invalid QoS in SUBSCRIBE"))
  filters ← read_filters fuel rest'
  ok (filter_of topic qos options ∷ filters)

unfoldable pub decode_subscribe : Bytes → MqttResult SubscribePacket
unfolding read_u16
decode_subscribe data_ = do
  (packet_id, after_id) ← read_u16 (invalid "SUBSCRIBE too short") data_
  (properties, rest) ← read_props after_id
  filters ← read_filters (length rest) rest
  ok (record { packet_id = packet_id; filters = filters; properties = properties })

-- `filter_map(|&b| ReasonCode::from_u8(b))`
unfoldable pub known_codes : Bytes → List ReasonCode
known_codes [] = []
known_codes (b ∷ rest) = elim (reason_code_from_u8 b) [
  | none ↦ known_codes rest
  | some c ↦ c ∷ known_codes rest
]

-- `decode_suback` and `decode_unsuback` differ in the text of the error.
unfoldable pub decode_codes : MqttResult (ℕ × Bytes) → Bytes → MqttResult CodesPacket
unfolding read_u16
decode_codes short data_ = do
  (packet_id, after_id) ← read_u16 short data_
  (properties, rest) ← read_props after_id
  ok (record { packet_id = packet_id; reason_codes = known_codes rest; properties = properties })

unfoldable pub decode_unsubscribe : Bytes → MqttResult UnsubscribePacket
unfolding read_u16
decode_unsubscribe data_ = do
  (packet_id, after_id) ← read_u16 (invalid "UNSUBSCRIBE too short") data_
  (properties, rest) ← read_props after_id
  filters ← read_strings (length rest) rest
  ok (record { packet_id = packet_id; filters = filters; properties = properties })

unfoldable pub decode_disconnect : Bytes → MqttResult ReasonPacket
unfolding optional_props read_reason
decode_disconnect data_ =
    let (reason_code, after_code) = read_reason data_ in
    (do
      (properties, consumed) ← optional_props after_code
      ok (record { reason_code = reason_code; properties = properties }))

unfoldable pub decode_auth : Bytes → MqttResult ReasonPacket
decode_auth [] = invalid "AUTH too short"
decode_auth (code ∷ rest) = do
  reason_code ← ok_or (reason_code_from_u8 code) (invalid_packet (unknown_auth_reason_code code))
  (properties, consumed) ← decode_properties rest
  ok (record { reason_code = reason_code; properties = properties })

-- The `match packet_type`.
unfoldable pub decode_body : PacketType → ℕ → Bytes → MqttResult MqttPacketV5
decode_body Common.connect header data_ = do p ← decode_connect data_; ok (connect p)
decode_body Common.connack header data_ = do p ← decode_connack data_; ok (connack p)
decode_body Common.publish header data_ = do p ← decode_publish data_ header; ok (publish p)
decode_body Common.puback header data_ = do
  p ← decode_ack (invalid "PUBACK too short") data_
  ok (puback p)
decode_body Common.pubrec header data_ = do
  p ← decode_ack (invalid "PUBREC too short") data_
  ok (pubrec p)
decode_body Common.pubrel header data_ = do
  p ← decode_ack (invalid "PUBREL too short") data_
  ok (pubrel p)
decode_body Common.pubcomp header data_ = do
  p ← decode_ack (invalid "PUBCOMP too short") data_
  ok (pubcomp p)
decode_body Common.subscribe header data_ = do p ← decode_subscribe data_; ok (subscribe p)
decode_body Common.suback header data_ = do
  p ← decode_codes (invalid "SUBACK too short") data_
  ok (suback p)
decode_body Common.unsubscribe header data_ = do p ← decode_unsubscribe data_; ok (unsubscribe p)
decode_body Common.unsuback header data_ = do
  p ← decode_codes (invalid "UNSUBACK too short") data_
  ok (unsuback p)
decode_body Common.pingreq header data_ = ok pingreq
decode_body Common.pingresp header data_ = ok pingresp
decode_body Common.disconnect header data_ = do p ← decode_disconnect data_; ok (disconnect p)
decode_body Common.auth header data_ = do p ← decode_auth data_; ok (auth p)

abbrev pub decode_packet : Bytes → MqttResult (Option (MqttPacketV5 × ℕ))
decode_packet = Frame.decode_packet decode_body
