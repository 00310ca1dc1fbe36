-- ===== src/V3/Decode.antt =====
-- The decoders of mqtt-core/src/v3/codec.rs.
use atom_mqtt.Prelude.{
  ℕ, zero, suc, ◌/◌, ◌%◌, Bool, true, false, not, Option, none, some, List, [], ◌∷◌, length, ◌==◌,
  if◌then◌else◌, Bytes, MqttResult, ok, err, ok_or, invalid, ◌>>=◌, invalid_packet,
  unknown_connack_code, text, unsupported_version,
}
use atom_mqtt.Common.{Qos, at_most_once, qos_from_u8, qos_eq, PacketType, packet_type_from_u8}
use atom_mqtt.Common
use atom_mqtt.Common.Strings.{be16}
use atom_mqtt.Wire.Frame
use atom_mqtt.Wire.Read.{
  has_flag, read_string, read_u16, read_byte, read_binary, read_optional, unwrap_or, read_strings,
}
use atom_mqtt.V3.Types.{
  Will, ConnectPacket, ConnAckPacket, connect_return_code_from_u8, PublishPacket, AckPacket,
  SubscribeFilter, SubscribePacket, SubAckReturnCode, SubAckPacket, suback_return_code_from_u8,
  UnsubscribePacket, MqttPacketV3, connect, connack, publish, puback, pubrec, pubrel, pubcomp,
  subscribe, suback, unsubscribe, unsuback, pingreq, pingresp, disconnect,
}

-- The will's message: a 16-bit length and so many bytes.
unfoldable pub read_message : Bytes → MqttResult (Bytes × Bytes)
unfolding read_binary
read_message =
    read_binary (invalid "Missing will message length") (invalid "Will message truncated")

unfoldable pub read_will : Bool → Qos → Bool → Bytes → MqttResult (Option Will × Bytes)
unfolding read_message
read_will false qos retain data_ = ok (none, data_)
read_will true qos retain data_ = do
  (topic, rest) ← read_string data_
  (message, rest') ← read_message rest
  ok (some (record { topic = topic; message = message; qos = qos; retain = retain }), rest')

-- From the client identifier on.
unfoldable pub connect_payload : ℕ → ℕ → Bytes → MqttResult ConnectPacket
unfolding read_will read_optional unwrap_or qos_from_u8
connect_payload connect_flags keep_alive data_ = do
  (client_id, after_id) ← read_string data_
  (will, after_will) ←
      read_will (has_flag connect_flags 0x04)
        (unwrap_or (qos_from_u8 (connect_flags / 8 % 4)) at_most_once) (has_flag connect_flags 0x20)
        after_id
  (username, after_username) ← read_optional (has_flag connect_flags 0x80) after_will
  (password, after_password) ← read_optional (has_flag connect_flags 0x40) after_username
  ok (record {
    client_id = client_id;
    clean_session = has_flag connect_flags 0x02;
    keep_alive = keep_alive;
    will = will;
    username = username;
    password = password;
  })

unfoldable pub decode_connect : Bytes → MqttResult ConnectPacket
unfolding connect_payload read_byte read_u16
decode_connect data_ = do
  (protocol_name, after_name) ← read_string data_
  (protocol_level, after_level) ← read_byte (invalid "Missing protocol level") after_name
  if not (protocol_level == 4) then err (unsupported_version protocol_level) else do
    (connect_flags, after_flags) ← read_byte (invalid "Missing connect flags") after_level
    (keep_alive, rest) ← read_u16 (invalid "Missing keep alive") after_flags
    connect_payload connect_flags keep_alive rest

unfoldable pub decode_connack : Bytes → MqttResult ConnAckPacket
decode_connack (flags ∷ code ∷ rest) = do
  return_code ←
      ok_or (connect_return_code_from_u8 code) (invalid_packet (unknown_connack_code code))
  ok (record { session_present = has_flag flags 0x01; return_code = return_code })
decode_connack _ = invalid "CONNACK too short"

read_id : Qos → Bytes → MqttResult (Option ℕ × Bytes)
unfolding read_u16 qos_eq
read_id qos data_ =
    if not (qos_eq qos at_most_once)
    then (do
      (pid, rest) ← read_u16 (invalid "Missing packet ID in PUBLISH") data_
      ok (some pid, rest))
    else ok (none, data_)

unfoldable pub decode_publish : Bytes → ℕ → MqttResult PublishPacket
unfolding read_id qos_from_u8
decode_publish data_ fixed_header = do
  qos ← ok_or (qos_from_u8 (fixed_header / 2 % 4)) (invalid_packet (text "Invalid QoS"))
  (topic, rest) ← read_string data_
  (packet_id, payload) ← read_id qos rest
  ok (record {
    topic = topic;
    payload = payload;
    qos = qos;
    retain = has_flag fixed_header 0x01;
    packet_id = packet_id;
  })

-- `decode_puback`, `decode_pubrec`, `decode_pubrel`, `decode_pubcomp` and `decode_unsuback` differ
-- in the text of the error.
unfoldable pub decode_ack : MqttResult AckPacket → Bytes → MqttResult AckPacket
decode_ack short (hi ∷ lo ∷ rest) = ok (record { packet_id = be16 hi lo })
decode_ack short _ = short

-- The `while` loop on fuel. Each round takes a byte at least, so the length is fuel enough.
unfoldable pub read_filters : ℕ → Bytes → MqttResult (List SubscribeFilter)
unfolding read_byte qos_from_u8
read_filters fuel [] = ok []
read_filters zero (b ∷ data_) = ok []
read_filters (suc fuel) (b ∷ data_) = do
  (topic, rest) ← read_string (b ∷ data_)
  (options, rest') ← read_byte (invalid "Missing QoS in SUBSCRIBE") rest
  qos ← ok_or (qos_from_u8 (options % 4)) (invalid_packet (text "Invalid QoS in SUBSCRIBE"))
  filters ← read_filters fuel rest'
  ok (record { path = topic; qos = qos } ∷ filters)

unfoldable pub decode_subscribe : Bytes → MqttResult SubscribePacket
unfolding read_u16
decode_subscribe data_ = do
  (packet_id, rest) ← read_u16 (invalid "SUBSCRIBE too short") data_
  filters ← read_filters (length rest) rest
  ok (record { packet_id = packet_id; filters = filters })

-- `filter_map(|&b| SubAckReturnCode::from_u8(b))`
unfoldable pub known_codes : Bytes → List SubAckReturnCode
unfolding suback_return_code_from_u8
known_codes [] = []
known_codes (b ∷ rest) = elim (suback_return_code_from_u8 b) [
  | none ↦ known_codes rest
  | some c ↦ c ∷ known_codes rest
]

unfoldable pub decode_suback : Bytes → MqttResult SubAckPacket
unfolding read_u16
decode_suback data_ = do
  (packet_id, rest) ← read_u16 (invalid "SUBACK too short") data_
  ok (record { packet_id = packet_id; return_codes = known_codes rest })

unfoldable pub decode_unsubscribe : Bytes → MqttResult UnsubscribePacket
unfolding read_u16
decode_unsubscribe data_ = do
  (packet_id, rest) ← read_u16 (invalid "UNSUBSCRIBE too short") data_
  filters ← read_strings (length rest) rest
  ok (record { packet_id = packet_id; filters = filters })

-- The `match packet_type`.
unfoldable pub decode_body : PacketType → ℕ → Bytes → MqttResult MqttPacketV3
decode_body Common.connect header data_ = do p ← decode_connect data_; ok (connect p)
decode_body Common.connack header data_ = do p ← decode_connack data_; ok (connack p)
decode_body Common.publish header data_ = do p ← decode_publish data_ header; ok (publish p)
decode_body Common.puback header data_ = do
  p ← decode_ack (invalid "PUBACK too short") data_
  ok (puback p)
decode_body Common.pubrec header data_ = do
  p ← decode_ack (invalid "PUBREC too short") data_
  ok (pubrec p)
decode_body Common.pubrel header data_ = do
  p ← decode_ack (invalid "PUBREL too short") data_
  ok (pubrel p)
decode_body Common.pubcomp header data_ = do
  p ← decode_ack (invalid "PUBCOMP too short") data_
  ok (pubcomp p)
decode_body Common.subscribe header data_ = do p ← decode_subscribe data_; ok (subscribe p)
decode_body Common.suback header data_ = do p ← decode_suback data_; ok (suback p)
decode_body Common.unsubscribe header data_ = do p ← decode_unsubscribe data_; ok (unsubscribe p)
decode_body Common.unsuback header data_ = do
  p ← decode_ack (invalid "UNSUBACK too short") data_
  ok (unsuback p)
decode_body Common.pingreq header data_ = ok pingreq
decode_body Common.pingresp header data_ = ok pingresp
decode_body Common.disconnect header data_ = ok disconnect
decode_body Common.auth header data_ = invalid "AUTH not supported in MQTT 3.1.1"

abbrev pub decode_packet : Bytes → MqttResult (Option (MqttPacketV3 × ℕ))
decode_packet = Frame.decode_packet decode_body
