-- ===== src/V5/Encode.antt =====
-- The encoders of mqtt-core/src/v5/codec.rs. They never fail: the `Ok` around each stands once, in
-- `encode_packet`.
use atom_mqtt.Prelude.{
  ℕ, ◌*◌, Bool, not, Option, none, some, List, [], ◌∷◌, ◌++◌, map, if◌then◌else◌, bit_or, Bytes,
  codes, MqttResult, ok,
}
use atom_mqtt.Common.{Qos, at_most_once, qos_to_u8, qos_eq, packet_type_to_u8}
use atom_mqtt.Common
use atom_mqtt.Common.Strings.{encode_string, to_be16}
use atom_mqtt.Wire.Write.{
  is_some, or_if, frame, encode_empty, flag_byte, binary_bytes, optional_bytes, string_bytes,
}
use atom_mqtt.V5.Reasons.{reason_code_to_u8}
use atom_mqtt.V5.Properties.{encode_properties}
use atom_mqtt.V5.Types.{
  Will, ConnectPacket, ConnAckPacket, PublishPacket, AckPacket, retain_handling_to_u8,
  SubscribeFilter, SubscribePacket, CodesPacket, UnsubscribePacket, ReasonPacket, MqttPacketV5,
  connect, connack, publish, puback, pubrec, pubrel, pubcomp, subscribe, suback, unsubscribe,
  unsuback, pingreq, pingresp, disconnect, auth,
}

unfoldable pub will_part : Option Will → Option (Qos × Bool)
will_part none = none
will_part (some will) = some (will.qos, will.retain)

unfoldable pub connect_flags : ConnectPacket → ℕ
unfolding will_part
connect_flags packet =
    flag_byte (is_some packet.username) (is_some packet.password) packet.clean_start
      (will_part packet.will)

unfoldable pub will_bytes : Option Will → Bytes
will_bytes none = []
will_bytes (some will) =
    encode_properties will.properties ++ (encode_string will.topic ++ binary_bytes will.payload)

-- The variable header and the payload of a CONNECT.
unfoldable pub connect_remaining : ConnectPacket → Bytes
unfolding will_bytes
connect_remaining packet =
    0x00
    ∷ 0x04
    ∷ (codes "MQTT"
        ++ (0x05
            ∷ connect_flags packet
            ∷ (to_be16 packet.keep_alive
                ++ (encode_properties packet.properties
                    ++ (encode_string packet.client_id
                        ++ (will_bytes packet.will
                            ++ (optional_bytes packet.username
                                ++ optional_bytes packet.password)))))))

unfoldable pub encode_connect : ConnectPacket → Bytes
encode_connect packet = frame (packet_type_to_u8 Common.connect) (connect_remaining packet)

unfoldable pub encode_connack : ConnAckPacket → Bytes
encode_connack packet = frame (packet_type_to_u8 Common.connack) (
    (if packet.session_present then 0x01 else 0x00)
    ∷ reason_code_to_u8 packet.reason_code
    ∷ encode_properties packet.properties)

unfoldable pub publish_header : PublishPacket → ℕ
unfolding packet_type_to_u8 qos_to_u8
publish_header packet =
    or_if packet.retain 0x01 (bit_or (packet_type_to_u8 Common.publish) (qos_to_u8 packet.qos * 2))

unfoldable pub id_bytes : Option ℕ → Qos → Bytes
unfolding qos_eq
id_bytes none qos = []
id_bytes (some pid) qos = if not (qos_eq qos at_most_once) then to_be16 pid else []

-- The properties stand before the packet identifier.
unfoldable pub publish_remaining : PublishPacket → Bytes
unfolding id_bytes
publish_remaining packet =
    encode_string packet.topic
    ++ (encode_properties packet.properties
        ++ (id_bytes packet.packet_id packet.qos ++ packet.payload))

unfoldable pub encode_publish : PublishPacket → Bytes
encode_publish packet = frame (publish_header packet) (publish_remaining packet)

-- `encode_puback`, `encode_pubrec` and `encode_pubcomp` differ in the header; `encode_pubrel` has
-- bit 1 set in it.
unfoldable pub encode_ack : ℕ → AckPacket → Bytes
encode_ack header packet = frame header (
    to_be16 packet.packet_id
    ++ (reason_code_to_u8 packet.reason_code ∷ encode_properties packet.properties))

-- The options byte of a filter.
unfoldable pub filter_options : SubscribeFilter → ℕ
unfolding qos_to_u8 retain_handling_to_u8
filter_options filter =
    bit_or
      (or_if filter.retain_as_published 0x08 (or_if filter.no_local 0x04 (qos_to_u8 filter.qos)))
      (retain_handling_to_u8 filter.retain_handling * 16)

unfoldable pub filter_bytes : List SubscribeFilter → Bytes
unfolding filter_options
filter_bytes [] = []
filter_bytes (filter ∷ filters) =
    encode_string filter.path ++ (filter_options filter ∷ filter_bytes filters)

unfoldable pub encode_subscribe : SubscribePacket → Bytes
encode_subscribe packet = frame (bit_or (packet_type_to_u8 Common.subscribe) 0x02) (
    to_be16 packet.packet_id
    ++ (encode_properties packet.properties ++ filter_bytes packet.filters))

-- `encode_suback` and `encode_unsuback` differ in the header.
unfoldable pub encode_codes : ℕ → CodesPacket → Bytes
encode_codes header packet = frame header (
    to_be16 packet.packet_id
    ++ (encode_properties packet.properties ++ map reason_code_to_u8 packet.reason_codes))

unfoldable pub encode_unsubscribe : UnsubscribePacket → Bytes
encode_unsubscribe packet = frame (bit_or (packet_type_to_u8 Common.unsubscribe) 0x02) (
    to_be16 packet.packet_id
    ++ (encode_properties packet.properties ++ string_bytes packet.filters))

-- `encode_disconnect` and `encode_auth` differ in the header.
unfoldable pub encode_reason : ℕ → ReasonPacket → Bytes
encode_reason header packet =
    frame header (reason_code_to_u8 packet.reason_code ∷ encode_properties packet.properties)

-- The bytes of `encode_packet`.
unfoldable pub packet_bytes : MqttPacketV5 → Bytes
unfolding encode_connect encode_connack encode_publish encode_ack encode_subscribe encode_codes
    encode_unsubscribe encode_reason packet_type_to_u8
packet_bytes (connect p) = encode_connect p
packet_bytes (connack p) = encode_connack p
packet_bytes (publish p) = encode_publish p
packet_bytes (puback p) = encode_ack (packet_type_to_u8 Common.puback) p
packet_bytes (pubrec p) = encode_ack (packet_type_to_u8 Common.pubrec) p
packet_bytes (pubrel p) = encode_ack (bit_or (packet_type_to_u8 Common.pubrel) 0x02) p
packet_bytes (pubcomp p) = encode_ack (packet_type_to_u8 Common.pubcomp) p
packet_bytes (subscribe p) = encode_subscribe p
packet_bytes (suback p) = encode_codes (packet_type_to_u8 Common.suback) p
packet_bytes (unsubscribe p) = encode_unsubscribe p
packet_bytes (unsuback p) = encode_codes (packet_type_to_u8 Common.unsuback) p
packet_bytes pingreq = encode_empty (packet_type_to_u8 Common.pingreq)
packet_bytes pingresp = encode_empty (packet_type_to_u8 Common.pingresp)
packet_bytes (disconnect p) = encode_reason (packet_type_to_u8 Common.disconnect) p
packet_bytes (auth p) = encode_reason (packet_type_to_u8 Common.auth) p

unfoldable pub encode_packet : MqttPacketV5 → MqttResult Bytes
encode_packet packet = ok (packet_bytes packet)
