-- ===== src/V3/Encode.antt =====
-- The encoders of mqtt-core/src/v3/codec.rs. They never fail: the `Ok` around each stands once, in
-- `encode_packet`.
use atom_mqtt.Prelude.{
  ℕ, ◌*◌, Bool, not, ◌&&◌, Option, none, some, List, [], ◌∷◌, ◌++◌, map, if◌then◌else◌, bit_or,
  Bytes, codes, MqttResult, ok,
}
use atom_mqtt.Common.{Qos, at_most_once, qos_to_u8, qos_eq, packet_type_to_u8}
use atom_mqtt.Common
use atom_mqtt.Common.Strings.{encode_string, to_be16}
use atom_mqtt.Wire.Write.{
  is_some, or_if, frame, encode_empty, flag_byte, binary_bytes, optional_bytes, string_bytes,
}
use atom_mqtt.V3.Types.{
  Will, ConnectPacket, ConnAckPacket, connect_return_code_to_u8, PublishPacket, AckPacket,
  SubscribeFilter, SubscribePacket, SubAckPacket, suback_return_code_to_u8, UnsubscribePacket,
  MqttPacketV3, connect, connack, publish, puback, pubrec, pubrel, pubcomp, subscribe, suback,
  unsubscribe, unsuback, pingreq, pingresp, disconnect,
}

unfoldable pub will_part : Option Will → Option (Qos × Bool)
will_part none = none
will_part (some will) = some (will.qos, will.retain)

unfoldable pub connect_flags : ConnectPacket → ℕ
unfolding will_part
connect_flags packet =
    flag_byte (is_some packet.username) (is_some packet.password) packet.clean_session
      (will_part packet.will)

-- `msg_len as u16` wraps.
unfoldable pub will_bytes : Option Will → Bytes
will_bytes none = []
will_bytes (some will) = encode_string will.topic ++ binary_bytes will.message

-- The variable header and the payload of a CONNECT.
unfoldable pub connect_remaining : ConnectPacket → Bytes
unfolding will_bytes optional_bytes
connect_remaining packet =
    0x00
    ∷ 0x04
    ∷ (codes "MQTT"
        ++ (0x04
            ∷ connect_flags packet
            ∷ (to_be16 packet.keep_alive
                ++ (encode_string packet.client_id
                    ++ (will_bytes packet.will
                        ++ (optional_bytes packet.username ++ optional_bytes packet.password))))))

pub encode_connect : ConnectPacket → Bytes
encode_connect packet = frame (packet_type_to_u8 Common.connect) (connect_remaining packet)

pub encode_connack : ConnAckPacket → Bytes
encode_connack packet =
    packet_type_to_u8 Common.connack
    ∷ 0x02
    ∷ (if packet.session_present then 0x01 else 0x00)
    ∷ connect_return_code_to_u8 packet.return_code
    ∷ []

-- The DUP bit is set on every packet with an identifier and a QoS above 0.
unfoldable pub publish_header : PublishPacket → ℕ
unfolding packet_type_to_u8 qos_to_u8 qos_eq
publish_header packet =
    or_if (is_some packet.packet_id && not (qos_eq packet.qos at_most_once)) 0x08 (
      or_if packet.retain 0x01
        (bit_or (packet_type_to_u8 Common.publish) (qos_to_u8 packet.qos * 2)))

id_bytes : Option ℕ → Qos → Bytes
id_bytes none qos = []
id_bytes (some pid) qos = if not (qos_eq qos at_most_once) then to_be16 pid else []

unfoldable pub publish_remaining : PublishPacket → Bytes
unfolding id_bytes qos_eq
publish_remaining packet =
    encode_string packet.topic ++ (id_bytes packet.packet_id packet.qos ++ packet.payload)

pub encode_publish : PublishPacket → Bytes
encode_publish packet = frame (publish_header packet) (publish_remaining packet)

-- `encode_puback`, `encode_pubrec`, `encode_pubcomp` and `encode_unsuback` differ in the header;
-- `encode_pubrel` has bit 1 set in it.
abbrev pub encode_ack : ℕ → AckPacket → Bytes
encode_ack header packet = header ∷ 0x02 ∷ to_be16 packet.packet_id

pub encode_puback : AckPacket → Bytes
encode_puback = encode_ack (packet_type_to_u8 Common.puback)

pub encode_pubrec : AckPacket → Bytes
encode_pubrec = encode_ack (packet_type_to_u8 Common.pubrec)

pub encode_pubrel : AckPacket → Bytes
encode_pubrel = encode_ack (bit_or (packet_type_to_u8 Common.pubrel) 0x02)

pub encode_pubcomp : AckPacket → Bytes
encode_pubcomp = encode_ack (packet_type_to_u8 Common.pubcomp)

pub encode_unsuback : AckPacket → Bytes
encode_unsuback = encode_ack (packet_type_to_u8 Common.unsuback)

unfoldable pub filter_bytes : List SubscribeFilter → Bytes
unfolding qos_to_u8
filter_bytes [] = []
filter_bytes (filter ∷ filters) =
    encode_string filter.path ++ (qos_to_u8 filter.qos ∷ filter_bytes filters)

pub encode_subscribe : SubscribePacket → Bytes
encode_subscribe packet =
    frame (bit_or (packet_type_to_u8 Common.subscribe) 0x02)
      (to_be16 packet.packet_id ++ filter_bytes packet.filters)

pub encode_suback : SubAckPacket → Bytes
encode_suback packet =
    frame (packet_type_to_u8 Common.suback)
      (to_be16 packet.packet_id ++ map suback_return_code_to_u8 packet.return_codes)

pub encode_unsubscribe : UnsubscribePacket → Bytes
encode_unsubscribe packet =
    frame (bit_or (packet_type_to_u8 Common.unsubscribe) 0x02)
      (to_be16 packet.packet_id ++ string_bytes packet.filters)

-- The bytes of `encode_packet`; the last three stand for `encode_pingreq`, `encode_pingresp` and
-- `encode_disconnect`.
unfoldable pub packet_bytes : MqttPacketV3 → Bytes
unfolding encode_connect encode_connack encode_publish encode_puback encode_pubrec encode_pubrel
    encode_pubcomp encode_subscribe encode_suback encode_unsubscribe encode_unsuback
    packet_type_to_u8
packet_bytes (connect p) = encode_connect p
packet_bytes (connack p) = encode_connack p
packet_bytes (publish p) = encode_publish p
packet_bytes (puback p) = encode_puback p
packet_bytes (pubrec p) = encode_pubrec p
packet_bytes (pubrel p) = encode_pubrel p
packet_bytes (pubcomp p) = encode_pubcomp p
packet_bytes (subscribe p) = encode_subscribe p
packet_bytes (suback p) = encode_suback p
packet_bytes (unsubscribe p) = encode_unsubscribe p
packet_bytes (unsuback p) = encode_unsuback p
packet_bytes pingreq = encode_empty (packet_type_to_u8 Common.pingreq)
packet_bytes pingresp = encode_empty (packet_type_to_u8 Common.pingresp)
packet_bytes disconnect = encode_empty (packet_type_to_u8 Common.disconnect)

unfoldable pub encode_packet : MqttPacketV3 → MqttResult Bytes
encode_packet packet = ok (packet_bytes packet)
