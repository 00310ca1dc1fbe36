-- ===== src/V5/RoundTrip/Packets.antt =====
-- Whole packets of mqtt-core/src/v5 read back from a stream.
use atom_mqtt.Prelude.{
  ◌≤◌, ◌≡◌, refl, sym, subst, Bool, true, false, some, ◌∷◌, ◌++◌, map, length, All, Bytes, IsU16,
  ok, invalid, arith, if◌then◌else◌,
}
use atom_mqtt.Common.{packet_type_from_u8}
use atom_mqtt.Common
use atom_mqtt.Common.Strings.{to_be16}
use atom_mqtt.Wire.Fields.{Fits}
use atom_mqtt.Wire.Read.{has_flag}
use atom_mqtt.Wire.Write.{string_bytes}
use atom_mqtt.Wire.Frame.{max_packet_size}
use atom_mqtt.Wire.Whole.{Reads, frame-Reads, empty-Reads}
use atom_mqtt.V5.Reasons.{reason_code_to_u8}
use atom_mqtt.V5.Properties.{encode_properties}
use atom_mqtt.V5.Properties.RoundTrip.{PropertiesFit}
use atom_mqtt.V5.Types.{
  PublishPacket, MqttPacketV5, connect, connack, publish, puback, pubrec, pubrel, pubcomp,
  subscribe, suback, unsubscribe, unsuback, pingreq, pingresp, disconnect, auth,
}
use atom_mqtt.V5.Encode.{
  connect_remaining, publish_header, publish_remaining, filter_bytes, packet_bytes, encode_packet,
}
use atom_mqtt.V5.Decode.{decode_body, decode_packet}
use atom_mqtt.V5.RoundTrip.Fields.{FilterFits}
use atom_mqtt.V5.RoundTrip.Bodies.{
  PublishFits, decode_publish_lem, decode_connack_lem, decode_ack_lem, decode_subscribe_lem,
  decode_codes_lem, decode_unsubscribe_lem, decode_disconnect_lem, decode_auth_lem,
}
use atom_mqtt.V5.RoundTrip.Connect.{ConnectFits, decode_connect_lem}

-- The fields fit their places on the wire.
abbrev pub PacketFits : MqttPacketV5 → Type 0
PacketFits (connect p) = ConnectFits p
PacketFits (connack p) = PropertiesFit p.properties
PacketFits (publish p) = PublishFits p
PacketFits (puback p) = IsU16 p.packet_id × PropertiesFit p.properties
PacketFits (pubrec p) = IsU16 p.packet_id × PropertiesFit p.properties
PacketFits (pubrel p) = IsU16 p.packet_id × PropertiesFit p.properties
PacketFits (pubcomp p) = IsU16 p.packet_id × PropertiesFit p.properties
PacketFits (subscribe p) = IsU16 p.packet_id × All FilterFits p.filters × PropertiesFit p.properties
PacketFits (suback p) = IsU16 p.packet_id × PropertiesFit p.properties
PacketFits (unsubscribe p) = IsU16 p.packet_id × All Fits p.filters × PropertiesFit p.properties
PacketFits (unsuback p) = IsU16 p.packet_id × PropertiesFit p.properties
PacketFits pingreq = Unit
PacketFits pingresp = Unit
PacketFits (disconnect p) = PropertiesFit p.properties
PacketFits (auth p) = PropertiesFit p.properties

publish_typed : (p : PublishPacket) → packet_type_from_u8 (publish_header p) ≡ some Common.publish
unfolding packet_type_from_u8 publish_header
publish_typed p = ground arith

session_flag : (b : Bool) → has_flag (if b then 0x01 else 0x00) 0x01 ≡ b
session_flag true = refl
session_flag false = refl

pub packet-Reads :
    (p : MqttPacketV5) (rest : Bytes)
    → PacketFits p
    → length (packet_bytes p) ≤ max_packet_size
    → Reads decode_body (packet_bytes p) p rest
unfolding packet_bytes decode_body packet_type_from_u8
packet-Reads (connect p) rest h small =
    frame-Reads decode_body Common.connect 16 (connect_remaining p) (connect p) rest refl
      (rw (decode_connect_lem p h)) small
packet-Reads (connack p) rest h small =
    frame-Reads decode_body Common.connack 32
      ((if p.session_present then 0x01 else 0x00)
        ∷ reason_code_to_u8 p.reason_code
        ∷ encode_properties p.properties)
      (connack p) rest refl (rw (decode_connack_lem p _ (session_flag p.session_present) h)) small
packet-Reads (publish p) rest h small =
    frame-Reads decode_body Common.publish (publish_header p) (publish_remaining p) (publish p) rest
      (publish_typed p) (rw (decode_publish_lem p h)) small
packet-Reads (puback p) rest h small =
    frame-Reads decode_body Common.puback 64
      (to_be16 p.packet_id ++ (reason_code_to_u8 p.reason_code ∷ encode_properties p.properties))
      (puback p) rest refl (rw (decode_ack_lem (invalid "PUBACK too short") p h.0 h.1)) small
packet-Reads (pubrec p) rest h small =
    frame-Reads decode_body Common.pubrec 80
      (to_be16 p.packet_id ++ (reason_code_to_u8 p.reason_code ∷ encode_properties p.properties))
      (pubrec p) rest refl (rw (decode_ack_lem (invalid "PUBREC too short") p h.0 h.1)) small
packet-Reads (pubrel p) rest h small =
    frame-Reads decode_body Common.pubrel 98
      (to_be16 p.packet_id ++ (reason_code_to_u8 p.reason_code ∷ encode_properties p.properties))
      (pubrel p) rest refl (rw (decode_ack_lem (invalid "PUBREL too short") p h.0 h.1)) small
packet-Reads (pubcomp p) rest h small =
    frame-Reads decode_body Common.pubcomp 112
      (to_be16 p.packet_id ++ (reason_code_to_u8 p.reason_code ∷ encode_properties p.properties))
      (pubcomp p) rest refl (rw (decode_ack_lem (invalid "PUBCOMP too short") p h.0 h.1)) small
packet-Reads (subscribe p) rest h small =
    frame-Reads decode_body Common.subscribe 130
      (to_be16 p.packet_id ++ (encode_properties p.properties ++ filter_bytes p.filters))
      (subscribe p) rest refl (rw (decode_subscribe_lem p h.0 h.1 h.2)) small
packet-Reads (suback p) rest h small =
    frame-Reads decode_body Common.suback 144
      (to_be16 p.packet_id
        ++ (encode_properties p.properties ++ map reason_code_to_u8 p.reason_codes))
      (suback p) rest refl (rw (decode_codes_lem (invalid "SUBACK too short") p h.0 h.1)) small
packet-Reads (unsubscribe p) rest h small =
    frame-Reads decode_body Common.unsubscribe 162
      (to_be16 p.packet_id ++ (encode_properties p.properties ++ string_bytes p.filters))
      (unsubscribe p) rest refl (rw (decode_unsubscribe_lem p h.0 h.1 h.2)) small
packet-Reads (unsuback p) rest h small =
    frame-Reads decode_body Common.unsuback 176
      (to_be16 p.packet_id
        ++ (encode_properties p.properties ++ map reason_code_to_u8 p.reason_codes))
      (unsuback p) rest refl (rw (decode_codes_lem (invalid "UNSUBACK too short") p h.0 h.1)) small
packet-Reads pingreq rest h small =
    empty-Reads decode_body Common.pingreq 192 pingreq rest refl refl
packet-Reads pingresp rest h small =
    empty-Reads decode_body Common.pingresp 208 pingresp rest refl refl
packet-Reads (disconnect p) rest h small =
    frame-Reads decode_body Common.disconnect 224
      (reason_code_to_u8 p.reason_code ∷ encode_properties p.properties) (disconnect p) rest refl
      (rw (decode_disconnect_lem p h)) small
packet-Reads (auth p) rest h small =
    frame-Reads decode_body Common.auth 240
      (reason_code_to_u8 p.reason_code ∷ encode_properties p.properties) (auth p) rest refl
      (rw (decode_auth_lem p h)) small

-- Whatever follows it in the stream, an encoded packet is read back, and the decoder says where it
-- ends. The packet's fields fit their places on the wire, each of its properties has a value of the
-- kind that its identifier asks for, the delay of a will is what the will's properties say, and the
-- packet has at most 10 MB.
pub decode-encode_packet_v5 :
    (p : MqttPacketV5) (bytes rest : Bytes)
    → PacketFits p
    → encode_packet p ≡ ok bytes
    → length bytes ≤ max_packet_size
    → decode_packet (bytes ++ rest) ≡ ok (some (p, length bytes))
unfolding encode_packet
decode-encode_packet_v5 p bytes rest h e small =
    let same : packet_bytes p ≡ bytes = cc in
    subst (λ (b : Bytes). Reads decode_body b p rest) same
      (packet-Reads p rest h (subst (λ (b : Bytes). length b ≤ max_packet_size) (sym same) small))
