-- ===== src/Codec.antt =====
-- mqtt-core/src/codec.rs: packets of either version, and the codec that detects which. A codec is
-- its `max_packet_size`.
pub mod RoundTrip
use atom_mqtt.Prelude.{
  ℕ, suc, ◌+◌, Bool, true, false, Option, none, some, [], ◌∷◌, ◌++◌, length, take, drop, ltb, ◌==◌,
  if◌then◌else◌, Bytes, MqttResult, ok, err, ok_or, ◌>>=◌, invalid, invalid_packet, text,
  unknown_packet_type, packet_too_large, unsupported_version,
}
use atom_mqtt.Common.{ProtocolVersion, PacketType, packet_type_from_u8}
use atom_mqtt.Common
use atom_mqtt.Common.Length.{decode_remaining_length}
use atom_mqtt.V3.Types.{MqttPacketV3}
use atom_mqtt.V3.Types as Types3
use atom_mqtt.V3.Encode as Encode3
use atom_mqtt.V3.Decode as Decode3
use atom_mqtt.V5.Types.{MqttPacketV5}
use atom_mqtt.V5.Types as Types5
use atom_mqtt.V5.Encode as Encode5
use atom_mqtt.V5.Decode as Decode5

pub data MqttPacket : Type 0 where
  v311 : MqttPacketV3 → MqttPacket
  v5 : MqttPacketV5 → MqttPacket

-- `version`
unfoldable pub version : MqttPacket → ProtocolVersion
version (v311 p) = Common.v311
version (v5 p) = Common.v5

unfoldable pub packet_type_v3 : MqttPacketV3 → PacketType
packet_type_v3 (Types3.connect p) = Common.connect
packet_type_v3 (Types3.connack p) = Common.connack
packet_type_v3 (Types3.publish p) = Common.publish
packet_type_v3 (Types3.puback p) = Common.puback
packet_type_v3 (Types3.pubrec p) = Common.pubrec
packet_type_v3 (Types3.pubrel p) = Common.pubrel
packet_type_v3 (Types3.pubcomp p) = Common.pubcomp
packet_type_v3 (Types3.subscribe p) = Common.subscribe
packet_type_v3 (Types3.suback p) = Common.suback
packet_type_v3 (Types3.unsubscribe p) = Common.unsubscribe
packet_type_v3 (Types3.unsuback p) = Common.unsuback
packet_type_v3 Types3.pingreq = Common.pingreq
packet_type_v3 Types3.pingresp = Common.pingresp
packet_type_v3 Types3.disconnect = Common.disconnect

unfoldable pub packet_type_v5 : MqttPacketV5 → PacketType
packet_type_v5 (Types5.connect p) = Common.connect
packet_type_v5 (Types5.connack p) = Common.connack
packet_type_v5 (Types5.publish p) = Common.publish
packet_type_v5 (Types5.puback p) = Common.puback
packet_type_v5 (Types5.pubrec p) = Common.pubrec
packet_type_v5 (Types5.pubrel p) = Common.pubrel
packet_type_v5 (Types5.pubcomp p) = Common.pubcomp
packet_type_v5 (Types5.subscribe p) = Common.subscribe
packet_type_v5 (Types5.suback p) = Common.suback
packet_type_v5 (Types5.unsubscribe p) = Common.unsubscribe
packet_type_v5 (Types5.unsuback p) = Common.unsuback
packet_type_v5 Types5.pingreq = Common.pingreq
packet_type_v5 Types5.pingresp = Common.pingresp
packet_type_v5 (Types5.disconnect p) = Common.disconnect
packet_type_v5 (Types5.auth p) = Common.auth

-- `packet_type`
unfoldable pub packet_type : MqttPacket → Option PacketType
unfolding packet_type_v3 packet_type_v5
packet_type (v311 p) = some (packet_type_v3 p)
packet_type (v5 p) = some (packet_type_v5 p)

-- `packet_type == PacketType::Connect`
unfoldable pub is_connect : PacketType → Bool
is_connect Common.connect = true
is_connect _ = false

-- `.unwrap_or(None).map(|(p, _sz)| …)`
unfoldable pub accepted {ℓ} :
    {P : Type ℓ} → MqttResult (Option (P × ℕ)) → (P → MqttPacket) → Option MqttPacket
accepted (ok (some (p, size))) packet_of = some (packet_of p)
accepted (ok none) packet_of = none
accepted (err e) packet_of = none

-- The two attempts at a packet that is not a CONNECT.
unfoldable pub first_accepted : Option MqttPacket → Option MqttPacket → Option MqttPacket
first_accepted (some p) other = some p
first_accepted none other = other

-- `.ok_or_else(…)?` on what a decoder of a CONNECT returns, wrapped again.
unfoldable pub whole_connect {ℓ} :
    {P : Type ℓ}
    → MqttResult (Option (P × ℕ))
    → MqttResult (Option MqttPacket)
    → (P → MqttPacket)
    → MqttResult (Option MqttPacket)
whole_connect (ok (some (p, size))) failed packet_of = ok (some (packet_of p))
whole_connect (ok none) failed packet_of = failed
whole_connect (err e) failed packet_of = err e

-- `match protocol_level`
unfoldable pub connect_at : ℕ → Bytes → MqttResult (Option MqttPacket)
unfolding whole_connect
connect_at protocol_level src =
    if protocol_level == 4
    then whole_connect (Decode3.decode_packet src) (invalid "Failed to decode MQTT 3.1.1 CONNECT")
        v311
    else if protocol_level == 5
    then whole_connect (Decode5.decode_packet src) (invalid "Failed to decode MQTT 5.0 CONNECT") v5
    else err (unsupported_version protocol_level)

-- `protocol_data[6]`, of data that has it.
unfoldable pub protocol_level_of : Bytes → MqttResult ℕ
protocol_level_of (a ∷ b ∷ c ∷ d ∷ e ∷ f ∷ level ∷ rest) = ok level
protocol_level_of _ = invalid "CONNECT packet too short"

-- `MqttCodec::decode_connect`; `tail` is `src[1..]`.
unfoldable pub detect_connect : ℕ → ℕ → Bytes → MqttResult (Option MqttPacket)
unfolding connect_at protocol_level_of
detect_connect max_packet_size header tail = if ltb (suc (length tail)) 10 then ok none else do
  (remaining, len_bytes) ← decode_remaining_length tail
  let total_len = 1 + len_bytes + remaining
  if ltb (suc (length tail)) (1 + len_bytes)
      then ok none
      else if ltb (suc (length tail)) total_len
      then ok none
      else if ltb max_packet_size total_len
      then err (packet_too_large total_len)
      else (do level ← protocol_level_of (drop len_bytes tail); connect_at level (header ∷ tail))

-- `MqttCodec::decode`
unfoldable pub decode : ℕ → Bytes → MqttResult (Option MqttPacket)
unfolding is_connect detect_connect accepted first_accepted
decode max_packet_size [] = ok none
decode max_packet_size (header ∷ tail) = do
  packet_type ← ok_or (packet_type_from_u8 header) (invalid_packet (unknown_packet_type header))
  if is_connect packet_type
      then detect_connect max_packet_size header tail
      else ok (
          first_accepted (accepted (Decode3.decode_packet (header ∷ tail)) v311)
            (accepted (Decode5.decode_packet (header ∷ tail)) v5))

-- `encode_packet`
unfoldable pub encode_any : MqttPacket → MqttResult Bytes
encode_any (v311 p) = Encode3.encode_packet p
encode_any (v5 p) = Encode5.encode_packet p

-- The part of `MqttFramedCodec::decode` from the total length on: the answer and the bytes that stay
-- in the buffer.
unfoldable pub take_frame : ℕ → Bytes → ℕ → MqttResult (Option MqttPacket) × Bytes
unfolding decode
take_frame max_packet_size src total_len =
    if ltb (length src) total_len
    then (ok none, src)
    else if ltb max_packet_size total_len
    then (err (packet_too_large total_len), src)
    else (decode max_packet_size (take total_len src), drop total_len src)

-- `MqttFramedCodec::decode`
unfoldable pub decode_framed : ℕ → Bytes → MqttResult (Option MqttPacket) × Bytes
unfolding take_frame
decode_framed max_packet_size [] = (ok none, [])
decode_framed max_packet_size (header ∷ tail) =
    if ltb (suc (length tail)) 2
    then (ok none, header ∷ tail)
    else elim (decode_remaining_length tail) [
      | err e ↦ (ok none, header ∷ tail)
      | ok r ↦ take_frame max_packet_size (header ∷ tail) (1 + r.1 + r.0)
    ]

-- `MqttFramedCodec::encode`, with what it leaves in `dst`.
unfoldable pub encode_framed : MqttPacket → Bytes → MqttResult Bytes
unfolding encode_any
encode_framed item dst = do bytes ← encode_any item; ok (dst ++ bytes)
