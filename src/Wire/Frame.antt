-- ===== src/Wire/Frame.antt =====
-- `decode_packet` of mqtt-core/src/v3/codec.rs and of mqtt-core/src/v5/codec.rs, which differ in the
-- decoders of the bodies.
use atom_mqtt.Prelude.{
  ℕ, suc, ◌*◌, ◌+◌, Option, none, some, [], ◌∷◌, length, take, drop, ltb, if◌then◌else◌, Bytes,
  MqttResult, ok, err, ok_or, ◌>>=◌, invalid_packet, unknown_packet_type, packet_too_large,
}
use atom_mqtt.Common.{PacketType, packet_type_from_u8}
use atom_mqtt.Common.Length.{decode_remaining_length}

-- `MAX_PACKET_SIZE`
abbrev pub max_packet_size : ℕ
max_packet_size = 10 * 1024 * 1024

module _ {P : Type 0} (decode_body : PacketType → ℕ → Bytes → MqttResult P) where
  -- Once the remaining length is known: `rest` is `src[1..]`.
  unfoldable pub decode_frame : PacketType → ℕ → Bytes → ℕ → ℕ → MqttResult (Option (P × ℕ))
  decode_frame packet_type header rest remaining_len len_bytes =
      let total_len = 1 + len_bytes + remaining_len in
      if ltb max_packet_size total_len
      then err (packet_too_large total_len)
      else if ltb (suc (length rest)) total_len
      then ok none
      else (do
        packet ← decode_body packet_type header (take remaining_len (drop len_bytes rest))
        ok (some (packet, total_len)))

  -- The packet with the bytes that it takes up; `none` if more bytes are needed.
  unfoldable pub decode_packet : Bytes → MqttResult (Option (P × ℕ))
  unfolding decode_frame
  decode_packet [] = ok none
  decode_packet (header ∷ rest) = do
    packet_type ← ok_or (packet_type_from_u8 header) (invalid_packet (unknown_packet_type header))
    if ltb (length rest) 1 then ok none else do
      (remaining_len, len_bytes) ← decode_remaining_length rest
      decode_frame packet_type header rest remaining_len len_bytes
