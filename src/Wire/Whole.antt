-- ===== src/Wire/Whole.antt =====
-- Whole packets read back from a stream, by either codec.
use atom_mqtt.Prelude.{
  ℕ, suc, ◌+◌, ◌≤◌, ◌<◌, ◌≡◌, refl, sym, ap, subst, some, [], ◌∷◌, ◌++◌, append_assoc, length,
  length-append, drop-append, take-append, Bytes, MqttResult, ok, ◌>>=◌, ◌∙◌, arith, le→ltb,
}
use atom_mqtt.Common.{PacketType, packet_type_from_u8}
use atom_mqtt.Common.Length.{encode_remaining_length}
use atom_mqtt.Common.Length.RoundTrip.{
  decode-encode_remaining_length, length-encode_remaining_length,
}
use atom_mqtt.Wire.Write.{frame, encode_empty}
use atom_mqtt.Wire.Frame.{max_packet_size, decode_packet}

module _ {P : Type 0} (decode_body : PacketType → ℕ → Bytes → MqttResult P) where
  -- Reading back at the front of a stream.
  abbrev pub Reads : Bytes → P → Bytes → Type 0
  Reads bytes p rest = decode_packet decode_body (bytes ++ rest) ≡ ok (some (p, length bytes))

  module _ (t : PacketType) (header : ℕ) (remaining rest : Bytes)
      (typed : packet_type_from_u8 header ≡ some t)
      (small : length (frame header remaining) ≤ max_packet_size) where
    -- A frame is decoded as its body is.
    pub decode_packet-frame : decode_packet decode_body (frame header remaining ++ rest) ≡ (
        decode_body t header remaining >>= λ packet.
        ok (some (packet, length (frame header remaining))))
    unfolding decode_packet
    decode_packet-frame =
        let n : ℕ = length remaining in
        let code : Bytes = encode_remaining_length n in
        let stream : Bytes = code ++ (remaining ++ rest) in
        let total : 1 + length code + n ≡ length (frame header remaining) =
          omega (arith, length-append code remaining) in
        let fits : n < 268435456 = omega (arith, total) in
        let (low, _) = length-encode_remaining_length n fits in
        let held : length (frame header remaining) ≤ suc (length stream) =
          omega
            (arith, total, length-append code (remaining ++ rest), length-append remaining rest) in
        rw typed (
          rw (append_assoc code remaining rest) (
            rw (le→ltb (length stream) 1 (omega (arith, length-append code (remaining ++ rest)))) (
              rw (decode-encode_remaining_length n (remaining ++ rest) fits) (
                rw total (
                  rw (le→ltb max_packet_size (length (frame header remaining)) small) (
                    rw (le→ltb (suc (length stream)) (length (frame header remaining)) held) (
                      rw (drop-append code (remaining ++ rest))
                        (rw (take-append remaining rest) refl))))))))

  pub frame-Reads :
      (t : PacketType) (header : ℕ) (remaining : Bytes) (p : P) (rest : Bytes)
      → packet_type_from_u8 header ≡ some t
      → decode_body t header remaining ≡ ok p
      → length (frame header remaining) ≤ max_packet_size
      → Reads (frame header remaining) p rest
  frame-Reads t header remaining p rest typed body small =
      decode_packet-frame t header remaining rest typed small ∙ rw body refl

  two_bytes : encode_remaining_length 2 ≡ 2 ∷ []
  unfolding encode_remaining_length
  two_bytes = refl

  no_bytes : encode_remaining_length 0 ≡ 0 ∷ []
  unfolding encode_remaining_length
  no_bytes = refl

  -- The packets whose remaining length is written out are frames too.
  short_frame : (header a b : ℕ) → header ∷ 0x02 ∷ a ∷ b ∷ [] ≡ frame header (a ∷ b ∷ [])
  short_frame header a b = ap (λ (code : Bytes). header ∷ (code ++ a ∷ b ∷ [])) (sym two_bytes)

  empty_frame : (header : ℕ) → encode_empty header ≡ frame header []
  empty_frame header = ap (λ (code : Bytes). header ∷ (code ++ [])) (sym no_bytes)

  pub short-Reads :
      (t : PacketType) (header a b : ℕ) (p : P) (rest : Bytes)
      → packet_type_from_u8 header ≡ some t
      → decode_body t header (a ∷ b ∷ []) ≡ ok p
      → Reads (header ∷ 0x02 ∷ a ∷ b ∷ []) p rest
  short-Reads t header a b p rest typed body =
      subst (λ (bytes : Bytes). Reads bytes p rest) (sym (short_frame header a b))
        (frame-Reads t header (a ∷ b ∷ []) p rest typed body (
          subst (λ (bytes : Bytes). length bytes ≤ max_packet_size) (short_frame header a b)
            (omega arith)))

  pub empty-Reads :
      (t : PacketType) (header : ℕ) (p : P) (rest : Bytes)
      → packet_type_from_u8 header ≡ some t
      → decode_body t header [] ≡ ok p
      → Reads (encode_empty header) p rest
  empty-Reads t header p rest typed body =
      subst (λ (bytes : Bytes). Reads bytes p rest) (sym (empty_frame header))
        (frame-Reads t header [] p rest typed body (
          subst (λ (bytes : Bytes). length bytes ≤ max_packet_size) (empty_frame header)
            (omega arith)))
