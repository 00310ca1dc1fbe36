-- ===== src/Wire/Stream.antt =====
-- `decode_packet` of either codec on a buffer that fills up as bytes arrive.
use atom_mqtt.Prelude.{
  ℕ, suc, ◌+◌, ◌%◌, ◌≤◌, ◌<◌, ◌≡◌, sym, ap, ◌∙◌, Option, none, some, [], ◌∷◌, ◌++◌, length,
  length-append, take, drop, All, Bytes, IsByte, MqttResult, ok, err, ok_or, ◌>>=◌, >>=-eq-ok,
  ok_or-eq-ok, take-append_le, drop-append_le, length-drop, bit_and_top, arith, le→ltb, lt→ltb, ltb,
  if◌then◌else◌, malformed_remaining_length, Bool-cases, inl, inr, invalid_packet,
  unknown_packet_type,
}
use atom_mqtt.Common.{PacketType, packet_type_from_u8}
use atom_mqtt.Common.Length.{encode_remaining_length, decode_remaining_length}
use atom_mqtt.Common.Length.RoundTrip.{
  encode_more, decode-encode_remaining_length, length-encode_remaining_length,
}
use atom_mqtt.Common.Length.Decode.{decode_remaining_length_bounds, decode_remaining_length-append}
use atom_mqtt.Wire.Frame.{max_packet_size, decode_frame, decode_packet}

module _ {P : Type 0} (body : PacketType → ℕ → Bytes → MqttResult P) where
  -- A frame that is not all there yet asks for more bytes.
  pub decode_packet_waits :
      (t : PacketType) (header n : ℕ) (part : Bytes)
      → packet_type_from_u8 header ≡ some t
      → 1 + length (encode_remaining_length n) + n ≤ max_packet_size
      → length part < n
      → decode_packet body (header ∷ (encode_remaining_length n ++ part)) ≡ ok none
  unfolding decode_packet
  decode_packet_waits t header n part typed small short =
      let code : Bytes = encode_remaining_length n in
      let (low, _) = length-encode_remaining_length n (omega arith) in
      rw typed (
        rw (le→ltb (length (code ++ part)) 1 (omega (arith, length-append code part))) (
          rw (decode-encode_remaining_length n part (omega arith)) (
            rw (le→ltb max_packet_size (1 + length code + n) small) (
              rw (
                lt→ltb (suc (length (code ++ part))) (1 + length code + n)
                  (omega (arith, length-append code part)))))))

  -- The taken branches of a successful decode.
  pub frame_parts :
      (t : PacketType) (header : ℕ) (rest : Bytes) (n len : ℕ) (p : P) (size : ℕ)
      → decode_frame body t header rest n len ≡ ok (some (p, size))
      → (size ≡ 1 + len + n)
        × (size ≤ max_packet_size)
        × (size ≤ suc (length rest))
        × (body t header (take n (drop len rest)) ≡ ok p)
  unfolding decode_frame
  frame_parts t header rest n len p size h = ground arith

  -- And what makes one.
  frame_made :
      (t : PacketType) (header : ℕ) (rest : Bytes) (n len : ℕ) (p : P)
      → 1 + len + n ≤ max_packet_size
      → 1 + len + n ≤ suc (length rest)
      → body t header (take n (drop len rest)) ≡ ok p
      → decode_frame body t header rest n len ≡ ok (some (p, 1 + len + n))
  unfolding decode_frame
  frame_made t header rest n len p small held body = ground arith

  -- The steps of a successful `decode_packet`.
  pub record Decoded (header : ℕ) (rest : Bytes) (p : P) (size : ℕ) : Type 0 where
    pub type : PacketType
    pub remaining : ℕ
    pub code : ℕ
    pub typed : packet_type_from_u8 header ≡ some type
    pub counted : decode_remaining_length rest ≡ ok (remaining, code)
    pub framed : decode_frame body type header rest remaining code ≡ ok (some (p, size))

  pub decode_packet_steps :
      (header : ℕ) (rest : Bytes) (p : P) (size : ℕ)
      → decode_packet body (header ∷ rest) ≡ ok (some (p, size))
      → Decoded header rest p size
  unfolding decode_packet
  decode_packet_steps header rest p size h =
      let unknown = invalid_packet (unknown_packet_type header) in
      let counted = λ (t : PacketType).
        decode_remaining_length rest >>= λ r. decode_frame body t header rest r.0 r.1 in
      let (t, typed, h') =
        >>=-eq-ok (ok_or (packet_type_from_u8 header) unknown)
          (λ t. if ltb (length rest) 1 then ok none else counted t) h in
      elim (Bool-cases (ltb (length rest) 1)) [
        | inl short ↦ absurd (none_is_no_packet (rw short at h'))
        | inr enough ↦
            let ((n, len), got, framed) =
              >>=-eq-ok (decode_remaining_length rest)
                (λ r. decode_frame body t header rest r.0 r.1) (rw enough at h') in
            record {
              type = t;
              remaining = n;
              code = len;
              typed = ok_or-eq-ok (packet_type_from_u8 header) unknown typed;
              counted = got;
              framed = framed;
            }
      ]
    where
      none_is_no_packet : ◌≡◌ {A = MqttResult (Option (P × ℕ))} (ok none) (ok (some (p, size))) → ⊥
      none_is_no_packet e = cc

  -- A decoded packet takes up at least two bytes, and no more than the buffer holds or 10 MB.
  pub decode_packet_bounds :
      (src : Bytes) (p : P) (size : ℕ)
      → All IsByte src
      → decode_packet body src ≡ ok (some (p, size))
      → (2 ≤ size) × (size ≤ length src) × (size ≤ max_packet_size)
  decode_packet_bounds [] p size hb h = unfold decode_packet in cc
  decode_packet_bounds (header ∷ rest) p size hb h =
      let d = decode_packet_steps header rest p size h in
      let (whole, small, held, _) =
        frame_parts d.type header rest d.remaining d.code p size d.framed in
      let (low, _, _, _) = decode_remaining_length_bounds rest d.remaining d.code hb.1 d.counted in
      omega arith

  -- The bytes of a frame do not change when more arrive.
  frame-append :
      (n len : ℕ) (rest more : Bytes)
      → len + n ≤ length rest
      → take n (drop len (rest ++ more)) ≡ take n (drop len rest)
  frame-append n len rest more h =
      rw (drop-append_le len rest more (omega arith))
        (take-append_le n (drop len rest) more (omega (arith, length-drop len rest)))

  decode_packet_made :
      (t : PacketType) (header : ℕ) (rest : Bytes) (n len : ℕ)
      → packet_type_from_u8 header ≡ some t
      → 1 ≤ length rest
      → decode_remaining_length rest ≡ ok (n, len)
      → decode_packet body (header ∷ rest) ≡ decode_frame body t header rest n len
  unfolding decode_packet
  decode_packet_made t header rest n len typed some_bytes counted =
      rw typed (rw (le→ltb (length rest) 1 some_bytes) (rw counted))

  -- A packet that is decoded stays the same when more bytes arrive behind it.
  pub decode_packet-append :
      (src more : Bytes) (p : P) (size : ℕ)
      → All IsByte src
      → decode_packet body src ≡ ok (some (p, size))
      → decode_packet body (src ++ more) ≡ ok (some (p, size))
  decode_packet-append [] more p size hb h = unfold decode_packet in cc
  decode_packet-append (header ∷ rest) more p size hb h =
      let d = decode_packet_steps header rest p size h in
      let n : ℕ = d.remaining in
      let len : ℕ = d.code in
      let (whole, small, held, decoded) = frame_parts d.type header rest n len p size d.framed in
      let (low, _, within, _) = decode_remaining_length_bounds rest n len hb.1 d.counted in
      let longer = length-append rest more in
      let same : take n (drop len (rest ++ more)) ≡ take n (drop len rest) =
        frame-append n len rest more (omega arith) in
      decode_packet_made d.type header (rest ++ more) n len d.typed (omega (arith, longer))
        (decode_remaining_length-append rest more n len d.counted)
      ∙ frame_made d.type header (rest ++ more) n len p (omega arith) (omega (arith, longer))
          (ap (body d.type header) same ∙ decoded)
      ∙ ap (λ (k : ℕ). ok (some (p, k))) (sym whole)

  cut_code :
      (n : ℕ) → n < 128 → decode_remaining_length ((n + 128) ∷ []) ≡ err malformed_remaining_length
  unfolding decode_remaining_length
  cut_code n h = ground (arith, bit_and_top (n + 128))

  -- A buffer that ends inside the remaining length, after its first byte, is refused as malformed
  -- instead of asking for more bytes.
  pub decode_packet_cut :
      (t : PacketType) (header n : ℕ)
      → packet_type_from_u8 header ≡ some t
      → 128 ≤ n
      → decode_packet body (header ∷ take 1 (encode_remaining_length n))
        ≡ err malformed_remaining_length
  decode_packet_cut t header n typed h =
      rw (encode_more n h)
        (unfold decode_packet in rw typed (rw (cut_code (n % 128) (omega arith))))
