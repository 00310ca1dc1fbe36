-- ===== src/Common/Length.antt =====
-- `encode_remaining_length` and `decode_remaining_length` of mqtt-core/src/common.rs.
pub mod RoundTrip
pub mod Decode
use atom_mqtt.Prelude.{
  ℕ, zero, suc, ◌+◌, ◌*◌, ◌/◌, ◌%◌, ◌≤◌, ◌<◌, ◌≡◌, refl, [], ◌∷◌, ◌++◌, ltb, ◌==◌, if◌then◌else◌,
  length, Bytes, bit_and, bit_or, MqttResult, ok, err, malformed_remaining_length, arith,
}

-- `MAX_REMAINING_LENGTH_BYTES`
abbrev pub max_remaining_length_bytes : ℕ
max_remaining_length_bytes = 4

-- The loop, on fuel: `length & 0x7F` is `length % 128`, and `length >>= 7` is `length / 128`.
encode_loop : ℕ → ℕ → Bytes
encode_loop zero length = []
encode_loop (suc fuel) length =
    let byte = length % 128 in
    let rest = length / 128 in
    let encoded = encode_loop fuel rest in
    if ltb 0 rest then bit_or byte 0x80 ∷ encoded else byte ∷ []

-- Each round divides the length by 128, so `length + 1` rounds are enough.
unfoldable pub encode_remaining_length : ℕ → Bytes
unfolding encode_loop
encode_remaining_length length = encode_loop (suc length) length

pub decode_loop : Bytes → ℕ → ℕ → ℕ → MqttResult (ℕ × ℕ)
decode_loop [] i value multiplier = err malformed_remaining_length
decode_loop (byte ∷ buf) i value multiplier =
    let consumed = i + 1 in
    let value' = value + bit_and byte 0x7f * multiplier in
    let more = decode_loop buf (i + 1) value' (multiplier * 128) in
    if ltb max_remaining_length_bytes consumed
    then err malformed_remaining_length
    else if bit_and byte 0x80 == 0
    then ok (value', consumed)
    else more

-- The value and the bytes consumed.
unfoldable pub decode_remaining_length : Bytes → MqttResult (ℕ × ℕ)
unfolding decode_loop
decode_remaining_length buf = decode_loop buf 0 0 1

encode_max : encode_remaining_length 268435455 ≡ 0xff ∷ 0xff ∷ 0xff ∷ 0x7f ∷ []
unfolding encode_remaining_length
encode_max = refl

decode_overlong : decode_remaining_length (0x80 ∷ 0 ∷ 9 ∷ []) ≡ ok (0, 2)
unfolding decode_remaining_length
decode_overlong = refl
