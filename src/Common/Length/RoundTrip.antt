-- ===== src/Common/Length/RoundTrip.antt =====
-- The variable-length code of mqtt-core/src/common.rs read back.
use atom_mqtt.Prelude.{
  ℕ, zero, suc, ◌+◌, ◌*◌, ◌/◌, ◌%◌, ◌^◌, ◌≤◌, ◌<◌, ◌≡◌, ap, ap₂, ◌∙◌, [], ◌∷◌, ◌++◌, ltb, length,
  Bytes, ok, err, malformed_remaining_length, arith, bit_and_low7, bit_and_top, bit_or_top,
  Bool-cases, inl, inr,
}
use atom_mqtt.Common.Length.{
  encode_loop, encode_remaining_length, decode_loop, decode_remaining_length,
}
use atom_mqtt.Common.Length.Decode.{decode_stops, power_pos}

-- Any fuel above the length gives the same code.
encode_loop_fuel : (f g n : ℕ) → n < f → n < g → encode_loop f n ≡ encode_loop g n
unfolding encode_loop
encode_loop_fuel zero g n hf hg = absurd (omega arith)
encode_loop_fuel (suc f) zero n hf hg = absurd (omega arith)
encode_loop_fuel (suc f) (suc g) n hf hg = ground (arith, encode_loop_fuel f g (n / 128))

pub encode_last : (n : ℕ) → n < 128 → encode_remaining_length n ≡ n ∷ []
unfolding encode_remaining_length
encode_last n h = ground arith

pub encode_more :
    (n : ℕ)
    → 128 ≤ n
    → encode_remaining_length n ≡ (n % 128 + 128) ∷ encode_remaining_length (n / 128)
unfolding encode_remaining_length
encode_more n h = ground (arith, bit_or_top (n % 128), encode_loop_fuel n (suc (n / 128)) (n / 128))

-- One round of the decoder, at a byte that ends the number and at one that does not.
decode_last :
    (b i v m : ℕ) (rest : Bytes)
    → b < 128
    → i < 4
    → decode_loop (b ∷ rest) i v m ≡ ok (v + b * m, i + 1)
unfolding decode_loop
decode_last b i v m rest hb hi = ground (arith, bit_and_low7 b, bit_and_top b)

decode_more :
    (b i v m : ℕ) (rest : Bytes)
    → b < 128
    → i < 4
    → decode_loop ((b + 128) ∷ rest) i v m ≡ decode_loop rest (i + 1) (v + b * m) (m * 128)
unfolding decode_loop
decode_more b i v m rest hb hi = ground (arith, bit_and_low7 (b + 128), bit_and_top (b + 128))

-- The groups of a number weigh what the number weighs.
group_weight : (n v m : ℕ) → (v + n % 128 * m) + n / 128 * (m * 128) ≡ v + n * m
group_weight n v m =
    let whole : n / 128 * 128 + n % 128 ≡ n = omega arith in
    omega (arith, ap (λ (t : ℕ). t * m) whole)

decode-encode_loop :
    (k n i v m : ℕ) (rest : Bytes)
    → n < 128 ^ suc k
    → i + k < 4
    → decode_loop (encode_remaining_length n ++ rest) i v m
      ≡ ok (v + n * m, i + length (encode_remaining_length n))
decode-encode_loop zero n i v m rest h hi =
    rw (encode_last n (omega arith)) (decode_last n i v m rest (omega arith) (omega arith))
decode-encode_loop (suc k) n i v m rest h hi = elim (Bool-cases (ltb n 128)) [
  | inl small ↦
      rw (encode_last n (ground arith)) (decode_last n i v m rest (ground arith) (omega arith))
  | inr large ↦ rw (encode_more n (ground arith)) (
      decode_more (n % 128) i v m (encode_remaining_length (n / 128) ++ rest) (omega arith)
        (omega arith)
      ∙ decode-encode_loop k (n / 128) (i + 1) (v + n % 128 * m) (m * 128) rest (omega arith)
          (omega arith)
      ∙ ap₂ (λ (a b : ℕ). ok (a, b)) (group_weight n v m) (omega arith))
]

-- Every remaining length of at most 28 bits is read back, whatever bytes follow, and the decoder
-- consumes exactly the bytes that the encoder wrote.
pub decode-encode_remaining_length :
    (n : ℕ) (rest : Bytes)
    → n < 268435456
    → decode_remaining_length (encode_remaining_length n ++ rest)
      ≡ ok (n, length (encode_remaining_length n))
unfolding decode_remaining_length
decode-encode_remaining_length n rest h =
    decode-encode_loop 3 n 0 0 1 rest (omega arith) (omega arith)
    ∙ ap₂ (λ (a b : ℕ). ok (a, b)) (omega arith) (omega arith)

length-encode_loop :
    (k n : ℕ)
    → n < 128 ^ suc k
    → (1 ≤ length (encode_remaining_length n)) × (length (encode_remaining_length n) ≤ k + 1)
length-encode_loop zero n h = rw (encode_last n (omega arith)) (omega arith)
length-encode_loop (suc k) n h = elim (Bool-cases (ltb n 128)) [
  | inl small ↦ rw (encode_last n (ground arith)) (omega arith)
  | inr large ↦
      rw (encode_more n (ground arith))
        (omega (arith, length-encode_loop k (n / 128) (omega arith)))
]

-- A length of at most 28 bits takes one to four bytes.
pub length-encode_remaining_length :
    (n : ℕ)
    → n < 268435456
    → (1 ≤ length (encode_remaining_length n)) × (length (encode_remaining_length n) ≤ 4)
length-encode_remaining_length n h = length-encode_loop 3 n (omega arith)

decode_too_long :
    (k n i v m : ℕ) (rest : Bytes)
    → 128 ^ suc k ≤ n
    → i + k ≡ 3
    → decode_loop (encode_remaining_length n ++ rest) i v m ≡ err malformed_remaining_length
decode_too_long zero n i v m rest h hi = rw (encode_more n (omega arith)) (
    decode_more (n % 128) i v m (encode_remaining_length (n / 128) ++ rest) (omega arith)
      (omega arith)
    ∙ decode_stops (encode_remaining_length (n / 128) ++ rest) (i + 1) _ _ (omega arith))
decode_too_long (suc k) n i v m rest h hi =
    let big : 128 ≤ n = omega (arith, power_pos k) in
    rw (encode_more n big) (
      decode_more (n % 128) i v m (encode_remaining_length (n / 128) ++ rest) (omega arith)
        (omega arith)
      ∙ decode_too_long k (n / 128) (i + 1) _ _ rest (omega arith) (omega arith))

-- What the encoder writes for a length of more than 28 bits is refused by the decoder.
pub decode-encode_too_long :
    (n : ℕ) (rest : Bytes)
    → 268435456 ≤ n
    → decode_remaining_length (encode_remaining_length n ++ rest) ≡ err malformed_remaining_length
unfolding decode_remaining_length
decode-encode_too_long n rest h = decode_too_long 3 n 0 0 1 rest (omega arith) (omega arith)
