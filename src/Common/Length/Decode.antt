-- ===== src/Common/Length/Decode.antt =====
-- `decode_remaining_length` on any bytes.
use atom_mqtt.Prelude.{
  ℕ, zero, suc, ◌+◌, ◌*◌, ◌≤◌, ◌<◌, ◌≡◌, refl, ap, [], ◌∷◌, ◌++◌, length, Bytes, bit_and, ok, err,
  malformed_remaining_length, ◌^◌, arith, bit_and_low7, IsByte, All,
}
use atom_mqtt.Common.Length.{decode_loop, decode_remaining_length}

-- The decoder reads no fifth byte.
pub decode_stops :
    (buf : Bytes) (i v m : ℕ) → 4 ≤ i → decode_loop buf i v m ≡ err malformed_remaining_length
unfolding decode_loop
decode_stops [] i v m h = refl
decode_stops (b ∷ buf) i v m h = ground arith

decode_loop_bounds :
    (buf : Bytes) (i v m w c : ℕ)
    → decode_loop buf i v m ≡ ok (w, c)
    → (i + 1 ≤ c) × (c ≤ 4) × (c ≤ i + length buf)
unfolding decode_loop
decode_loop_bounds [] i v m w c h = cc
decode_loop_bounds (b ∷ buf) i v m w c h =
    ground (arith, decode_loop_bounds buf (i + 1) (v + bit_and b 0x7f * m) (m * 128) w c)

-- A group of seven bits on top of a value below the weight `m` stays below `128 * m`.
group_fits : (x v m : ℕ) → x < 128 → v < m → v + x * m < m * 128
group_fits x v m hx hv = grind arith

shift_weight : (k m top : ℕ) → m * 128 ^ suc k ≡ top → m * 128 * 128 ^ k ≡ top
shift_weight k m top h =
    let next : 128 ^ suc k ≡ 128 ^ k * 128 = omega arith in
    omega (arith, ap (λ (t : ℕ). m * t) next)

pub power_pos : (k : ℕ) → 1 ≤ 128 ^ k
power_pos zero = omega arith
power_pos (suc k) = omega (arith, power_pos k)

weight_le : (k m top : ℕ) → m * 128 * 128 ^ k ≡ top → m * 128 ≤ top
weight_le k m top h = grind (arith, power_pos k)

-- `k` bytes may still be read: the value is below their weight all the way.
decode_loop-lt :
    (k : ℕ) (buf : Bytes) (i v m w c : ℕ)
    → All IsByte buf
    → v < m
    → m * 128 ^ k ≡ 268435456
    → i + k ≡ 4
    → decode_loop buf i v m ≡ ok (w, c)
    → w < 268435456
unfolding decode_loop
decode_loop-lt k [] i v m w c hb hv hm hi h = cc
decode_loop-lt zero (b ∷ buf) i v m w c hb hv hm hi h = ground arith
decode_loop-lt (suc k) (b ∷ buf) i v m w c hb hv hm hi h =
    let x = bit_and b 0x7f in
    let hx : x < 128 = omega (arith, bit_and_low7 b hb.0) in
    let hv' : v + x * m < m * 128 = group_fits x v m hx hv in
    let hm' : m * 128 * 128 ^ k ≡ 268435456 = shift_weight k m _ hm in
    ground (
      arith,
      weight_le k m _ hm',
      decode_loop-lt k buf (i + 1) (v + x * m) (m * 128) w c hb.1 hv' hm',
    )

-- A remaining length that is read takes one to four bytes, all of them in the buffer, and is less
-- than 2^28.
pub decode_remaining_length_bounds :
    (buf : Bytes) (n consumed : ℕ)
    → All IsByte buf
    → decode_remaining_length buf ≡ ok (n, consumed)
    → (1 ≤ consumed) × (consumed ≤ 4) × (consumed ≤ length buf) × (n < 268435456)
unfolding decode_remaining_length
decode_remaining_length_bounds buf n consumed hb h =
    let (low, high, within) = decode_loop_bounds buf 0 0 1 n consumed h in
    (
      low,
      high,
      omega arith,
      decode_loop-lt 4 buf 0 0 1 n consumed hb (omega arith) (omega arith) (omega arith) h,
    )

decode_loop-append :
    (buf more : Bytes) (i v m w c : ℕ)
    → decode_loop buf i v m ≡ ok (w, c)
    → decode_loop (buf ++ more) i v m ≡ ok (w, c)
unfolding decode_loop
decode_loop-append [] more i v m w c h = cc
decode_loop-append (b ∷ buf) more i v m w c h =
    ground (arith, decode_loop-append buf more (i + 1) (v + bit_and b 0x7f * m) (m * 128) w c)

-- A remaining length that is read stays the same when more bytes arrive behind it.
pub decode_remaining_length-append :
    (buf more : Bytes) (n consumed : ℕ)
    → decode_remaining_length buf ≡ ok (n, consumed)
    → decode_remaining_length (buf ++ more) ≡ ok (n, consumed)
unfolding decode_remaining_length
decode_remaining_length-append buf more n consumed h =
    decode_loop-append buf more 0 0 1 n consumed h
