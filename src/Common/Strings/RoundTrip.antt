-- ===== src/Common/Strings/RoundTrip.antt =====
-- The length-prefixed strings of mqtt-core/src/common.rs read back.
use atom_mqtt.Prelude.{
  ℕ, suc, ◌+◌, ◌/◌, ◌%◌, ◌≤◌, ◌≡◌, ◌≢◌, refl, sym, ap, ◌∙◌, true, [], ◌∷◌, ◌++◌, length,
  length-append, take, drop, take-append, length-take, Bytes, IsByte, IsU16, All, ok, arith, le→ltb,
  take-append-drop,
}
use atom_mqtt.Common.Utf8.{is_utf8, IsStr}
use atom_mqtt.Common.Strings.{be16, encode_string, decode_string}

-- A string of at most 65535 bytes is read back, whatever bytes follow.
pub decode-encode_string :
    (s rest : Bytes)
    → IsU16 (length s)
    → IsStr s
    → decode_string (encode_string s ++ rest) ≡ ok (s, 2 + length s)
unfolding decode_string encode_string
decode-encode_string s rest h valid =
    let n : be16 (length s / 256 % 256) (length s % 256) ≡ length s = omega arith in
    rw n (
      rw (le→ltb (length (s ++ rest)) (length s) (omega (arith, length-append s rest)))
        (rw (take-append s rest) (rw valid)))

-- The branches of the decoder on a buffer that holds a length.
pub decode_string_parts :
    (hi lo : ℕ) (t s : Bytes) (c n : ℕ)
    → be16 hi lo ≡ n
    → decode_string (hi ∷ lo ∷ t) ≡ ok (s, c)
    → (n ≤ length t) × (take n t ≡ s) × (is_utf8 (take n t) ≡ true) × (c ≡ suc (suc n))
unfolding decode_string
decode_string_parts hi lo t s c n e h = ground arith

header :
    (hi lo n : ℕ)
    → IsByte hi
    → IsByte lo
    → be16 hi lo ≡ n
    → IsU16 n × (n / 256 % 256 ≡ hi) × (n % 256 ≡ lo)
header hi lo n hh hl e = (omega arith, omega arith, omega arith)

-- A successful read returns valid UTF-8 of at most 65535 bytes, and the buffer is the encoding of
-- that string followed by the bytes that were not consumed.
pub encode-decode_string :
    (buf s : Bytes) (consumed : ℕ)
    → All IsByte buf
    → decode_string buf ≡ ok (s, consumed)
    → IsStr s
      × IsU16 (length s)
      × (consumed ≡ 2 + length s)
      × (encode_string s ++ drop consumed buf ≡ buf)
encode-decode_string [] s c hb h = unfold decode_string in cc
encode-decode_string (hi ∷ []) s c hb h = unfold decode_string in cc
encode-decode_string (hi ∷ lo ∷ t) s c hb h =
    let (fits, same, valid, taken) = decode_string_parts hi lo t s c (be16 hi lo) refl h in
    let (small, high, low) = header hi lo (be16 hi lo) hb.0 hb.1.0 refl in
    let size : length s ≡ be16 hi lo = ap length (sym same) ∙ length-take (be16 hi lo) t fits in
    (
      rw same at valid,
      omega arith,
      omega arith,
      unfold encode_string in
          rw (taken, size, high, low)
            (rw (← same) (ap (λ u. hi ∷ lo ∷ u) (take-append-drop (be16 hi lo) t))),
    )

-- A string of more than 65535 bytes is never read back: the length prefix holds 16 bits.
pub decode-encode_string_long :
    (s rest : Bytes) (consumed : ℕ)
    → 65536 ≤ length s
    → decode_string (encode_string s ++ rest) ≢ ok (s, consumed)
unfolding encode_string
decode-encode_string_long s rest consumed h e =
    let n = be16 (length s / 256 % 256) (length s % 256) in
    let (fits, same, _, _) =
      decode_string_parts (length s / 256 % 256) (length s % 256) (s ++ rest) s consumed n refl e in
    let size : length s ≡ n = ap length (sym same) ∙ length-take n (s ++ rest) fits in
    absurd (omega arith)
