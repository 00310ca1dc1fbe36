-- ===== src/Common/Strings.antt =====
-- `encode_string` and `decode_string` of mqtt-core/src/common.rs.
pub mod RoundTrip
use atom_mqtt.Prelude.{
  ℕ, zero, suc, ◌+◌, ◌*◌, ◌/◌, ◌%◌, ◌≤◌, ◌<◌, ◌≡◌, refl, Bool, true, false, [], ◌∷◌, ◌++◌, ltb,
  if◌then◌else◌, length, take, drop, Bytes, IsU16, MqttResult, ok, err, invalid, invalid_utf8,
  arith,
}
use atom_mqtt.Common.Utf8.{is_utf8, IsStr}

-- `u16::from_be_bytes([hi, lo])`, which is also `hi << 8 | lo` on two bytes.
abbrev pub be16 : ℕ → ℕ → ℕ
be16 hi lo = hi * 256 + lo

-- `n.to_be_bytes()` for a `u16`
abbrev pub to_be16 : ℕ → Bytes
to_be16 n = n / 256 % 256 ∷ n % 256 ∷ []

unfoldable pub encode_string : Bytes → Bytes
encode_string s = (length s / 256 % 256) ∷ (length s % 256) ∷ s

-- The string with the bytes that it takes up.
unfoldable pub decode_string : Bytes → MqttResult (Bytes × ℕ)
decode_string (hi ∷ lo ∷ s) =
    let len = be16 hi lo in
    if ltb (length s) len
    then invalid "Insufficient data for string"
    else if is_utf8 (take len s)
    then ok (take len s, 2 + len)
    else err invalid_utf8
decode_string _ = invalid "Insufficient data for string length"
