-- ===== src/Wire/Fields.antt =====
-- The fields that packets of both versions hold, read back.
use atom_mqtt.Prelude.{
  ℕ, zero, suc, ◌+◌, ◌/◌, ◌%◌, ◌≤◌, ◌<◌, ◌≡◌, refl, ap, ◌∙◌, Option, none, some, List, [], ◌∷◌,
  ◌++◌, length, length-append, drop, drop-append, take-append, All, Bytes, IsU16, MqttResult, ok,
  ◌>>=◌, arith, le→ltb,
}
use atom_mqtt.Common.{Qos, qos_to_u8, qos_from_u8}
use atom_mqtt.Common.Utf8.{IsStr}
use atom_mqtt.Common.Strings.{encode_string, to_be16, be16}
use atom_mqtt.Common.Strings.RoundTrip.{decode-encode_string}
use atom_mqtt.Wire.Read.{read_string, read_u16, read_binary, read_optional, read_strings}
use atom_mqtt.Wire.Write.{is_some, optional_bytes, string_bytes}

-- A string that a packet may hold: valid UTF-8, and short enough for its 16-bit length.
pub record Fits (s : Bytes) : Type 0 where
  pub short : IsU16 (length s)
  pub valid : IsStr s

pub drop_encoded : (s rest : Bytes) → drop (suc (suc (length s))) (encode_string s ++ rest) ≡ rest
unfolding encode_string
drop_encoded s rest = drop-append s rest

pub read-encode_string :
    (s rest : Bytes) → Fits s → read_string (encode_string s ++ rest) ≡ ok (s, rest)
unfolding read_string
read-encode_string s rest h =
    let two : 2 + length s ≡ suc (suc (length s)) = omega arith in
    rw (decode-encode_string s rest h.short h.valid) (rw two (rw (drop_encoded s rest)))

pub be16_to_be16 : (n : ℕ) → IsU16 n → be16 (n / 256 % 256) (n % 256) ≡ n
be16_to_be16 n h = omega arith

pub read-u16 :
    (short : MqttResult (ℕ × Bytes)) (n : ℕ) (rest : Bytes)
    → IsU16 n
    → read_u16 short (to_be16 n ++ rest) ≡ ok (n, rest)
unfolding read_u16
read-u16 short n rest h = rw (be16_to_be16 n h)

pub qos_code : (q : Qos) → qos_from_u8 (qos_to_u8 q % 4) ≡ some q
unfolding qos_from_u8 qos_to_u8
qos_code Qos.at_most_once = refl
qos_code Qos.at_least_once = refl
qos_code Qos.exactly_once = refl

-- `Option::Some` of such a string, or nothing.
abbrev pub OptionFits : Option Bytes → Type 0
OptionFits none = Unit
OptionFits (some s) = Fits s

pub read-optional :
    (o : Option Bytes) (rest : Bytes)
    → OptionFits o
    → read_optional (is_some o) (optional_bytes o ++ rest) ≡ ok (o, rest)
unfolding read_optional optional_bytes
read-optional none rest h = refl
read-optional (some s) rest h = rw (read-encode_string s rest h)

pub read-binary :
    (short : MqttResult (ℕ × Bytes)) (truncated : MqttResult (Bytes × Bytes)) (m rest : Bytes)
    → IsU16 (length m)
    → read_binary short truncated (to_be16 (length m % 65536) ++ (m ++ rest)) ≡ ok (m, rest)
unfolding read_binary
read-binary short truncated m rest h =
    let size : length m % 65536 ≡ length m = omega arith in
    rw size (
      rw (be16_to_be16 (length m) h) (
        rw (le→ltb (length (m ++ rest)) (length m) (omega (arith, length-append m rest)))
          (rw (take-append m rest, drop-append m rest))))

length-string_bytes :
    (s : Bytes) (ss : List Bytes) → length (string_bytes ss) < length (string_bytes (s ∷ ss))
unfolding string_bytes encode_string
length-string_bytes s ss = rw length-append (omega arith)

read_strings_step :
    (fuel : ℕ) (s rest : Bytes)
    → Fits s
    → read_strings (suc fuel) (encode_string s ++ rest)
      ≡ (read_strings fuel rest >>= λ topics. ok (s ∷ topics))
unfolding read_strings encode_string
read_strings_step fuel s rest h = rw (read-encode_string s rest h)

pub read_strings-string_bytes :
    (ss : List Bytes) (fuel : ℕ)
    → All Fits ss
    → length (string_bytes ss) ≤ fuel
    → read_strings fuel (string_bytes ss) ≡ ok ss
unfolding string_bytes
read_strings-string_bytes [] fuel h le = unfold read_strings in refl
read_strings-string_bytes (s ∷ ss) zero h le = absurd (omega (arith, length-string_bytes s ss))
read_strings-string_bytes (s ∷ ss) (suc fuel) h le =
    read_strings_step fuel s (string_bytes ss) h.0
    ∙ ap (λ m. m >>= λ topics. ok (s ∷ topics))
        (read_strings-string_bytes ss fuel h.1 (omega (arith, length-string_bytes s ss)))
