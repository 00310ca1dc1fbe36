-- ===== src/Wire/Write.antt =====
-- The steps that the encoders of mqtt-core/src/v3/codec.rs and mqtt-core/src/v5/codec.rs share.
use atom_mqtt.Prelude.{
  ℕ, ◌*◌, ◌%◌, Bool, true, false, Option, none, some, List, [], ◌∷◌, ◌++◌, length, if◌then◌else◌,
  bit_or, Bytes,
}
use atom_mqtt.Common.{Qos, qos_to_u8}
use atom_mqtt.Common.Strings.{encode_string, to_be16}
use atom_mqtt.Common.Length.{encode_remaining_length}

abbrev pub is_some {ℓ} : {A : Type ℓ} → Option A → Bool
is_some none = false
is_some (some a) = true

-- `if b { flags |= mask; }`
abbrev pub or_if : Bool → ℕ → ℕ → ℕ
or_if b mask flags = if b then bit_or flags mask else flags

-- The fixed header, the remaining length and what it counts.
abbrev pub frame : ℕ → Bytes → Bytes
frame header remaining = header ∷ (encode_remaining_length (length remaining) ++ remaining)

-- A packet without a body.
abbrev pub encode_empty : ℕ → Bytes
encode_empty header = header ∷ 0x00 ∷ []

-- What the QoS and the retain flag of a will add to the flags of a CONNECT.
unfoldable pub will_flags : Option (Qos × Bool) → ℕ → ℕ
will_flags none flags = flags
will_flags (some (qos, retain)) flags =
    or_if retain 0x20 (bit_or (bit_or flags 0x04) (qos_to_u8 qos * 8))

-- The flags of a CONNECT with their parts: username, password, clean session and will.
unfoldable pub flag_byte : Bool → Bool → Bool → Option (Qos × Bool) → ℕ
unfolding will_flags qos_to_u8
flag_byte username password clean will =
    or_if username 0x80 (or_if password 0x40 (will_flags will (or_if clean 0x02 0)))

-- `(bytes.len() as u16).to_be_bytes()`, which wraps, and the bytes.
abbrev pub binary_bytes : Bytes → Bytes
binary_bytes bytes = to_be16 (length bytes % 65536) ++ bytes

unfoldable pub optional_bytes : Option Bytes → Bytes
optional_bytes none = []
optional_bytes (some s) = encode_string s

unfoldable pub string_bytes : List Bytes → Bytes
string_bytes [] = []
string_bytes (filter ∷ filters) = encode_string filter ++ string_bytes filters
