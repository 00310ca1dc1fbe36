-- ===== src/Wire/Read.antt =====
-- The steps that the decoders of mqtt-core/src/v3/codec.rs and mqtt-core/src/v5/codec.rs share. What
-- the source calls `&data[pos..]` is the list of the bytes that are left: `pos += n` drops `n` of
-- them.
use atom_mqtt.Prelude.{
  ℕ, zero, suc, Bool, true, false, not, Option, none, some, List, [], ◌∷◌, length, take, drop, ltb,
  ◌==◌, if◌then◌else◌, bit_and, Bytes, MqttResult, ok, ◌>>=◌,
}
use atom_mqtt.Common.Strings.{decode_string, be16}

-- `(flags & mask) != 0`
abbrev pub has_flag : ℕ → ℕ → Bool
has_flag flags mask = not (bit_and flags mask == 0)

-- `let (s, consumed) = decode_string(&data[pos..])?; pos += consumed;`
unfoldable pub read_string : Bytes → MqttResult (Bytes × Bytes)
read_string data_ = do (s, consumed) ← decode_string data_; ok (s, drop consumed data_)

-- A `u16` at the front, or the error that is given.
unfoldable pub read_u16 : MqttResult (ℕ × Bytes) → Bytes → MqttResult (ℕ × Bytes)
read_u16 short (hi ∷ lo ∷ rest) = ok (be16 hi lo, rest)
read_u16 short _ = short

unfoldable pub read_byte : MqttResult (ℕ × Bytes) → Bytes → MqttResult (ℕ × Bytes)
read_byte short (b ∷ rest) = ok (b, rest)
read_byte short [] = short

-- A 16-bit length and so many bytes, with the errors for a length and for bytes that are not there.
unfoldable pub read_binary :
    MqttResult (ℕ × Bytes) → MqttResult (Bytes × Bytes) → Bytes → MqttResult (Bytes × Bytes)
unfolding read_u16
read_binary short truncated data_ = do
  (len, rest) ← read_u16 short data_
  if ltb (length rest) len then truncated else ok (take len rest, drop len rest)

unfoldable pub read_optional : Bool → Bytes → MqttResult (Option Bytes × Bytes)
read_optional false data_ = ok (none, data_)
read_optional true data_ = do (s, rest) ← read_string data_; ok (some s, rest)

unfoldable pub unwrap_or {ℓ} : {A : Type ℓ} → Option A → A → A
unwrap_or none a = a
unwrap_or (some b) a = b

-- The `while` loop over the filters of an UNSUBSCRIBE, on fuel. Each round takes a byte at least,
-- so the length is fuel enough.
unfoldable pub read_strings : ℕ → Bytes → MqttResult (List Bytes)
read_strings fuel [] = ok []
read_strings zero (b ∷ data_) = ok []
read_strings (suc fuel) (b ∷ data_) = do
  (topic, rest) ← read_string (b ∷ data_)
  topics ← read_strings fuel rest
  ok (topic ∷ topics)
