-- ===== src/V5/Properties/RoundTrip.antt =====
-- `Properties::encode` and `Properties::decode` of mqtt-core/src/v5/properties.rs, one after the other.
use atom_mqtt.Prelude.{
  ℕ, zero, suc, ◌+◌, ◌-◌, ◌/◌, ◌%◌, ◌≤◌, ◌<◌, ◌≡◌, refl, sym, ap, ap₂, ◌∙◌, [], ◌∷◌, ◌++◌,
  append_assoc, length, length-append, drop, drop-append, take-append, All, Bytes, IsByte, IsU16,
  ok, ◌>>=◌, le→ltb, arith,
}
use atom_mqtt.Common.Strings.{encode_string, decode_string}
use atom_mqtt.Common.Strings.RoundTrip.{decode-encode_string}
use atom_mqtt.Common.Length.{encode_remaining_length, decode_remaining_length}
use atom_mqtt.Common.Length.RoundTrip.{
  decode-encode_remaining_length, length-encode_remaining_length,
}
use atom_mqtt.Wire.Fields.{Fits, be16_to_be16}
use atom_mqtt.V5.Properties.Ids.{
  PropertyId, Kind, kind_of, property_id_from-to, a_byte, two_bytes, four_bytes, a_varint, a_binary,
  a_string, a_pair, property_id_to_u8,
}
use atom_mqtt.V5.Properties.{
  Properties, PropertyValue, byte, two_byte_integer, four_byte_integer, variable_byte_integer,
  binary_data, utf8_string, pair, be32, value_bytes, inner_bytes, encode_properties, read_kind,
  read_properties, decode_properties,
}

-- The value is of the kind that its identifier asks for, and fits its place on the wire.
abbrev pub ValueFits : Kind → PropertyValue → Type 0
ValueFits a_byte (byte v) = IsByte v
ValueFits two_bytes (two_byte_integer v) = IsU16 v
ValueFits four_bytes (four_byte_integer v) = v < 4294967296
ValueFits a_varint (variable_byte_integer v) = v < 268435456
ValueFits a_binary (binary_data v) = IsU16 (length v)
ValueFits a_string (utf8_string s) = Fits s
ValueFits a_pair (pair key value) = Fits key × Fits value
ValueFits _ _ = ⊥

abbrev pub PropertyFits : PropertyId × PropertyValue → Type 0
PropertyFits p = ValueFits (kind_of p.0) p.1

be32_to_be32 :
    (v : ℕ)
    → v < 4294967296
    → be32 (v / 16777216 % 256) (v / 65536 % 256) (v / 256 % 256) (v % 256) ≡ v
be32_to_be32 v h = omega arith

decode-string :
    (s rest : Bytes) → Fits s → decode_string (encode_string s ++ rest) ≡ ok (s, 2 + length s)
decode-string s rest h = decode-encode_string s rest h.short h.valid

length-encode_string : (s : Bytes) → length (encode_string s) ≡ 2 + length s
unfolding encode_string
length-encode_string s = omega arith

read-string-bytes :
    (s rest : Bytes)
    → Fits s
    → (decode_string (encode_string s ++ rest) ≡ ok (s, length (encode_string s)))
      × (drop (length (encode_string s)) (encode_string s ++ rest) ≡ rest)
read-string-bytes s rest h = (
  decode-string s rest h ∙ ap (λ n. ok (s, n)) (sym (length-encode_string s)),
  drop-append (encode_string s) rest,
)

-- A value is read back, and what is left of the properties is less by its bytes.
read_kind-value_bytes :
    (k : Kind) (value : PropertyValue) (left : ℕ) (rest : Bytes)
    → ValueFits k value
    → length (value_bytes value) ≤ left
    → read_kind k left (value_bytes value ++ rest)
      ≡ ok (value, left - length (value_bytes value), rest)
unfolding read_kind value_bytes
read_kind-value_bytes a_byte (byte v) left rest h le = rw (le→ltb left 1 le) refl
read_kind-value_bytes two_bytes (two_byte_integer v) left rest h le =
    rw (le→ltb left 2 le) (rw (be16_to_be16 v h))
read_kind-value_bytes four_bytes (four_byte_integer v) left rest h le =
    rw (le→ltb left 4 le) (rw (be32_to_be32 v h))
read_kind-value_bytes a_varint (variable_byte_integer v) left rest h le =
    rw (decode-encode_remaining_length v rest h) (rw (drop-append (encode_remaining_length v) rest))
read_kind-value_bytes a_binary (binary_data v) left rest h le =
    let size : length v % 65536 ≡ length v = omega arith in
    let room : 2 ≤ left = omega arith in
    rw size (
      rw (le→ltb left 2 room) (
        rw (be16_to_be16 (length v) h) (
          rw (le→ltb (left - 2) (length v) (omega arith)) (
            rw (take-append v rest, drop-append v rest)
              (ap (λ n. ok (binary_data v, n, rest)) (omega arith))))))
read_kind-value_bytes a_string (utf8_string s) left rest h le =
    let r = read-string-bytes s rest h in rw (r.0) (rw (r.1))
read_kind-value_bytes a_pair (pair key value) left rest h le =
    let first = read-string-bytes key (encode_string value ++ rest) h.0 in
    let second = read-string-bytes value rest h.1 in
    rw (append_assoc (encode_string key) (encode_string value) rest) (
      rw (first.0) (
        rw (first.1) (
          rw (second.0) (
            rw (second.1) (
              ap (λ n. ok (pair key value, n, rest))
                (omega (arith, length-append (encode_string key) (encode_string value))))))))
read_kind-value_bytes k value left rest h le = absurd h

read_properties_step :
    (fuel left : ℕ) (id : PropertyId) (value : PropertyValue) (rest : Bytes)
    → PropertyFits (id, value)
    → length (value_bytes value) ≤ left
    → read_properties (suc fuel) (suc left) (property_id_to_u8 id ∷ (value_bytes value ++ rest)) ≡ (
        read_properties fuel (left - length (value_bytes value)) rest >>= λ props.
        ok ((id, value) ∷ props))
unfolding read_properties
read_properties_step fuel left id value rest h le =
    rw (property_id_from-to id) (rw (read_kind-value_bytes (kind_of id) value left rest h le))

read_properties-inner_bytes :
    (props : Properties) (fuel : ℕ) (rest : Bytes)
    → All PropertyFits props
    → length (inner_bytes props) ≤ fuel
    → read_properties fuel (length (inner_bytes props)) (inner_bytes props ++ rest) ≡ ok props
unfolding inner_bytes
read_properties-inner_bytes [] fuel rest h le = unfold read_properties in refl
read_properties-inner_bytes ((id, value) ∷ props) zero rest h le = absurd (omega arith)
read_properties-inner_bytes ((id, value) ∷ props) (suc fuel) rest h le =
    let bytes : Bytes = value_bytes value in
    let later : Bytes = inner_bytes props in
    let both = length-append bytes later in
    let tail : length (bytes ++ later) - length bytes ≡ length later = omega (arith, both) in
    rw (append_assoc bytes later rest) (
      rw
        (read_properties_step fuel (length (bytes ++ later)) id value (later ++ rest) h.0
          (omega (arith, both)))
        (rw tail (rw (read_properties-inner_bytes props fuel rest h.1 (omega (arith, both))) refl)))

-- Properties that a packet may hold: each value is of its identifier's kind, and all of them
-- together are short enough for their length.
pub record PropertiesFit (props : Properties) : Type 0 where
  pub each : All PropertyFits props
  pub small : length (inner_bytes props) < 268435456

decode_properties_from :
    (n : ℕ) (code inner rest : Bytes) (props : Properties)
    → 1 ≤ length code
    → decode_remaining_length (code ++ (inner ++ rest)) ≡ ok (n, length code)
    → length inner ≡ n
    → read_properties n n (inner ++ rest) ≡ ok props
    → decode_properties (code ++ (inner ++ rest)) ≡ ok (props, length code + n)
unfolding decode_properties
decode_properties_from n [] inner rest props h e size loop = absurd (omega arith)
decode_properties_from zero (c ∷ code) inner rest props h e size loop =
    let none_left : [] ≡ props = unfold read_properties in cc in
    rw e (ap₂ (λ ps k. ok (ps, k)) none_left (omega arith))
decode_properties_from (suc n) (c ∷ code) inner rest props h e size loop =
    let data_ : Bytes = c ∷ (code ++ (inner ++ rest)) in
    let all_there : length (c ∷ code) + suc n ≤ length data_ =
      omega (arith, length-append code (inner ++ rest), length-append inner rest) in
    rw e (
      rw (le→ltb (length data_) (length (c ∷ code) + suc n) all_there)
        (rw (drop-append (c ∷ code) (inner ++ rest)) (rw loop (ground arith))))

-- Properties are read back whatever bytes follow, and the decoder consumes exactly the bytes
-- written, where each value is of its identifier's kind and they are short enough together.
pub decode-encode_properties :
    (props : Properties) (rest : Bytes)
    → PropertiesFit props
    → decode_properties (encode_properties props ++ rest)
      ≡ ok (props, length (encode_properties props))
unfolding encode_properties
decode-encode_properties props rest h =
    let inner : Bytes = inner_bytes props in
    let n : ℕ = length inner in
    let code : Bytes = encode_remaining_length n in
    let (low, _) = length-encode_remaining_length n h.small in
    rw (append_assoc code inner rest) (
      rw
        (decode_properties_from n code inner rest props low
          (decode-encode_remaining_length n (inner ++ rest) h.small) refl
          (read_properties-inner_bytes props n rest h.each (omega arith)))
        (ap (λ k. ok (props, k)) (sym (length-append code inner))))
