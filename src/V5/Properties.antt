-- ===== src/V5/Properties.antt =====
-- `Properties` of mqtt-core/src/v5/properties.rs, a list of identifiers with values.
pub mod Ids
pub mod RoundTrip
use atom_mqtt.Prelude.{
  ℕ, zero, suc, ◌+◌, ◌*◌, ◌-◌, ◌/◌, ◌%◌, Bool, Option, none, some, List, [], ◌∷◌, ◌++◌, length,
  take, drop, ltb, ◌==◌, if◌then◌else◌, Bytes, MqttResult, ok, ok_or, ◌>>=◌, invalid,
  invalid_packet, unknown_property_id,
}
use atom_mqtt.Common.Strings.{encode_string, decode_string, to_be16, be16}
use atom_mqtt.Common.Length.{encode_remaining_length, decode_remaining_length}
use atom_mqtt.Wire.Read.{read_byte, read_u16}
use atom_mqtt.Wire.Write.{binary_bytes}
use atom_mqtt.V5.Properties.Ids.{
  PropertyId, property_id_to_u8, property_id_from_u8, Kind, kind_of, a_byte, two_bytes, four_bytes,
  a_varint, a_binary, a_string, a_pair, session_expiry_interval, receive_maximum,
  maximum_packet_size, topic_alias_maximum, reason_string, will_delay_interval,
}

pub data PropertyValue : Type 0 where
  byte two_byte_integer four_byte_integer variable_byte_integer : ℕ → PropertyValue
  binary_data utf8_string : Bytes → PropertyValue
  pair : (key value : Bytes) → PropertyValue

-- `Properties`, by its field `inner`.
abbrev pub Properties : Type 0
Properties = List (PropertyId × PropertyValue)

-- `get_first`
unfoldable pub get_first : Properties → PropertyId → Option PropertyValue
get_first [] id = none
get_first ((k, value) ∷ props) id =
    if property_id_to_u8 k == property_id_to_u8 id then some value else get_first props id

-- `get`
unfoldable pub get : Properties → PropertyId → List PropertyValue
get [] id = []
get ((k, value) ∷ props) id =
    if property_id_to_u8 k == property_id_to_u8 id then value ∷ get props id else get props id

-- `add`
unfoldable pub add : Properties → PropertyId → PropertyValue → Properties
add self id value = self ++ (id, value) ∷ []

-- `if let Some(PropertyValue::FourByteInteger(v)) = …`, and so on.
unfoldable pub four_byte : Option PropertyValue → Option ℕ
four_byte (some (four_byte_integer v)) = some v
four_byte _ = none

unfoldable pub two_byte : Option PropertyValue → Option ℕ
two_byte (some (two_byte_integer v)) = some v
two_byte _ = none

unfoldable pub a_text : Option PropertyValue → Option Bytes
a_text (some (utf8_string s)) = some s
a_text _ = none

pub get_session_expiry_interval : Properties → Option ℕ
get_session_expiry_interval self = four_byte (get_first self session_expiry_interval)

pub get_receive_maximum : Properties → Option ℕ
get_receive_maximum self = two_byte (get_first self receive_maximum)

pub get_maximum_packet_size : Properties → Option ℕ
get_maximum_packet_size self = four_byte (get_first self maximum_packet_size)

pub get_topic_alias_maximum : Properties → Option ℕ
get_topic_alias_maximum self = two_byte (get_first self topic_alias_maximum)

pub get_reason_string : Properties → Option Bytes
get_reason_string self = a_text (get_first self reason_string)

unfoldable pub get_will_delay_interval : Properties → Option ℕ
get_will_delay_interval self = four_byte (get_first self will_delay_interval)

-- `v.to_be_bytes()` of a `u32`
abbrev pub to_be32 : ℕ → Bytes
to_be32 v = v / 16777216 % 256 ∷ v / 65536 % 256 ∷ v / 256 % 256 ∷ v % 256 ∷ []

-- `u32::from_be_bytes`
abbrev pub be32 : ℕ → ℕ → ℕ → ℕ → ℕ
be32 a b c d = ((a * 256 + b) * 256 + c) * 256 + d

unfoldable pub value_bytes : PropertyValue → Bytes
value_bytes (byte v) = v ∷ []
value_bytes (two_byte_integer v) = to_be16 v
value_bytes (four_byte_integer v) = to_be32 v
value_bytes (variable_byte_integer v) = encode_remaining_length v
value_bytes (binary_data v) = binary_bytes v
value_bytes (utf8_string s) = encode_string s
value_bytes (pair key value) = encode_string key ++ encode_string value

-- The `for` loop of `encode`.
unfoldable pub inner_bytes : Properties → Bytes
inner_bytes [] = []
inner_bytes ((id, value) ∷ props) = property_id_to_u8 id ∷ (value_bytes value ++ inner_bytes props)

-- `Properties::encode`
unfoldable pub encode_properties : Properties → Bytes
encode_properties self = let buf = inner_bytes self in encode_remaining_length (length buf) ++ buf

-- A reader is given the bytes that are left and how many of them belong to the properties
-- (`end - pos`, which stops at 0); it returns a value and what is left of both.
abbrev pub Reader : Type 0
Reader = ℕ → Bytes → MqttResult (PropertyValue × ℕ × Bytes)

abbrev truncated {ℓ} : {A : Type ℓ} → MqttResult A
truncated = invalid "Property data truncated"

unfoldable pub read_a_byte : Reader
unfolding read_byte
read_a_byte left data_ =
    if ltb left 1
    then truncated
    else (do (v, rest) ← read_byte truncated data_; ok (byte v, left - 1, rest))

unfoldable pub read_two_bytes : Reader
unfolding read_u16
read_two_bytes left data_ =
    if ltb left 2
    then truncated
    else (do (v, rest) ← read_u16 truncated data_; ok (two_byte_integer v, left - 2, rest))

unfoldable pub read_four_bytes : Reader
read_four_bytes left (a ∷ b ∷ c ∷ d ∷ rest) =
    if ltb left 4 then truncated else ok (four_byte_integer (be32 a b c d), left - 4, rest)
read_four_bytes left _ = truncated

unfoldable pub read_a_varint : Reader
read_a_varint left data_ = do
  (v, consumed) ← decode_remaining_length data_
  ok (variable_byte_integer v, left - consumed, drop consumed data_)

unfoldable pub read_a_binary : Reader
unfolding read_u16
read_a_binary left data_ = if ltb left 2 then truncated else (do
  (len, rest) ← read_u16 truncated data_
  if ltb (left - 2) len
      then invalid "Binary property truncated"
      else ok (binary_data (take len rest), left - 2 - len, drop len rest))

unfoldable pub read_a_string : Reader
read_a_string left data_ = do
  (s, consumed) ← decode_string data_
  ok (utf8_string s, left - consumed, drop consumed data_)

unfoldable pub read_a_pair : Reader
read_a_pair left data_ = do
  (key, consumed) ← decode_string data_
  (value, consumed') ← decode_string (drop consumed data_)
  ok (pair key value, left - consumed - consumed', drop consumed' (drop consumed data_))

unfoldable pub read_kind : Kind → Reader
unfolding read_a_byte read_two_bytes read_four_bytes read_a_varint read_a_binary read_a_string
    read_a_pair
read_kind a_byte = read_a_byte
read_kind two_bytes = read_two_bytes
read_kind four_bytes = read_four_bytes
read_kind a_varint = read_a_varint
read_kind a_binary = read_a_binary
read_kind a_string = read_a_string
read_kind a_pair = read_a_pair

-- The `while` loop, on fuel. A string may reach past the end of the properties, and the loop stops
-- then. As long as bytes belong to the properties there are bytes.
unfoldable pub read_properties : ℕ → ℕ → Bytes → MqttResult Properties
read_properties fuel zero data_ = ok []
read_properties zero (suc left) data_ = ok []
read_properties (suc fuel) (suc left) [] = ok []
read_properties (suc fuel) (suc left) (id_byte ∷ data_) = do
  id ← ok_or (property_id_from_u8 id_byte) (invalid_packet (unknown_property_id id_byte))
  (value, left', rest) ← read_kind (kind_of id) left data_
  props ← read_properties fuel left' rest
  ok ((id, value) ∷ props)

-- `Properties::decode`, with the bytes consumed. Each round takes an identifier, so the length of
-- the properties is fuel enough.
unfoldable pub decode_properties : Bytes → MqttResult (Properties × ℕ)
decode_properties [] = ok ([], 0)
decode_properties (b ∷ data_) = do
  (props_len, len_bytes) ← decode_remaining_length (b ∷ data_)
  if props_len == 0
      then ok ([], len_bytes)
      else if ltb (length (b ∷ data_)) (len_bytes + props_len)
      then invalid "Properties data truncated"
      else (do
        props ← read_properties props_len props_len (drop len_bytes (b ∷ data_))
        ok (props, len_bytes + props_len))
