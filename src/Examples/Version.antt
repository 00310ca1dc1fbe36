-- ===== src/Examples/Version.antt =====
-- Packets of MQTT 5 and the detection of versions: mqtt-core/src/v5 and mqtt-core/src/codec.rs.
use atom_mqtt.Prelude.{◌≡◌, refl, true, none, some, ◌∷◌, ◌++◌, length, Bytes, codes, ok, arith, []}
use atom_mqtt.Common.{packet_type_from_u8}
use atom_mqtt.Common.Utf8.{is_utf8}
use atom_mqtt.Common.Length.{encode_remaining_length, decode_remaining_length}
use atom_mqtt.Common.Strings.{encode_string, decode_string}
use atom_mqtt.Wire.Fields.{Fits}
use atom_mqtt.Wire.Frame.{decode_packet}
use atom_mqtt.Wire.Write.{flag_byte, optional_bytes}
use atom_mqtt.V3.Types as Types3
use atom_mqtt.V3.Decode as Decode3
use atom_mqtt.V5.Properties.Ids.{
  receive_maximum, user_property, reason_string, kind_of, property_id_from_u8, property_id_to_u8,
}
use atom_mqtt.V5.Properties.{
  Properties, two_byte_integer, utf8_string, pair, value_bytes, inner_bytes, encode_properties,
  read_kind, read_properties, decode_properties,
}
use atom_mqtt.V5.Properties.RoundTrip.{PropertiesFit, decode-encode_properties}
use atom_mqtt.V5.Types.{ConnectPacket}
use atom_mqtt.V5.Types as Types5
use atom_mqtt.V5.Encode.{connect_flags, connect_remaining, packet_bytes, encode_packet}
use atom_mqtt.V5.Decode
use atom_mqtt.V5.Fuel.{read_properties_enough}
use atom_mqtt.V5.RoundTrip.Packets.{PacketFits, decode-encode_packet_v5}
use atom_mqtt.Codec.{v311, v5, decode, encode_framed, encode_any, decode_framed}
use atom_mqtt.Codec.RoundTrip.{decode-encode_framed}

abbrev ab : Bytes
ab = codes "ab"

ab-Fits : Fits ab
unfolding is_utf8
ab-Fits = record { short = omega arith; valid = refl }

abbrev limits : Properties
limits = (receive_maximum, two_byte_integer 10) ∷ (user_property, pair ab ab) ∷ []

limits-PropertiesFit : PropertiesFit limits
unfolding inner_bytes value_bytes encode_string kind_of
limits-PropertiesFit = record {
  each = (omega arith, ((ab-Fits, ab-Fits), tt));
  small = omega arith;
}

decode-encode_properties_example :
    decode_properties (encode_properties limits ++ 9 ∷ [])
    ≡ ok (limits, length (encode_properties limits))
decode-encode_properties_example = decode-encode_properties limits (9 ∷ []) limits-PropertiesFit

abbrev limit_bytes : Bytes
limit_bytes = 33 ∷ 0 ∷ 10 ∷ 7 ∷ []

read_properties_enough_example : read_properties 50 3 limit_bytes ≡ read_properties 3 3 limit_bytes
read_properties_enough_example = read_properties_enough 50 3 limit_bytes (omega arith)

-- The properties have four bytes, and the reason string in them takes five after its identifier.
string_overruns :
    decode_properties (4 ∷ 31 ∷ 0 ∷ 3 ∷ 0x61 ∷ 0x62 ∷ 0x63 ∷ [])
    ≡ ok ((reason_string, utf8_string (codes "abc")) ∷ [], 5)
unfolding decode_properties read_properties read_kind kind_of decode_remaining_length decode_string
    is_utf8 property_id_from_u8
string_overruns = refl

abbrev hello : ConnectPacket
hello = record {
  client_id = ab;
  clean_start = true;
  keep_alive = 60;
  properties = (receive_maximum, two_byte_integer 10) ∷ [];
  will = none;
  username = some ab;
  password = none;
}

abbrev hello_bytes : Bytes
hello_bytes =
    0x10
    ∷ 22
    ∷ 0
    ∷ 4
    ∷ (codes "MQTT"
        ++ 5 ∷ 0x82 ∷ 0 ∷ 60 ∷ 3 ∷ 33 ∷ 0 ∷ 10 ∷ 0 ∷ 2 ∷ 0x61 ∷ 0x62 ∷ 0 ∷ 2 ∷ 0x61 ∷ 0x62 ∷ [])

hello_encoded : encode_packet (Types5.connect hello) ≡ ok hello_bytes
unfolding encode_packet packet_bytes connect_remaining connect_flags flag_byte
    encode_remaining_length encode_string encode_properties inner_bytes value_bytes optional_bytes
    property_id_to_u8
hello_encoded = refl

hello-PacketFits : PacketFits (Types5.connect hello)
unfolding inner_bytes value_bytes kind_of
hello-PacketFits = record {
  client = ab-Fits;
  keep = omega arith;
  properties = record { each = (omega arith, tt); small = omega arith };
  will = tt;
  username = ab-Fits;
  password = tt;
}

decode-encode_packet_v5_example :
    Decode.decode_packet (hello_bytes ++ 9 ∷ [])
    ≡ ok (some (Types5.connect hello, length hello_bytes))
decode-encode_packet_v5_example =
    decode-encode_packet_v5 (Types5.connect hello) hello_bytes (9 ∷ []) hello-PacketFits
      hello_encoded (omega arith)

hello_framed : encode_framed (v5 (Types5.connect hello)) [] ≡ ok hello_bytes
unfolding encode_framed encode_any
hello_framed = rw hello_encoded refl

decode-encode_framed_example :
    decode_framed 100 (hello_bytes ++ 9 ∷ []) ≡ (ok (some (v5 (Types5.connect hello))), 9 ∷ [])
decode-encode_framed_example =
    decode-encode_framed 100 (v5 (Types5.connect hello)) hello_bytes (9 ∷ []) tt hello-PacketFits
      hello_framed (omega arith) (omega arith)

-- A PUBACK of MQTT 5, with its reason code and no properties, is taken for one of MQTT 3.1.1.
puback_misread :
    decode 100 (0x40 ∷ 4 ∷ 0 ∷ 7 ∷ 0x10 ∷ 0 ∷ [])
    ≡ ok (some (v311 (Types3.puback (record { packet_id = 7 }))))
unfolding decode decode_packet Decode3.decode_body Decode3.decode_ack decode_remaining_length
    packet_type_from_u8
puback_misread = refl
