-- ===== src/Examples/Codec.antt =====
-- Short packets and strings on the wire of mqtt-core/src.
use atom_mqtt.Prelude.{
  ℕ, zero, suc, ◌≤◌, ◌<◌, ◌≡◌, ◌≢◌, ◌↔◌, refl, true, some, ◌∷◌, ◌++◌, length, take, All, Bytes,
  IsByte, codes, ok, err, malformed_remaining_length, arith, [],
}
use atom_mqtt.Common.{at_least_once, publish, packet_type_from_u8}
use atom_mqtt.Common.Utf8.{IsStr, is_utf8}
use atom_mqtt.Common.Length.{encode_remaining_length, decode_remaining_length}
use atom_mqtt.Common.Length.RoundTrip.{decode-encode_too_long}
use atom_mqtt.Common.Length.Decode.{decode_remaining_length_bounds}
use atom_mqtt.Common.Strings.{encode_string, decode_string}
use atom_mqtt.Common.Strings.RoundTrip.{decode-encode_string_long}
use atom_mqtt.Common.Split.{levels, trim}
use atom_mqtt.Common.Levels.{Matches}
use atom_mqtt.Common.Topic
use atom_mqtt.Common.Topic.Matching.{matches_iff}
use atom_mqtt.V3.Types.{PublishPacket}
use atom_mqtt.V3.Types
use atom_mqtt.V3.Encode.{packet_bytes, encode_packet, publish_header, publish_remaining}
use atom_mqtt.V3.Decode.{decode_body, decode_packet}
use atom_mqtt.V3.RoundTrip.Packets.{PacketFits, decode-encode_packet}
use atom_mqtt.Wire.Stream.{decode_packet-append, decode_packet_cut}

decode-encode_too_long_example :
    decode_remaining_length (encode_remaining_length 268435456 ++ [])
    ≡ err malformed_remaining_length
decode-encode_too_long_example = decode-encode_too_long 268435456 [] (omega arith)

abbrev two_bytes : Bytes
two_bytes = 0xc1 ∷ 0x02 ∷ []

decode_remaining_length_bounds_example :
    (1 ≤ 2) × (2 ≤ 4) × (2 ≤ length two_bytes) × (321 < 268435456)
unfolding decode_remaining_length
decode_remaining_length_bounds_example =
    decode_remaining_length_bounds two_bytes 321 2 (omega arith, (omega arith, tt)) refl

abbrev ab : Bytes
ab = codes "ab"

ab-IsStr : IsStr ab
unfolding is_utf8
ab-IsStr = refl

abbrev on_wire : Bytes
on_wire = 0 ∷ 2 ∷ 0x61 ∷ 0x62 ∷ 9 ∷ []

-- `n` letters
letters : ℕ → Bytes
letters zero = []
letters (suc n) = 0x61 ∷ letters n

length-letters : (n : ℕ) → length (letters n) ≡ n
unfolding letters
length-letters zero = refl
length-letters (suc n) = omega (arith, length-letters n)

decode-encode_string_long_example :
    decode_string (encode_string (letters 65536) ++ []) ≢ ok (letters 65536, 65538)
decode-encode_string_long_example =
    decode-encode_string_long (letters 65536) [] 65538 (omega (arith, length-letters 65536))

matches_iff_example :
    (Topic.matches (Topic.new (codes " a/+")) (codes "a/b") ≡ true)
    ↔ Matches (levels (trim (codes " a/+"))) (levels (codes "a/b"))
matches_iff_example = matches_iff (codes " a/+") (codes "a/b")

abbrev note : PublishPacket
note = record {
  topic = ab;
  payload = codes "hi";
  qos = at_least_once;
  retain = true;
  packet_id = some 5;
}

abbrev note_bytes : Bytes
note_bytes = 0x3b ∷ 8 ∷ 0 ∷ 2 ∷ 0x61 ∷ 0x62 ∷ 0 ∷ 5 ∷ 0x68 ∷ 0x69 ∷ []

note_encoded : encode_packet (Types.publish note) ≡ ok note_bytes
unfolding encode_packet packet_bytes publish_header publish_remaining encode_remaining_length
    encode_string
note_encoded = refl

note-PacketFits : PacketFits (Types.publish note)
note-PacketFits = record {
  topic = record { short = omega arith; valid = ab-IsStr };
  id = omega arith;
}

decode-encode_packet_example :
    decode_packet (note_bytes ++ 9 ∷ []) ≡ ok (some (Types.publish note, length note_bytes))
decode-encode_packet_example =
    decode-encode_packet (Types.publish note) note_bytes (9 ∷ []) note-PacketFits note_encoded
      (omega arith)

note_read : decode_packet note_bytes ≡ ok (some (Types.publish note, 10))
note_read =
    decode-encode_packet (Types.publish note) note_bytes [] note-PacketFits note_encoded
      (omega arith)

note_bytes-IsByte : All IsByte note_bytes
note_bytes-IsByte = (
  omega arith,
  (
    omega arith,
    (
      omega arith,
      (
        omega arith,
        (
          omega arith,
          (omega arith, (omega arith, (omega arith, (omega arith, (omega arith, tt))))),
        ),
      ),
    ),
  ),
)

decode_packet-append_example :
    decode_packet (note_bytes ++ 0xc0 ∷ 0 ∷ []) ≡ ok (some (Types.publish note, 10))
decode_packet-append_example =
    decode_packet-append decode_body note_bytes (0xc0 ∷ 0 ∷ []) (Types.publish note) 10
      note_bytes-IsByte note_read

publish_header_type : packet_type_from_u8 0x3b ≡ some publish
unfolding packet_type_from_u8
publish_header_type = refl

decode_packet_cut_example :
    decode_packet (0x3b ∷ take 1 (encode_remaining_length 200)) ≡ err malformed_remaining_length
decode_packet_cut_example =
    decode_packet_cut decode_body publish 0x3b 200 publish_header_type (omega arith)

abbrev two_filters : Bytes
two_filters = 0 ∷ 1 ∷ 0x61 ∷ 1 ∷ 0 ∷ 1 ∷ 0x62 ∷ 2 ∷ []
