-- ===== src/V5/Fuel.antt =====
-- The fuel of the loops of mqtt-core/src/v5: over the filters of a SUBSCRIBE, and over properties.
use atom_mqtt.Prelude.{
  ℕ, zero, suc, ◌+◌, ◌-◌, ◌%◌, ◌≤◌, ◌≡◌, inl, inr, refl, ap, ◌∙◌, [], ◌∷◌, length, Bytes, ok, ◌>>=◌,
  ok_or, invalid_packet, text, unknown_property_id, arith,
}
use atom_mqtt.Common.{qos_from_u8}
use atom_mqtt.Wire.Read.{read_string, read_byte}
use atom_mqtt.Wire.Fuel.{Result-cases, read_string_shorter}
use atom_mqtt.V5.Properties.Ids.{
  property_id_from_u8, Kind, kind_of, a_byte, two_bytes, four_bytes, a_varint, a_binary, a_string,
  a_pair,
}
use atom_mqtt.V5.Properties.{PropertyValue, read_kind, read_properties}
use atom_mqtt.V5.Decode.{filter_of, read_filters}

read_filters_more :
    (fuel : ℕ) (d : Bytes) → length d ≤ fuel → read_filters (suc fuel) d ≡ read_filters fuel d
unfolding read_filters read_byte
read_filters_more fuel [] h = refl
read_filters_more zero (b ∷ d) h = absurd (omega arith)
read_filters_more (suc fuel) (b ∷ d) h = elim (Result-cases (read_string (b ∷ d))) [
  | inl (e, failed) ↦ rw failed refl
  | inr ((s, []), read) ↦ rw read refl
  | inr ((s, options ∷ rest), read) ↦ rw read (
      ap
        (λ r.
          ok_or (qos_from_u8 (options % 4)) (invalid_packet (text "Invalid QoS in SUBSCRIBE"))
          >>= λ qos. r >>= λ filters. ok (filter_of s qos options ∷ filters))
        (read_filters_more fuel rest
          (omega (arith, read_string_shorter b d s (options ∷ rest) read))))
]

read_filters_plus :
    (more : ℕ) (d : Bytes) → read_filters (more + length d) d ≡ read_filters (length d) d
read_filters_plus zero d = ap (λ k. read_filters k d) (omega arith)
read_filters_plus (suc more) d =
    ap (λ k. read_filters k d) (omega arith)
    ∙ read_filters_more (more + length d) d (omega arith)
    ∙ read_filters_plus more d

-- The loop over the filters of a SUBSCRIBE has fuel enough with a unit for each byte: any more
-- changes nothing.
pub read_filters_enough_v5 :
    (fuel : ℕ) (d : Bytes) → length d ≤ fuel → read_filters fuel d ≡ read_filters (length d) d
read_filters_enough_v5 fuel d h =
    ap (λ k. read_filters k d) (omega arith) ∙ read_filters_plus (fuel - length d) d

-- What a reader leaves of the properties is no more than what was left.
read_kind_shrinks :
    (k : Kind) (left : ℕ) (d : Bytes) (value : PropertyValue) (left' : ℕ) (rest : Bytes)
    → read_kind k left d ≡ ok (value, left', rest)
    → left' ≤ left
unfolding read_kind
read_kind_shrinks a_byte left [] value left' rest h = ground arith
read_kind_shrinks a_byte left (a ∷ d) value left' rest h = ground arith
read_kind_shrinks two_bytes left d value left' rest h = ground arith
read_kind_shrinks four_bytes left d value left' rest h = ground arith
read_kind_shrinks a_varint left d value left' rest h = ground arith
read_kind_shrinks a_binary left d value left' rest h = ground arith
read_kind_shrinks a_string left d value left' rest h = ground arith
read_kind_shrinks a_pair left d value left' rest h = ground arith

read_properties_more :
    (fuel left : ℕ) (d : Bytes)
    → left ≤ fuel
    → read_properties (suc fuel) left d ≡ read_properties fuel left d
unfolding read_properties
read_properties_more fuel zero d h = refl
read_properties_more zero (suc left) d h = absurd (omega arith)
read_properties_more (suc fuel) (suc left) [] h = refl
read_properties_more (suc fuel) (suc left) (b ∷ d) h =
    elim (Result-cases (ok_or (property_id_from_u8 b) (invalid_packet (unknown_property_id b)))) [
      | inl (e, failed) ↦ rw failed refl
      | inr (id, known) ↦ rw known (elim (Result-cases (read_kind (kind_of id) left d)) [
        | inl (e, failed) ↦ rw failed refl
        | inr ((value, left', rest), read) ↦ rw read (
            ap (λ r. r >>= λ props. ok ((id, value) ∷ props))
              (read_properties_more fuel left' rest
                (omega (arith, read_kind_shrinks (kind_of id) left d value left' rest read))))
      ])
    ]

read_properties_plus :
    (more left : ℕ) (d : Bytes) → read_properties (more + left) left d ≡ read_properties left left d
read_properties_plus zero left d = ap (λ k. read_properties k left d) (omega arith)
read_properties_plus (suc more) left d =
    ap (λ k. read_properties k left d) (omega arith)
    ∙ read_properties_more (more + left) left d (omega arith)
    ∙ read_properties_plus more left d

-- The loop over properties has fuel enough with a unit for each byte that belongs to them: any more
-- changes nothing.
pub read_properties_enough :
    (fuel left : ℕ) (d : Bytes)
    → left ≤ fuel
    → read_properties fuel left d ≡ read_properties left left d
read_properties_enough fuel left d h =
    ap (λ k. read_properties k left d) (omega arith) ∙ read_properties_plus (fuel - left) left d
