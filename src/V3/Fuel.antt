-- ===== src/V3/Fuel.antt =====
-- The fuel of the loop over the filters of a SUBSCRIBE in mqtt-core/src/v3/codec.rs.
use atom_mqtt.Prelude.{
  ℕ, zero, suc, ◌+◌, ◌-◌, ◌%◌, ◌≤◌, ◌≡◌, inl, inr, refl, ap, ◌∙◌, [], ◌∷◌, length, Bytes, ok, ◌>>=◌,
  ok_or, invalid_packet, text, arith,
}
use atom_mqtt.Common.{qos_from_u8}
use atom_mqtt.Wire.Read.{read_string, read_byte}
use atom_mqtt.Wire.Fuel.{Result-cases, read_string_shorter}
use atom_mqtt.V3.Decode.{read_filters}

read_filters_more :
    (fuel : ℕ) (d : Bytes) → length d ≤ fuel → read_filters (suc fuel) d ≡ read_filters fuel d
unfolding read_filters read_byte
read_filters_more fuel [] h = refl
read_filters_more zero (b ∷ d) h = absurd (omega arith)
read_filters_more (suc fuel) (b ∷ d) h = elim (Result-cases (read_string (b ∷ d))) [
  | inl (e, failed) ↦ rw failed refl
  | inr ((s, []), read) ↦ rw read refl
  | inr ((s, options ∷ rest), read) ↦ rw read (
      ap
        (λ r.
          ok_or (qos_from_u8 (options % 4)) (invalid_packet (text "Invalid QoS in SUBSCRIBE"))
          >>= λ qos. r >>= λ filters. ok (record { path = s; qos = qos } ∷ filters))
        (read_filters_more fuel rest
          (omega (arith, read_string_shorter b d s (options ∷ rest) read))))
]

read_filters_plus :
    (more : ℕ) (d : Bytes) → read_filters (more + length d) d ≡ read_filters (length d) d
read_filters_plus zero d = ap (λ k. read_filters k d) (omega arith)
read_filters_plus (suc more) d =
    ap (λ k. read_filters k d) (omega arith)
    ∙ read_filters_more (more + length d) d (omega arith)
    ∙ read_filters_plus more d

-- The loop over the filters of a SUBSCRIBE has fuel enough with a unit for each byte: any more
-- changes nothing.
pub read_filters_enough :
    (fuel : ℕ) (d : Bytes) → length d ≤ fuel → read_filters fuel d ≡ read_filters (length d) d
read_filters_enough fuel d h =
    ap (λ k. read_filters k d) (omega arith) ∙ read_filters_plus (fuel - length d) d
