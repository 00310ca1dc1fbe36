-- ===== src/V3/RoundTrip/Fields.antt =====
-- The fields of the packets of mqtt-core/src/v3 read back.
use atom_mqtt.Prelude.{
  ℕ, zero, suc, ◌≤◌, ◌<◌, ◌≡◌, refl, ap, ◌∙◌, List, [], ◌∷◌, ◌++◌, map, length, length-append, All,
  Bytes, ok, ◌>>=◌, arith,
}
use atom_mqtt.Common.{qos_to_u8}
use atom_mqtt.Common.Strings.{encode_string}
use atom_mqtt.Wire.Fields.{Fits, read-encode_string, qos_code}
use atom_mqtt.V3.Types.{
  SubscribeFilter, suback_return_code_to_u8, SubAckReturnCode, suback_return_code_from-to,
}
use atom_mqtt.V3.Encode.{filter_bytes}
use atom_mqtt.V3.Decode.{read_filters, known_codes}

abbrev pub FilterFits : SubscribeFilter → Type 0
FilterFits f = Fits f.path

length-filter_bytes :
    (f : SubscribeFilter) (fs : List SubscribeFilter)
    → length (filter_bytes fs) < length (filter_bytes (f ∷ fs))
unfolding filter_bytes encode_string
length-filter_bytes f fs = rw length-append (omega arith)

read_filters_step :
    (fuel : ℕ) (f : SubscribeFilter) (rest : Bytes)
    → Fits f.path
    → read_filters (suc fuel) (encode_string f.path ++ (qos_to_u8 f.qos ∷ rest))
      ≡ (read_filters fuel rest >>= λ filters. ok (f ∷ filters))
unfolding read_filters encode_string
read_filters_step fuel f rest h =
    rw (read-encode_string f.path (qos_to_u8 f.qos ∷ rest) h) (rw (qos_code f.qos))

pub read_filters-filter_bytes :
    (fs : List SubscribeFilter) (fuel : ℕ)
    → All FilterFits fs
    → length (filter_bytes fs) ≤ fuel
    → read_filters fuel (filter_bytes fs) ≡ ok fs
unfolding filter_bytes
read_filters-filter_bytes [] fuel h le = unfold read_filters in refl
read_filters-filter_bytes (f ∷ fs) zero h le = absurd (omega (arith, length-filter_bytes f fs))
read_filters-filter_bytes (f ∷ fs) (suc fuel) h le =
    read_filters_step fuel f (filter_bytes fs) h.0
    ∙ ap (λ m. m >>= λ filters. ok (f ∷ filters))
        (read_filters-filter_bytes fs fuel h.1 (omega (arith, length-filter_bytes f fs)))

pub known_codes-map :
    (codes : List SubAckReturnCode) → known_codes (map suback_return_code_to_u8 codes) ≡ codes
unfolding known_codes
known_codes-map [] = refl
known_codes-map (c ∷ codes) =
    rw (suback_return_code_from-to c, known_codes) (ap (λ t. c ∷ t) (known_codes-map codes))
