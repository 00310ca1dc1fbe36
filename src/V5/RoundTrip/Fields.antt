-- ===== src/V5/RoundTrip/Fields.antt =====
-- The fields of the packets of mqtt-core/src/v5 read back.
use atom_mqtt.Prelude.{
  ℕ, zero, suc, ◌%◌, ◌≤◌, ◌<◌, ◌≡◌, refl, ap, ◌∙◌, Bool, some, List, [], ◌∷◌, ◌++◌, map, append-nil,
  length, length-append, drop-append, All, Bytes, ok, ◌>>=◌, arith,
}
use atom_mqtt.Common.{Qos, at_most_once, at_least_once, exactly_once, qos_to_u8, qos_from_u8}
use atom_mqtt.Common.Strings.{encode_string}
use atom_mqtt.Wire.Read.{unwrap_or}
use atom_mqtt.Wire.Fields.{Fits, read-encode_string}
use atom_mqtt.V5.Reasons.{ReasonCode, reason_code_to_u8, reason_code_from-to}
use atom_mqtt.V5.Properties.{Properties, encode_properties, decode_properties}
use atom_mqtt.V5.Properties.RoundTrip.{PropertiesFit, decode-encode_properties}
use atom_mqtt.V5.Types.{
  RetainHandling, send, send_if_new, do_not_send, retain_handling_from_u8, retain_handling_to_u8,
  SubscribeFilter,
}
use atom_mqtt.V5.Encode.{filter_options, filter_bytes}
use atom_mqtt.V5.Decode.{read_props, optional_props, filter_of, read_filters, known_codes}

pub read-props :
    (props : Properties) (rest : Bytes)
    → PropertiesFit props
    → read_props (encode_properties props ++ rest) ≡ ok (props, rest)
unfolding read_props
read-props props rest h =
    rw (decode-encode_properties props rest h)
      (rw (drop-append (encode_properties props) rest) refl)

pub decode_all_properties :
    (props : Properties)
    → PropertiesFit props
    → decode_properties (encode_properties props) ≡ ok (props, length (encode_properties props))
decode_all_properties props h = rw append-nil at (decode-encode_properties props [] h)

optional-decode : (d : Bytes) → optional_props d ≡ decode_properties d
unfolding optional_props decode_properties
optional-decode [] = refl
optional-decode (b ∷ d) = refl

pub read-optional_props :
    (props : Properties)
    → PropertiesFit props
    → optional_props (encode_properties props) ≡ ok (props, length (encode_properties props))
read-optional_props props h =
    optional-decode (encode_properties props) ∙ decode_all_properties props h

abbrev pub FilterFits : SubscribeFilter → Type 0
FilterFits f = Fits f.path

-- What the options byte of a filter says.
record ReadsOptions (f : SubscribeFilter) : Type 0 where
  qos_bits : qos_from_u8 (filter_options f % 4) ≡ some f.qos
  whole : filter_of f.path f.qos (filter_options f) ≡ f

options_fields :
    (path : Bytes) (qos : Qos) (no_local rap : Bool) (rh : RetainHandling)
    → ReadsOptions (record {
      path = path;
      qos = qos;
      no_local = no_local;
      retain_as_published = rap;
      retain_handling = rh;
    })
unfolding filter_options filter_of qos_from_u8 retain_handling_from_u8 qos_to_u8 unwrap_or
    retain_handling_to_u8
options_fields path at_most_once no_local rap send = ground arith
options_fields path at_most_once no_local rap send_if_new = ground arith
options_fields path at_most_once no_local rap do_not_send = ground arith
options_fields path at_least_once no_local rap send = ground arith
options_fields path at_least_once no_local rap send_if_new = ground arith
options_fields path at_least_once no_local rap do_not_send = ground arith
options_fields path exactly_once no_local rap send = ground arith
options_fields path exactly_once no_local rap send_if_new = ground arith
options_fields path exactly_once no_local rap do_not_send = ground arith

filter_options-ReadsOptions : (f : SubscribeFilter) → ReadsOptions f
filter_options-ReadsOptions f =
    options_fields f.path f.qos f.no_local f.retain_as_published f.retain_handling

length-filter_bytes :
    (f : SubscribeFilter) (fs : List SubscribeFilter)
    → length (filter_bytes fs) < length (filter_bytes (f ∷ fs))
unfolding filter_bytes encode_string
length-filter_bytes f fs = rw length-append (omega arith)

read_filters_step :
    (fuel : ℕ) (f : SubscribeFilter) (rest : Bytes)
    → Fits f.path
    → read_filters (suc fuel) (encode_string f.path ++ (filter_options f ∷ rest))
      ≡ (read_filters fuel rest >>= λ filters. ok (f ∷ filters))
unfolding read_filters encode_string
read_filters_step fuel f rest h =
    let r = filter_options-ReadsOptions f in
    rw (read-encode_string f.path (filter_options f ∷ rest) h) (rw (r.qos_bits) (rw (r.whole) refl))

pub read_filters-filter_bytes :
    (fs : List SubscribeFilter) (fuel : ℕ)
    → All FilterFits fs
    → length (filter_bytes fs) ≤ fuel
    → read_filters fuel (filter_bytes fs) ≡ ok fs
unfolding filter_bytes
read_filters-filter_bytes [] fuel h le = unfold read_filters in refl
read_filters-filter_bytes (f ∷ fs) zero h le = absurd (omega (arith, length-filter_bytes f fs))
read_filters-filter_bytes (f ∷ fs) (suc fuel) h le =
    read_filters_step fuel f (filter_bytes fs) h.0
    ∙ ap (λ m. m >>= λ filters. ok (f ∷ filters))
        (read_filters-filter_bytes fs fuel h.1 (omega (arith, length-filter_bytes f fs)))

pub known_codes-map : (codes : List ReasonCode) → known_codes (map reason_code_to_u8 codes) ≡ codes
unfolding known_codes
known_codes-map [] = refl
known_codes-map (c ∷ codes) =
    rw (reason_code_from-to c, known_codes) (ap (λ t. c ∷ t) (known_codes-map codes))
