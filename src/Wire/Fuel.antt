-- ===== src/Wire/Fuel.antt =====
-- The fuel of the loop over strings in both codecs.
use atom_mqtt.Prelude.{
  ℕ, zero, suc, ◌+◌, ◌-◌, ◌≤◌, ◌≡◌, ◌⊎◌, inl, inr, refl, ap, ◌∙◌, [], ◌∷◌, length, length-drop,
  drop, Bytes, MqttError, MqttResult, ok, err, ◌>>=◌, >>=-eq-ok, arith,
}
use atom_mqtt.Common.Strings.{be16, decode_string}
use atom_mqtt.Common.Strings.RoundTrip.{decode_string_parts}
use atom_mqtt.Wire.Read.{read_string, read_strings}

pub Result-cases {ℓ} :
    {A : Type ℓ} (r : MqttResult A) → ((e : MqttError) × (r ≡ err e)) ⊎ ((a : A) × (r ≡ ok a))
Result-cases (err e) = inl (e, refl)
Result-cases (ok a) = inr (a, refl)

decode_string_takes :
    (d s : Bytes) (consumed : ℕ) → decode_string d ≡ ok (s, consumed) → 2 ≤ consumed
decode_string_takes [] s c h = unfold decode_string in cc
decode_string_takes (hi ∷ []) s c h = unfold decode_string in cc
decode_string_takes (hi ∷ lo ∷ t) s c h =
    omega (arith, (decode_string_parts hi lo t s c (be16 hi lo) refl h).3)

-- Reading a string takes bytes away.
pub read_string_shorter :
    (b : ℕ) (d s rest : Bytes) → read_string (b ∷ d) ≡ ok (s, rest) → length rest ≤ length d
unfolding read_string
read_string_shorter b d s rest h =
    let ((s', c), read, left) =
      >>=-eq-ok (decode_string (b ∷ d)) (λ r. ok (r.0, drop r.1 (b ∷ d))) h in
    let same : drop c (b ∷ d) ≡ rest = cc in
    let two = decode_string_takes (b ∷ d) s' c read in
    omega (arith, ap length same, length-drop c (b ∷ d))

read_strings_more :
    (fuel : ℕ) (d : Bytes) → length d ≤ fuel → read_strings (suc fuel) d ≡ read_strings fuel d
unfolding read_strings
read_strings_more fuel [] h = refl
read_strings_more zero (b ∷ d) h = absurd (omega arith)
read_strings_more (suc fuel) (b ∷ d) h = elim (Result-cases (read_string (b ∷ d))) [
  | inl (e, failed) ↦ rw failed refl
  | inr ((s, rest), read) ↦ rw read (
      ap (λ r. r >>= λ topics. ok (s ∷ topics))
        (read_strings_more fuel rest (omega (arith, read_string_shorter b d s rest read))))
]

read_strings_plus :
    (more : ℕ) (d : Bytes) → read_strings (more + length d) d ≡ read_strings (length d) d
read_strings_plus zero d = ap (λ k. read_strings k d) (omega arith)
read_strings_plus (suc more) d =
    ap (λ k. read_strings k d) (omega arith)
    ∙ read_strings_more (more + length d) d (omega arith)
    ∙ read_strings_plus more d

-- The loop over the filters of an UNSUBSCRIBE has fuel enough with a unit for each byte: any more
-- changes nothing.
pub read_strings_enough :
    (fuel : ℕ) (d : Bytes) → length d ≤ fuel → read_strings fuel d ≡ read_strings (length d) d
read_strings_enough fuel d h =
    ap (λ k. read_strings k d) (omega arith) ∙ read_strings_plus (fuel - length d) d
