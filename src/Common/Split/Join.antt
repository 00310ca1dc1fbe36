-- ===== src/Common/Split/Join.antt =====
-- Splitting loses nothing: the pieces joined again are the text.
use atom_mqtt.Prelude.{
  ℕ, ◌≡◌, refl, ap, sym, ◌∙◌, List, [], ◌∷◌, ◌++◌, ◌==◌, ==_iff, Bytes, Bool-cases, inl, inr,
}
use atom_mqtt.Common.Split.{extend, split, levels}

abbrev join : ℕ → List Bytes → Bytes
join sep [] = []
join sep (piece ∷ []) = piece
join sep (piece ∷ next ∷ pieces) = piece ++ sep ∷ join sep (next ∷ pieces)

join-extend : (sep c : ℕ) (pieces : List Bytes) → join sep (extend c pieces) ≡ c ∷ join sep pieces
unfolding extend
join-extend sep c [] = refl
join-extend sep c (piece ∷ []) = refl
join-extend sep c (piece ∷ next ∷ pieces) = refl

extend_cons :
    (c : ℕ) (pieces : List Bytes) → (p : Bytes) × (ps : List Bytes) × (extend c pieces ≡ p ∷ ps)
unfolding extend
extend_cons c [] = (c ∷ [], [], refl)
extend_cons c (piece ∷ pieces) = (c ∷ piece, pieces, refl)

split_cons : (sep : ℕ) (s : Bytes) → (p : Bytes) × (ps : List Bytes) × (split sep s ≡ p ∷ ps)
unfolding split
split_cons sep [] = ([], [], refl)
split_cons sep (c ∷ s) = elim (Bool-cases (c == sep)) [
  | inl e ↦ ([], split sep s, rw e)
  | inr e ↦ let (p, ps, h) = extend_cons c (split sep s) in (p, ps, rw e h)
]

join-split : (sep : ℕ) (s : Bytes) → join sep (split sep s) ≡ s
unfolding split
join-split sep [] = refl
join-split sep (c ∷ s) = elim (Bool-cases (c == sep)) [
  | inl e ↦
      let (p, ps, h) = split_cons sep s in
      rw e (rw h (cc ((==_iff c sep).0 e, h, join-split sep s)))
  | inr e ↦ rw e (join-extend sep c (split sep s) ∙ ap (λ t. c ∷ t) (join-split sep s))
]

-- Texts with the same levels are the same text.
pub levels-injective : (s t : Bytes) → levels s ≡ levels t → s ≡ t
levels-injective s t h = sym (join-split b'/' s) ∙ ap (join b'/') h ∙ join-split b'/' t
