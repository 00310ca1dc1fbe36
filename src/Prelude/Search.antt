-- ===== src/Prelude/Search.antt =====
-- The laws of `any`.
use mathlib.Core.Path.{◌≡◌, refl, ap, ap₂, ◌∙◌, sym}
use mathlib.Core.Logic.{◌⊎◌, ◌↔◌, inl, inr, ∥∥₁_elim}
use mathlib.Core.Bool.{Bool, true, false, ◌||◌, false≢true, Bool-set}
use mathlib.Core.List.{Perm, Permᴰ, List, [], ◌∷◌, ◌++◌}
use atom_mqtt.Prelude.Tests.{Bool-cases}
use atom_mqtt.Prelude.Lists.{any, Any}

pub or_true : (b : Bool) → (b || true) ≡ true
or_true true = refl
or_true false = refl

pub or_split : (a b : Bool) → (a || b) ≡ true → (a ≡ true) ⊎ (b ≡ true)
or_split true b h = inl refl
or_split false b h = inr h

pub or_false : (b : Bool) → (b || false) ≡ b
or_false true = refl
or_false false = refl

pub or_assoc : (a b c : Bool) → ((a || b) || c) ≡ (a || (b || c))
or_assoc true b c = refl
or_assoc false b c = refl

or_swap : (a b c : Bool) → (a || (b || c)) ≡ (b || (a || c))
or_swap true true c = refl
or_swap true false c = refl
or_swap false b c = refl

module _ {ℓ} {A : Type ℓ} (p : A → Bool) where
  pub any-append : (xs ys : List A) → any p (xs ++ ys) ≡ (any p xs || any p ys)
  any-append [] ys = refl
  any-append (x ∷ xs) ys = ap (λ b. p x || b) (any-append xs ys) ∙ sym (or_assoc (p x) _ _)

  any-Permᴰ : {xs ys : List A} → Permᴰ xs ys → any p xs ≡ any p ys
  any-Permᴰ Permᴰ.nil = refl
  any-Permᴰ (Permᴰ.cons e d) = ap₂ (λ a b. a || b) (ap p e) (any-Permᴰ d)
  any-Permᴰ (Permᴰ.swap {a} {b} {l} e f) =
      or_swap (p a) (p b) (any p l) ∙ ap₂ (λ x y. x || (y || any p l)) (ap p f) (ap p e)
  any-Permᴰ (Permᴰ.trans d e) = any-Permᴰ d ∙ any-Permᴰ e

  -- A search does not depend on the order.
  pub any-perm : {xs ys : List A} → Perm xs ys → any p xs ≡ any p ys
  any-perm d = ∥∥₁_elim d (Bool-set _ _) any-Permᴰ

module _ {ℓ} {A : Type ℓ} (p : A → Bool) (P : A → Type 0) (h : (x : A) → (p x ≡ true) ↔ P x) where
  any_sound : (xs : List A) → any p xs ≡ true → Any P xs
  any_sound [] e = absurd (false≢true e)
  any_sound (x ∷ xs) e = elim (Bool-cases (p x)) [
    | inl found ↦ inl ((h x).0 found)
    | inr missed ↦ inr (any_sound xs (rw missed at e))
  ]

  any_complete : (xs : List A) → Any P xs → any p xs ≡ true
  any_complete [] a = absurd a
  any_complete (x ∷ xs) (inl a) = rw ((h x).1 a)
  any_complete (x ∷ xs) (inr a) = rw (any_complete xs a) (or_true (p x))

  -- A Boolean search decides whether some element has the property.
  pub any_iff : (xs : List A) → (any p xs ≡ true) ↔ Any P xs
  any_iff xs = (any_sound xs, any_complete xs)
