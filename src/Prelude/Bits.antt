-- ===== src/Prelude/Bits.antt =====
-- The masks that the codecs put on one byte, as arithmetic; each is a table checked by evaluation.
use Prim.Native.Nat.{ℕ, ◌+◌, ◌*◌, ◌/◌, ◌%◌, ◌<◌, bit_and, bit_or}
use mathlib.Core.Path.{◌≡◌, refl}
use mathlib.Core.Bool.{true}
use atom_mqtt.Prelude.Tests.{◌==◌, ==_iff, all_below, all_below_sound}

module _ (f g : ℕ → ℕ) where
  agree : (n : ℕ) → all_below n (λ x. f x == g x) ≡ true → (x : ℕ) → x < n → f x ≡ g x
  agree n table x h = (==_iff (f x) (g x)).0 (all_below_sound n (λ y. f y == g y) x table h)

pub bit_and_low7 : (b : ℕ) → b < 256 → bit_and b 0x7f ≡ b % 128
unfolding all_below
bit_and_low7 = agree (λ b. bit_and b 0x7f) (λ b. b % 128) 256 refl

pub bit_and_top : (b : ℕ) → b < 256 → bit_and b 0x80 ≡ b / 128 * 128
unfolding all_below
bit_and_top = agree (λ b. bit_and b 0x80) (λ b. b / 128 * 128) 256 refl

pub bit_or_top : (b : ℕ) → b < 128 → bit_or b 0x80 ≡ b + 128
unfolding all_below
bit_or_top = agree (λ b. bit_or b 0x80) (λ b. b + 128) 128 refl
