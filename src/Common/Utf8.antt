-- ===== src/Common/Utf8.antt =====
-- `std::str::from_utf8` as mqtt-core/src/common.rs uses it: whether bytes are well-formed UTF-8.
use atom_mqtt.Prelude.{
  ℕ, zero, suc, ◌≡◌, refl, Bool, true, false, ◌&&◌, Option, none, some, [], ◌∷◌, ltb, leb, ◌==◌,
  if◌then◌else◌, Bytes, codes,
}

-- What a lead byte asks for: how many bytes follow, and the range of the first of them.
pub record Lead : Type 0 where
  pub more : ℕ
  pub low : ℕ
  pub high : ℕ

abbrev tail_of : ℕ → Option Lead
tail_of n = some (record { more = n; low = 0x80; high = 0xbf })

-- Table 3-7 of the Unicode standard; `none` for a byte that starts no character.
lead : ℕ → Option Lead
lead b =
    if ltb b 0x80
    then tail_of 0
    else if ltb b 0xc2
    then none
    else if ltb b 0xe0
    then tail_of 1
    else if b == 0xe0
    then some (record { more = 2; low = 0xa0; high = 0xbf })
    else if b == 0xed
    then some (record { more = 2; low = 0x80; high = 0x9f })
    else if ltb b 0xf0
    then tail_of 2
    else if b == 0xf0
    then some (record { more = 3; low = 0x90; high = 0xbf })
    else if ltb b 0xf4
    then tail_of 3
    else if b == 0xf4
    then some (record { more = 3; low = 0x80; high = 0x8f })
    else none

-- `more` bytes of the current character are still to come.
run : ℕ → ℕ → ℕ → Bytes → Bool
run zero low high [] = true
run zero low high (b ∷ s) = elim (lead b) [ none ↦ false | some l ↦ run l.more l.low l.high s ]
run (suc more) low high [] = false
run (suc more) low high (b ∷ s) = leb low b && leb b high && run more 0x80 0xbf s

unfoldable pub is_utf8 : Bytes → Bool
unfolding run lead
is_utf8 s = run 0 0 0 s

abbrev pub IsStr : Bytes → Type 0
IsStr s = is_utf8 s ≡ true

is_utf8_runs :
    (is_utf8 (codes "a/b") ≡ true)
    × (is_utf8 (0xe4 ∷ 0xb8 ∷ 0xad ∷ []) ≡ true)
    × (is_utf8 (0xed ∷ 0xa0 ∷ 0x80 ∷ []) ≡ false)
    × (is_utf8 (0xc3 ∷ []) ≡ false)
unfolding is_utf8
is_utf8_runs = (refl, refl, refl, refl)
