-- ===== src/Common/Split.antt =====
-- `str::split` on one ASCII byte and `str::trim`, as the repository's code uses them.
pub mod Join
use atom_mqtt.Prelude.{
  ℕ, zero, suc, ◌≡◌, refl, Bool, true, false, ◌&&◌, ◌||◌, List, [], ◌∷◌, leb, ◌==◌, if◌then◌else◌,
  Bytes, codes,
}
use mathlib.Core.List.{reverse}

-- Put `c` in front of the first piece.
extend : ℕ → List Bytes → List Bytes
extend c [] = (c ∷ []) ∷ []
extend c (piece ∷ pieces) = (c ∷ piece) ∷ pieces

-- `s.split(sep).collect()`: one piece more than `s` has separators.
unfoldable pub split : ℕ → Bytes → List Bytes
unfolding extend
split sep [] = [] ∷ []
split sep (c ∷ s) = let rest = split sep s in if c == sep then [] ∷ rest else extend c rest

-- `s.splitn(n, sep).collect()`: at most `n` pieces, the last one unsplit. `n` is at least 1.
unfoldable pub splitn : ℕ → ℕ → Bytes → List Bytes
unfolding extend
splitn zero sep s = []
splitn (suc n) sep [] = [] ∷ []
splitn (suc zero) sep (c ∷ s) = (c ∷ s) ∷ []
splitn (suc (suc n)) sep (c ∷ s) = elim (c == sep) [
  | true ↦ [] ∷ splitn (suc n) sep s
  | false ↦ extend c (splitn (suc (suc n)) sep s)
]

-- One piece of `lines`: a `\r` at its end goes too.
chomp : Bytes → Bytes
chomp [] = []
chomp (c ∷ []) = if c == 0x0d then [] else c ∷ []
chomp (c ∷ d ∷ s) = c ∷ chomp (d ∷ s)

-- The last piece is a line only if it is not empty, and keeps its `\r`.
chomp_all : List Bytes → List Bytes
chomp_all [] = []
chomp_all ([] ∷ []) = []
chomp_all ((c ∷ s) ∷ []) = (c ∷ s) ∷ []
chomp_all (piece ∷ next ∷ pieces) = chomp piece ∷ chomp_all (next ∷ pieces)

-- `s.lines().collect()`
unfoldable pub lines : Bytes → List Bytes
unfolding chomp chomp_all split
lines s = chomp_all (split b'\n' s)

-- The levels of a topic or a filter.
abbrev pub levels : Bytes → List Bytes
levels s = split b'/' s

one_byte_space : ℕ → Bool
one_byte_space b = (leb 0x09 b && leb b 0x0d) || b == 0x20

-- The last byte of the white-space characters U+2000 to U+200A, U+2028, U+2029 and U+202F.
general_space : ℕ → Bool
general_space b = (leb 0x80 b && leb b 0x8a) || b == 0xa8 || b == 0xa9 || b == 0xaf

-- The three bytes of a white-space character beyond U+00FF.
wide_space : ℕ → ℕ → ℕ → Bool
wide_space a b c =
    (a == 0xe1 && b == 0x9a && c == 0x80)
    || (a == 0xe2 && b == 0x80 && general_space c)
    || (a == 0xe2 && b == 0x81 && c == 0x9f)
    || (a == 0xe3 && b == 0x80 && c == 0x80)

two_byte_space : ℕ → ℕ → Bool
two_byte_space a b = a == 0xc2 && (b == 0x85 || b == 0xa0)

-- How many bytes the white-space character in front has, 0 if there is none.
space_front : Bytes → ℕ
space_front (a ∷ b ∷ c ∷ s) =
    if one_byte_space a
    then 1
    else if two_byte_space a b
    then 2
    else if wide_space a b c
    then 3
    else 0
space_front (a ∷ b ∷ []) = if one_byte_space a then 1 else if two_byte_space a b then 2 else 0
space_front (a ∷ []) = if one_byte_space a then 1 else 0
space_front [] = 0

-- The same for the character at the end of a text that is given backwards.
space_back : Bytes → ℕ
space_back (c ∷ b ∷ a ∷ s) =
    if one_byte_space c
    then 1
    else if two_byte_space b c
    then 2
    else if wide_space a b c
    then 3
    else 0
space_back (b ∷ a ∷ []) = if one_byte_space b then 1 else if two_byte_space a b then 2 else 0
space_back (a ∷ []) = if one_byte_space a then 1 else 0
space_back [] = 0

-- Drop characters while `space` finds one; `skip` bytes of the last one are still to go.
strip : (Bytes → ℕ) → ℕ → Bytes → Bytes
strip space skip [] = []
strip space (suc skip) (b ∷ s) = strip space skip s
strip space zero (b ∷ s) = elim (space (b ∷ s)) [ zero ↦ b ∷ s | suc n ↦ strip space n s ]

unfoldable pub trim : Bytes → Bytes
unfolding strip space_front space_back one_byte_space two_byte_space wide_space general_space
trim s = reverse (strip space_back 0 (reverse (strip space_front 0 s)))

split_runs : levels (codes "a//b") ≡ codes "a" ∷ [] ∷ codes "b" ∷ []
unfolding split
split_runs = refl

trim_runs : trim (codes "  a b \n") ≡ codes "a b"
unfolding trim
trim_runs = refl

trim_wide : trim (0xe3 ∷ 0x80 ∷ 0x80 ∷ 0x61 ∷ 0xc2 ∷ 0xa0 ∷ []) ≡ codes "a"
unfolding trim
trim_wide = refl

splitn_runs : splitn 2 b':' (codes "a:b:c") ≡ codes "a" ∷ codes "b:c" ∷ []
unfolding splitn
splitn_runs = refl

lines_runs : lines (codes "a\r\nb\n") ≡ codes "a" ∷ codes "b" ∷ []
unfolding lines
lines_runs = refl
