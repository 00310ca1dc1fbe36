-- ===== src/Broker/Auth/Users.antt =====
-- The credentials file of mqtt-broker/src/auth.rs, line by line, and who gets in by it.
use atom_mqtt.Prelude.{
  ◌≡◌, ◌↔◌, refl, ap, Bool, true, not, ◌&&◌, Option, some, List, ◌∷◌, ◌++◌, Any, Bytes, ◌==◌,
  ==_iff, Bool-cases, inl, inr, ◌⊎◌, arith, [],
}
use atom_mqtt.Common.Split.{splitn, lines, trim}
use atom_mqtt.Broker.Auth
use atom_mqtt.Broker.Auth.{file, or_else, user_of, users_of, authenticate}
use atom_mqtt.Broker.Auth.Access.{Registered, Admitted, authenticate-file_iff}

abbrev pub lacks_colon : Bytes → Bool
lacks_colon [] = true
lacks_colon (c ∷ s) = not (c == b':') && lacks_colon s

-- A line of the file gives a name and a password: they stand before and behind its first colon, but
-- for white space at their ends.
abbrev pub Names : Bytes → Bytes → Bytes → Type 0
Names user pass line =
    (a : Bytes) × (b : Bytes) × (lacks_colon a ≡ true)
    × (line ≡ a ++ b':' ∷ b)
    × (trim a ≡ user)
    × (trim b ≡ pass)

splitn_rest : (s : Bytes) → splitn 1 b':' s ≡ s ∷ []
unfolding splitn
splitn_rest [] = refl
splitn_rest (c ∷ s) = refl

splitn-append : (a b : Bytes) → lacks_colon a ≡ true → splitn 2 b':' (a ++ b':' ∷ b) ≡ a ∷ b ∷ []
unfolding splitn
splitn-append [] b h = ap (λ l. [] ∷ l) (splitn_rest b)
splitn-append (c ∷ a) b h = elim (Bool-cases (c == b':')) [
  | inl e ↦ ground (arith, e, h)
  | inr e ↦ rw (e, splitn) (rw (splitn-append a b (ground (arith, e, h))) refl)
]

-- A line has a colon, and then a first one, or none.
cut_cases :
    (line : Bytes)
    → (splitn 2 b':' line ≡ line ∷ [])
      ⊎ ((a : Bytes) × (b : Bytes) × (lacks_colon a ≡ true)
          × (line ≡ a ++ b':' ∷ b)
          × (splitn 2 b':' line ≡ a ∷ b ∷ []))
unfolding splitn
cut_cases [] = inl refl
cut_cases (c ∷ s) = elim (Bool-cases (c == b':')) [
  | inl e ↦ inr (
    [],
    s,
    refl,
    ap (λ d. d ∷ s) ((==_iff c b':').0 e),
    rw (e, splitn) (ap (λ l. [] ∷ l) (splitn_rest s)),
  )
  | inr e ↦ elim (cut_cases s) [
    | inl whole ↦ inl (rw (e, splitn) (rw whole refl))
    | inr (a, b, lacks, joined, cut) ↦
        inr (c ∷ a, b, rw e lacks, ap (λ l. c ∷ l) joined, rw (e, splitn) (rw cut refl))
  ]
]

users_of-Names :
    (ls : List Bytes) (user pass : Bytes)
    → Any (Names user pass) ls
    → Registered (users_of ls) user pass
unfolding users_of user_of
users_of-Names [] user pass n = absurd n
users_of-Names (line ∷ ls) user pass (inl (a, b, lacks, joined, left, right)) =
    rw joined (rw (splitn-append a b lacks, users_of) (inl (left, right)))
users_of-Names (line ∷ ls) user pass (inr later) =
    let more = users_of-Names ls user pass later in
    elim (cut_cases line) [
      | inl whole ↦ rw (whole, users_of) more
      | inr (a, b, lacks, joined, cut) ↦ rw (cut, users_of) (inr more)
    ]

Names-users_of :
    (ls : List Bytes) (user pass : Bytes)
    → Registered (users_of ls) user pass
    → Any (Names user pass) ls
unfolding users_of user_of
Names-users_of [] user pass r = absurd r
Names-users_of (line ∷ ls) user pass r = elim (cut_cases line) [
  | inl whole ↦ inr (Names-users_of ls user pass (rw (whole, users_of) at r))
  | inr (a, b, lacks, joined, cut) ↦ elim (rw (cut, users_of) at r) [
    | inl (left, right) ↦ inl (a, b, lacks, joined, left, right)
    | inr later ↦ inr (Names-users_of ls user pass later)
  ]
]

-- With a credentials file that can be read, a client that gives a name gets in exactly when some line
-- of the file has the name before its first colon and the password behind it, but for white space at
-- their ends; an absent password is the empty one, and whether anonymous clients are allowed plays no
-- part.
pub authenticate-new_iff :
    (read_to_string : Bytes → Option Bytes) (path content : Bytes) (allow_anonymous : Bool)
    (user : Bytes) (password : Option Bytes)
    → read_to_string path ≡ some content
    → Admitted
        (authenticate (Auth.new read_to_string (file path)) allow_anonymous (some user) password)
      ↔ Any (Names user (or_else password [])) (lines content)
unfolding Auth.new
authenticate-new_iff read_to_string path content allow_anonymous user password readable =
    rw readable (
      let known =
        authenticate-file_iff path (users_of (lines content)) allow_anonymous user password in
      (
        λ u. Names-users_of (lines content) user (or_else password []) (known.0 u),
        λ n. known.1 (users_of-Names (lines content) user (or_else password []) n),
      ))
