-- ===== src/Common/Levels.antt =====
-- What "the topic matches the filter" means to the broker, over the levels of both. It is MQTT's
-- meaning but for two things: a topic that begins with `$` is not kept from a filter that begins with
-- a wildcard, and what stands behind a `#` is passed over instead of refused.
use atom_mqtt.Prelude.{
  ℕ, zero, suc, ◌≤◌, ◌<◌, ◌≡◌, ◌↔◌, refl, Bool, true, false, ◌&&◌, ◌||◌, List, [], ◌∷◌, length,
  drop, Bytes, str_eq, str_eq_iff, arith,
}

abbrev pub hash : Bytes
hash = b'#' ∷ []

abbrev pub plus : Bytes
plus = b'+' ∷ []

-- `#` stands for any levels that are left, `+` for one level, and any other level for itself.
pub data Matches : List Bytes → List Bytes → Type 0 where
  done : Matches [] []
  rest : {f : Bytes} {fs ts : List Bytes} → f ≡ hash → Matches (f ∷ fs) ts
  one : {f t : Bytes} {fs ts : List Bytes} → f ≡ plus → Matches fs ts → Matches (f ∷ fs) (t ∷ ts)
  same : {f t : Bytes} {fs ts : List Bytes} → f ≡ t → Matches fs ts → Matches (f ∷ fs) (t ∷ ts)

-- The same as a test.
unfoldable pub levels_match : List Bytes → List Bytes → Bool
levels_match [] [] = true
levels_match [] (t ∷ ts) = false
levels_match (f ∷ fs) [] = str_eq f hash
levels_match (f ∷ fs) (t ∷ ts) =
    str_eq f hash || ((str_eq f plus || str_eq f t) && levels_match fs ts)

levels_match_sound : (fs ts : List Bytes) → levels_match fs ts ≡ true → Matches fs ts
unfolding levels_match
levels_match_sound [] [] h = done
levels_match_sound [] (t ∷ ts) h = cc
levels_match_sound (f ∷ fs) [] h = rest ((str_eq_iff f hash).0 h)
levels_match_sound (f ∷ fs) (t ∷ ts) h =
    decide (str_eq f hash) (str_eq f plus) (str_eq f t) (levels_match fs ts) h (str_eq_iff f hash).0
      (str_eq_iff f plus).0 (str_eq_iff f t).0 (levels_match_sound fs ts)
  where
    decide :
        (b c d e : Bool)
        → (b || ((c || d) && e)) ≡ true
        → (b ≡ true → f ≡ hash)
        → (c ≡ true → f ≡ plus)
        → (d ≡ true → f ≡ t)
        → (e ≡ true → Matches fs ts)
        → Matches (f ∷ fs) (t ∷ ts)
    decide true c d e h hb hc hd he = rest (hb refl)
    decide false true d true h hb hc hd he = one (hc refl) (he refl)
    decide false false true true h hb hc hd he = same (hd refl) (he refl)
    decide false true d false h hb hc hd he = cc
    decide false false true false h hb hc hd he = cc
    decide false false false e h hb hc hd he = cc

levels_match_complete : {fs ts : List Bytes} → Matches fs ts → levels_match fs ts ≡ true
unfolding levels_match
levels_match_complete done = refl
levels_match_complete (rest {ts = []} e) = (str_eq_iff _ hash).1 e
levels_match_complete (rest {f} {ts = t ∷ ts} e) = ground (arith, (str_eq_iff f hash).1 e)
levels_match_complete (one {f} e m) =
    ground (arith, (str_eq_iff f plus).1 e, levels_match_complete m)
levels_match_complete (same {f} {t} e m) =
    ground (arith, (str_eq_iff f t).1 e, levels_match_complete m)

-- The test decides the relation.
pub levels_match_iff : (fs ts : List Bytes) → (levels_match fs ts ≡ true) ↔ Matches fs ts
levels_match_iff fs ts = (levels_match_sound fs ts, levels_match_complete)

-- The levels from an index on, for matchers that walk by index.
unfoldable pub segment_at : List Bytes → ℕ → Bytes
segment_at [] i = []
segment_at (s ∷ ss) zero = s
segment_at (s ∷ ss) (suc i) = segment_at ss i

pub drop_at :
    (ss : List Bytes) (i : ℕ) → i < length ss → drop i ss ≡ segment_at ss i ∷ drop (suc i) ss
unfolding segment_at
drop_at [] i h = absurd (omega arith)
drop_at (s ∷ ss) zero h = refl
drop_at (s ∷ ss) (suc i) h = drop_at ss i (omega arith)

pub drop_past : (ss : List Bytes) (i : ℕ) → length ss ≤ i → drop i ss ≡ []
drop_past [] zero h = refl
drop_past [] (suc i) h = refl
drop_past (s ∷ ss) zero h = absurd (omega arith)
drop_past (s ∷ ss) (suc i) h = drop_past ss i (omega arith)
