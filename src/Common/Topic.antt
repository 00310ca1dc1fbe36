-- ===== src/Common/Topic.antt =====
-- `TopicFilter` and `TopicName` of mqtt-core/src/common.rs.
pub mod Matching
use atom_mqtt.Prelude.{
  ℕ, zero, suc, ◌+◌, ◌≤◌, ◌≡◌, refl, Bool, true, false, not, ◌&&◌, ◌||◌, Option, none, some, List,
  [], ◌∷◌, leb, ◌==◌, if◌then◌else◌, length, get_elem?, any, Bytes, codes, str_eq, str_eq_iff,
  arith,
}
use atom_mqtt.Common.Levels.{hash, plus, segment_at}
use atom_mqtt.Common.Split.{split, levels, trim}

pub record TopicFilter : Type 0 where
  pub filter : Bytes
  pub segments : List Bytes
  pub has_multiwild : Bool

-- `segments.last().map(|s| s == "#").unwrap_or(false)`
last_is_hash : List Bytes → Bool
last_is_hash [] = false
last_is_hash (s ∷ []) = str_eq s hash
last_is_hash (s ∷ t ∷ rest) = last_is_hash (t ∷ rest)

pub new : Bytes → TopicFilter
new f = record {
  filter = trim f;
  segments = levels (trim f);
  has_multiwild = last_is_hash (levels (trim f));
}

-- The `for` loop: the segments that are left, and the topic's index `ti`.
matches_loop : List Bytes → List Bytes → ℕ → Bool
matches_loop [] topic_segs ti = ti == length topic_segs
matches_loop (seg ∷ segments) topic_segs ti =
    let next = matches_loop segments topic_segs (ti + 1) in
    if str_eq seg hash
    then true
    else if leb (length topic_segs) ti
    then false
    else if str_eq seg plus
    then next
    else if not (str_eq seg (segment_at topic_segs ti))
    then false  -- `topic_segs[ti]`, in range
    else next

pub matches : TopicFilter → Bytes → Bool
matches self topic = matches_loop self.segments (levels topic) 0

-- `TopicName::is_valid`, on the field `name`.
pub is_valid : Bytes → Bool
is_valid [] = false
is_valid (c ∷ s) = not (any (λ b. b == b'+') (c ∷ s) || any (λ b. b == b'#') (c ∷ s))
