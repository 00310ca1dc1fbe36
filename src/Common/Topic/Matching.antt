-- ===== src/Common/Topic/Matching.antt =====
-- `TopicFilter::matches` is MQTT's matching on the levels of the trimmed filter.
use atom_mqtt.Prelude.{
  ℕ, suc, ◌≤◌, ◌≡◌, ◌↔◌, true, List, [], ◌∷◌, length, drop, Bytes, ltb, arith, Bool-cases, inl, inr,
}
use native.Mathlib.Numerals.{add-one}
use atom_mqtt.Common.Levels.{Matches, levels_match, levels_match_iff, drop_at, drop_past}
use atom_mqtt.Common.Split.{levels, trim}
use atom_mqtt.Common.Topic.{new, matches_loop, matches}

matches_loop-eq-levels_match :
    (segments topic : List Bytes) (ti : ℕ)
    → ti ≤ length topic
    → matches_loop segments topic ti ≡ levels_match segments (drop ti topic)
unfolding matches_loop levels_match
matches_loop-eq-levels_match [] topic ti h = elim (Bool-cases (ltb ti (length topic))) [
  | inl more ↦ rw (drop_at topic ti (ground arith), levels_match) (ground arith)
  | inr last ↦ rw (drop_past topic ti (ground arith), levels_match) (ground arith)
]
matches_loop-eq-levels_match (seg ∷ segments) topic ti h =
    elim (Bool-cases (ltb ti (length topic))) [
      | inl more ↦
          rw (drop_at topic ti (ground arith), levels_match)
            (ground (arith, add-one ti, matches_loop-eq-levels_match segments topic (suc ti)))
      | inr last ↦ rw (drop_past topic ti (ground arith), levels_match) (ground arith)
    ]

pub matches-eq-levels_match :
    (filter topic : Bytes)
    → matches (new filter) topic ≡ levels_match (levels (trim filter)) (levels topic)
unfolding matches new
matches-eq-levels_match filter topic =
    matches_loop-eq-levels_match (levels (trim filter)) (levels topic) 0 (omega arith)

-- A topic filter matches a topic exactly when the levels of the trimmed filter match those of the
-- topic by `Matches`: `+` stands for one level, `#` for the levels that are left, whatever stands
-- behind it in the filter, and any other level for itself, an empty one too; a topic that begins with
-- `$` is matched like any other.
pub matches_iff :
    (filter topic : Bytes)
    → (matches (new filter) topic ≡ true) ↔ Matches (levels (trim filter)) (levels topic)
matches_iff filter topic =
    rw matches-eq-levels_match (levels_match_iff (levels (trim filter)) (levels topic))
