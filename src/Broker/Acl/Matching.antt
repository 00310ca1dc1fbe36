-- ===== src/Broker/Acl/Matching.antt =====
-- The matcher of the access rules against MQTT's, and against `TopicFilter`.
use atom_mqtt.Prelude.{
  ℕ, zero, suc, ◌+◌, ◌≤◌, ◌≡◌, ◌∙◌, ap, sym, refl, true, List, [], ◌∷◌, length, drop, Bytes, ltb,
  str_eq, str_eq_iff, arith, Bool-cases, inl, inr,
}
use native.Mathlib.Numerals.{add-one}
use atom_mqtt.Common.Levels.{hash, levels_match, drop_at, drop_past}
use atom_mqtt.Common.Split.{levels, trim, split}
use atom_mqtt.Common.Topic
use atom_mqtt.Common.Topic.Matching.{matches-eq-levels_match}
use atom_mqtt.Broker.Acl.{filter_loop, topic_matches_filter}

filter_loop-eq-levels_match :
    (fuel : ℕ) (ts fs : List Bytes) (ti fi : ℕ)
    → ti ≤ length ts
    → fi + fuel ≡ length fs
    → filter_loop fuel ts fs ti fi ≡ levels_match (drop fi fs) (drop ti ts)
unfolding filter_loop levels_match
filter_loop-eq-levels_match zero ts fs ti fi h e =
    rw (drop_past fs fi (omega arith)) (elim (Bool-cases (ltb ti (length ts))) [
      | inl more ↦ rw (drop_at ts ti (ground arith), levels_match) (ground arith)
      | inr last ↦ rw (drop_past ts ti (ground arith), levels_match) (ground arith)
    ])
filter_loop-eq-levels_match (suc fuel) ts fs ti fi h e =
    rw (drop_at fs fi (omega arith)) (elim (Bool-cases (ltb ti (length ts))) [
      | inl more ↦
          rw (drop_at ts ti (ground arith), levels_match)
            (ground (
              arith,
              add-one ti,
              add-one fi,
              filter_loop-eq-levels_match fuel ts fs (suc ti) (suc fi),
            ))
      | inr last ↦ rw (drop_past ts ti (ground arith), levels_match) (ground arith)
    ])

split_hash : levels hash ≡ hash ∷ []
unfolding split
split_hash = refl

hash_matches : (ts : List Bytes) → levels_match (hash ∷ []) ts ≡ true
unfolding levels_match str_eq
hash_matches [] = refl
hash_matches (t ∷ ts) = refl

pub topic_matches_filter-eq-levels_match :
    (topic filter : Bytes)
    → topic_matches_filter topic filter ≡ levels_match (levels filter) (levels topic)
unfolding topic_matches_filter
topic_matches_filter-eq-levels_match topic filter = elim (Bool-cases (str_eq filter hash)) [
  | inl e ↦
      rw e (rw ((str_eq_iff filter hash).0 e) (rw split_hash (sym (hash_matches (levels topic)))))
  | inr e ↦ rw e (
      filter_loop-eq-levels_match (length (levels filter)) (levels topic) (levels filter) 0 0
        (omega arith) (omega arith))
]

-- The access rules' own matcher agrees with `TopicFilter::matches` on every topic, for a filter
-- without white space at its ends.
pub topic_matches_filter-eq-matches :
    (topic filter : Bytes)
    → trim filter ≡ filter
    → topic_matches_filter topic filter ≡ Topic.matches (Topic.new filter) topic
topic_matches_filter-eq-matches topic filter h =
    topic_matches_filter-eq-levels_match topic filter
    ∙ sym
        (matches-eq-levels_match filter topic ∙ ap (λ f. levels_match (levels f) (levels topic)) h)
