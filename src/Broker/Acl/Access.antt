-- ===== src/Broker/Acl/Access.antt =====
-- What the access rules of mqtt-broker/src/auth.rs grant.
use atom_mqtt.Prelude.{
  ◌≡◌, ◌↔◌, ◌∙◌, ap, sym, refl, Bool, true, not, ◌&&◌, List, [], ◌∷◌, any, Any, any_iff, any-perm,
  Bytes, str_eq, str_eq_iff, arith, if◌then◌else◌,
}
use mathlib.Core.List.{Perm}
use atom_mqtt.Common.Levels.{Matches, levels_match_iff}
use atom_mqtt.Common.Split.{levels}
use atom_mqtt.Broker.Acl.{
  AclAccess, AclEntry, AclChecker, may_publish, may_subscribe, topic_matches_filter, publish_loop,
  subscribe_loop, authorize_publish, authorize_subscribe,
}
use atom_mqtt.Broker.Acl.Matching.{topic_matches_filter-eq-levels_match}

-- A rule for this user, with the access wanted, whose filter matches the topic.
pub record Grants (may : AclAccess → Bool) (username topic : Bytes) (e : AclEntry) : Type 0 where
  pub user : e.username ≡ username
  pub access : may e.access ≡ true
  pub covers : Matches (levels e.filter) (levels topic)

abbrev grants : (AclAccess → Bool) → Bytes → Bytes → AclEntry → Bool
grants may username topic e =
    str_eq e.username username && (may e.access && topic_matches_filter topic e.filter)

topic_matches_filter_iff :
    (topic filter : Bytes)
    → (topic_matches_filter topic filter ≡ true) ↔ Matches (levels filter) (levels topic)
topic_matches_filter_iff topic filter =
    rw topic_matches_filter-eq-levels_match (levels_match_iff (levels filter) (levels topic))

grants_iff :
    (may : AclAccess → Bool) (username topic : Bytes) (e : AclEntry)
    → (grants may username topic e ≡ true) ↔ Grants may username topic e
grants_iff may username topic e =
    let user = str_eq_iff e.username username in
    let covers = topic_matches_filter_iff topic e.filter in
    (
      λ h.
          let (a, b, c) = split_tests h in
          record { user = user.0 a; access = b; covers = covers.0 c },
      λ g. rw (user.1 g.user, g.access, covers.1 g.covers),
    )
  where
    split_tests :
        grants may username topic e ≡ true
        → (str_eq e.username username ≡ true)
          × (may e.access ≡ true)
          × (topic_matches_filter topic e.filter ≡ true)
    split_tests h = ground arith

publish_loop-eq-any :
    (es : List AclEntry) (u t : Bytes) → publish_loop es u t ≡ any (grants may_publish u t) es
unfolding publish_loop
publish_loop-eq-any [] u t = refl
publish_loop-eq-any (e ∷ es) u t = ground (arith, publish_loop-eq-any es u t)

subscribe_loop-eq-any :
    (es : List AclEntry) (u t : Bytes) → subscribe_loop es u t ≡ any (grants may_subscribe u t) es
unfolding subscribe_loop
subscribe_loop-eq-any [] u t = refl
subscribe_loop-eq-any (e ∷ es) u t = ground (arith, subscribe_loop-eq-any es u t)

pub authorize_subscribe_iff :
    (self : AclChecker) (username filter : Bytes)
    → self.enabled ≡ true
    → (authorize_subscribe self username filter ≡ true)
      ↔ Any (Grants may_subscribe username filter) self.entries
unfolding authorize_subscribe
authorize_subscribe_iff self username filter h = rw h (
    rw subscribe_loop-eq-any (
      any_iff (grants may_subscribe username filter) (Grants may_subscribe username filter)
        (grants_iff may_subscribe username filter) self.entries))

-- The order of the rules never decides: permuted rules answer every request alike.
pub authorize-perm :
    (es es' : List AclEntry) (enabled : Bool) (username topic : Bytes)
    → Perm es es'
    → (authorize_publish (record { entries = es; enabled = enabled }) username topic
        ≡ authorize_publish (record { entries = es'; enabled = enabled }) username topic)
      × (authorize_subscribe (record { entries = es; enabled = enabled }) username topic
          ≡ authorize_subscribe (record { entries = es'; enabled = enabled }) username topic)
unfolding authorize_publish authorize_subscribe
authorize-perm es es' enabled u t d = (
  ap (λ b. if not enabled then true else b)
      (publish_loop-eq-any es u t
        ∙ any-perm (grants may_publish u t) d
        ∙ sym (publish_loop-eq-any es' u t)),
  ap (λ b. if not enabled then true else b)
      (subscribe_loop-eq-any es u t
        ∙ any-perm (grants may_subscribe u t) d
        ∙ sym (subscribe_loop-eq-any es' u t)),
)
