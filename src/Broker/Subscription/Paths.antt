-- ===== src/Broker/Subscription/Paths.antt =====
-- Which stored paths the walk reaches.
use atom_mqtt.Prelude.{
  ◌≡◌, refl, ◌∙◌, Bool, true, false, ◌&&◌, ◌||◌, Option, none, some, List, [], ◌∷◌, Bytes, str_eq,
  str_eq_iff, str_eq_refl, arith, Option-cases, inl, inr, ◌⊎◌, or_true, or_split, false≢true,
}
use mathlib.Core.Path.{subst, subst₂}
use atom_mqtt.Common.Levels.{hash, plus}
use atom_mqtt.Broker.Subscription.{
  Subscription, TopicNode, Children, node, subscriptions, find_child,
}
use atom_mqtt.Broker.Subscription.Stored.{stored}
use atom_mqtt.Broker.Subscription.Keys.{has_key}
use atom_mqtt.Broker.Subscription.Collect.{via, reach}

-- A path of the tree covers the levels of a topic: here `#` counts only at the path's end.
unfoldable pub path_covers : List Bytes → List Bytes → Bool
path_covers [] [] = true
path_covers [] (t ∷ ts) = false
path_covers (s ∷ []) [] = str_eq s hash
path_covers (s ∷ r ∷ path) [] = false
path_covers (s ∷ []) (t ∷ ts) =
    str_eq s hash || ((str_eq s plus || str_eq s t) && path_covers [] ts)
path_covers (s ∷ r ∷ path) (t ∷ ts) = (str_eq s plus || str_eq s t) && path_covers (r ∷ path) ts

-- A stored path with the key, which covers the topic.
pub record Hit (c f : Bytes) (ts : List Bytes) (n : TopicNode) : Type 0 where
  pub path : List Bytes
  pub held : has_key c f (stored n path) ≡ true
  pub covers : path_covers path ts ≡ true

-- The two ways to cover the first level.
covers-hash : (ts : List Bytes) → path_covers (hash ∷ []) ts ≡ true
unfolding path_covers str_eq
covers-hash [] = refl
covers-hash (t ∷ ts) = refl

covers-level :
    (s t : Bytes) (path ts : List Bytes)
    → (str_eq s plus || str_eq s t) ≡ true
    → path_covers path ts ≡ true
    → path_covers (s ∷ path) (t ∷ ts) ≡ true
unfolding path_covers
covers-level s t [] ts h k = rw (h, k) (or_true (str_eq s hash))
covers-level s t (r ∷ path) ts h k = rw (h, k)

-- Backwards: what covering the end of a topic, or its next level, takes.
covers_end :
    (s : Bytes) (path : List Bytes) → path_covers (s ∷ path) [] ≡ true → (s ≡ hash) × (path ≡ [])
unfolding path_covers
covers_end s [] h = ((str_eq_iff s hash).0 h, refl)
covers_end s (r ∷ path) h = cc

covers_step :
    (s : Bytes) (path : List Bytes) (t : Bytes) (ts : List Bytes)
    → path_covers (s ∷ path) (t ∷ ts) ≡ true
    → ((s ≡ hash) × (path ≡ []))
      ⊎ (((s ≡ plus) × (path_covers path ts ≡ true)) ⊎ ((s ≡ t) × (path_covers path ts ≡ true)))
unfolding path_covers
covers_step s [] t ts h = ground (arith, str_eq_iff s hash, str_eq_iff s plus, str_eq_iff s t)
covers_step s (r ∷ path) t ts h = ground (arith, str_eq_iff s plus, str_eq_iff s t)

via-eq-true :
    (o : Option TopicNode) (g : TopicNode → Bool)
    → via o g ≡ true
    → (n : TopicNode) × (o ≡ some n) × (g n ≡ true)
via-eq-true none g h = absurd (false≢true h)
via-eq-true (some n) g h = (n, refl, h)

stored-child :
    (s : Bytes) (path : List Bytes) (subs : List Subscription) (cs : Children) {n : TopicNode}
    → find_child s cs ≡ some n
    → stored (node subs cs) (s ∷ path) ≡ stored n path
unfolding stored
stored-child s path subs cs e = rw (e, stored)

stored-nil : (n : TopicNode) → stored n [] ≡ subscriptions n
unfolding stored
stored-nil (node subs cs) = refl

module _ (c f : Bytes) where
  hash-Hit :
      (subs : List Subscription) (cs : Children) (ts : List Bytes)
      → via (find_child hash cs) (λ m. has_key c f (subscriptions m)) ≡ true
      → Hit c f ts (node subs cs)
  hash-Hit subs cs ts h =
      let (n, e, held) = via-eq-true (find_child hash cs) _ h in
      record {
        path = hash ∷ [];
        held = rw (stored-child hash [] subs cs e ∙ stored-nil n) held;
        covers = covers-hash ts;
      }

  level-Hit :
      (subs : List Subscription) (cs : Children) (s t : Bytes) (ts : List Bytes)
      → (str_eq s plus || str_eq s t) ≡ true
      → (n : TopicNode) → find_child s cs ≡ some n
      → Hit c f ts n
      → Hit c f (t ∷ ts) (node subs cs)
  level-Hit subs cs s t ts h n e hit = record {
    path = s ∷ hit.path;
    held = rw (stored-child s hit.path subs cs e) hit.held;
    covers = covers-level s t hit.path ts h hit.covers;
  }

  -- What the walk reaches is stored at a path that covers the topic.
  pub reach_sound : (ts : List Bytes) (n : TopicNode) → reach c f ts n ≡ true → Hit c f ts n
  unfolding reach
  reach_sound [] (node subs cs) h = elim (or_split _ _ h) [
    | inl wild ↦ hash-Hit subs cs [] wild
    | inr here ↦ record {
      path = [];
      held = unfold stored in here;
      covers = unfold path_covers in refl;
    }
  ]
  reach_sound (t ∷ ts) (node subs cs) h =
      let by_hash : Bool = via (find_child hash cs) (λ m. has_key c f (subscriptions m)) in
      let by_name : Bool = via (find_child t cs) (reach c f ts) in
      let by_plus : Bool = via (find_child plus cs) (reach c f ts) in
      elim (or_split (by_hash || by_name) by_plus h) [
        | inr k ↦
            let (n, e, r) = via-eq-true (find_child plus cs) (reach c f ts) k in
            level-Hit subs cs plus t ts (rw (str_eq_refl plus)) n e (reach_sound ts n r)
        | inl k ↦ elim (or_split by_hash by_name k) [
          | inl wild ↦ hash-Hit subs cs (t ∷ ts) wild
          | inr exact ↦
              let (n, e, r) = via-eq-true (find_child t cs) (reach c f ts) exact in
              level-Hit subs cs t t ts (rw (str_eq_refl t) (or_true (str_eq t plus))) n e
                (reach_sound ts n r)
        ]
      ]

  stored-some :
      (s : Bytes) (path : List Bytes) (subs : List Subscription) (cs : Children)
      → has_key c f (stored (node subs cs) (s ∷ path)) ≡ true
      → (n : TopicNode) × (find_child s cs ≡ some n) × (has_key c f (stored n path) ≡ true)
  unfolding stored
  stored-some s path subs cs h = elim (Option-cases (find_child s cs)) [
    | inl e ↦ absurd (false≢true (rw (e, stored) at h))
    | inr (n, e) ↦ (n, e, rw (stored-child s path subs cs e) at h)
  ]

  wild_reach :
      (subs : List Subscription) (cs : Children)
      → has_key c f (stored (node subs cs) (hash ∷ [])) ≡ true
      → via (find_child hash cs) (λ m. has_key c f (subscriptions m)) ≡ true
  wild_reach subs cs h =
      let (n, e, held) = stored-some hash [] subs cs h in rw e (rw (stored-nil n) at held)

  hash_path :
      (s : Bytes) (path : List Bytes) (subs : List Subscription) (cs : Children)
      → s ≡ hash
      → path ≡ []
      → has_key c f (stored (node subs cs) (s ∷ path)) ≡ true
      → via (find_child hash cs) (λ m. has_key c f (subscriptions m)) ≡ true
  hash_path s path subs cs es ep h =
      wild_reach subs cs
        (subst₂ (λ x y. has_key c f (stored (node subs cs) (x ∷ y)) ≡ true) es ep h)

  -- What is stored at a path that covers the topic is reached.
  pub reach_complete :
      (path ts : List Bytes) (n : TopicNode)
      → has_key c f (stored n path) ≡ true
      → path_covers path ts ≡ true
      → reach c f ts n ≡ true
  unfolding reach
  reach_complete [] [] (node subs cs) h k = rw (rw (stored-nil (node subs cs)) at h) (or_true _)
  reach_complete [] (t ∷ ts) (node subs cs) h k = absurd (false≢true (unfold path_covers in k))
  reach_complete (s ∷ path) [] (node subs cs) h k =
      let (es, ep) = covers_end s path k in rw (hash_path s path subs cs es ep h)
  reach_complete (s ∷ path) (t ∷ ts) (node subs cs) h k = elim (covers_step s path t ts k) [
    | inl (es, ep) ↦ rw (hash_path s path subs cs es ep h)
    | inr (inl (es, k')) ↦
        let (n, e, held) = stored-some s path subs cs h in
        rw (subst (λ x. find_child x cs ≡ some n) es e)
          (rw (reach_complete path ts n held k') (or_true _))
    | inr (inr (es, k')) ↦
        let (n, e, held) = stored-some s path subs cs h in
        rw (subst (λ x. find_child x cs ≡ some n) es e)
          (rw (reach_complete path ts n held k') (rw or_true))
  ]
