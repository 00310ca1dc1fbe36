-- ===== src/Broker/Subscription/Stored.antt =====
-- The tree as a map from paths to lists of subscriptions.
use atom_mqtt.Prelude.{
  ◌≡◌, refl, Bool, true, false, ◌&&◌, none, some, List, [], ◌∷◌, if◌then◌else◌, Bytes, str_eq,
  str_eq_iff, arith, Option-cases, inl, inr,
}
use atom_mqtt.Broker.Subscription.{
  Subscription, TopicNode, Children, node, leaf, child, new_node, find_child, set_child, push_child,
  upsert, insert_node, without_client, remove_subscription, remove_client, remove_client_all, new,
  count, count_node,
}

-- Two paths are the same.
unfoldable pub path_eq : List Bytes → List Bytes → Bool
path_eq [] [] = true
path_eq [] (t ∷ ts) = false
path_eq (s ∷ ss) [] = false
path_eq (s ∷ ss) (t ∷ ts) = str_eq s t && path_eq ss ts

-- What is stored at the end of a path; nothing if the path leaves the tree.
unfoldable pub stored : TopicNode → List Bytes → List Subscription
stored (node subs cs) [] = subs
stored (node subs cs) (s ∷ path) = elim (find_child s cs) [ none ↦ [] | some n ↦ stored n path ]

pub stored-new : (path : List Bytes) → stored new_node path ≡ []
unfolding stored find_child
stored-new [] = refl
stored-new (s ∷ path) = refl

find_child-set_child :
    (s t : Bytes) (n m : TopicNode) (cs : Children)
    → find_child s cs ≡ some n
    → find_child t (set_child s m cs) ≡ (if str_eq s t then some m else find_child t cs)
unfolding find_child set_child
find_child-set_child s t n m leaf h = cc
find_child-set_child s t n m (child u o cs) h =
    ground (arith, str_eq_iff u s, str_eq_iff u t, str_eq_iff s t, find_child-set_child s t n m cs)

find_child-push_child :
    (s t : Bytes) (m : TopicNode) (cs : Children)
    → find_child s cs ≡ none
    → find_child t (push_child s m cs) ≡ (if str_eq s t then some m else find_child t cs)
unfolding find_child push_child
find_child-push_child s t m leaf h = refl
find_child-push_child s t m (child u o cs) h =
    ground (arith, str_eq_iff u s, str_eq_iff u t, str_eq_iff s t, find_child-push_child s t m cs)

-- A subscription goes to the end of its path, as an update of what is stored there; every other
-- path keeps what it had.
pub stored-insert_node :
    (path q : List Bytes) (n : TopicNode) (sub : Subscription)
    → stored (insert_node n path sub) q
      ≡ (if path_eq path q then upsert sub (stored n q) else stored n q)
unfolding stored insert_node path_eq
stored-insert_node [] [] (node subs cs) sub = refl
stored-insert_node [] (t ∷ q) (node subs cs) sub = refl
stored-insert_node (s ∷ path) [] (node subs cs) sub = elim (Option-cases (find_child s cs)) [
  | inl e ↦ rw (e, insert_node) refl
  | inr (n, e) ↦ rw (e, insert_node) refl
]
stored-insert_node (s ∷ path) (t ∷ q) (node subs cs) sub = elim (Option-cases (find_child s cs)) [
  | inl e ↦
      rw (e, insert_node)
        (ground (
          arith,
          str_eq_iff s t,
          find_child-push_child s t (insert_node new_node path sub) cs e,
          stored-insert_node path q new_node sub,
          stored-new q,
        ))
  | inr (n, e) ↦
      rw (e, insert_node)
        (ground (
          arith,
          str_eq_iff s t,
          find_child-set_child s t n (insert_node n path sub) cs e,
          stored-insert_node path q n sub,
        ))
]

-- An unsubscription takes the client's subscriptions off the end of its path; every other path
-- keeps what it had.
pub stored-remove_subscription :
    (path q : List Bytes) (n : TopicNode) (client : Bytes)
    → stored (remove_subscription n path client) q
      ≡ (if path_eq path q then without_client client (stored n q) else stored n q)
unfolding stored remove_subscription path_eq
stored-remove_subscription [] [] (node subs cs) client = refl
stored-remove_subscription [] (t ∷ q) (node subs cs) client = refl
stored-remove_subscription (s ∷ path) [] (node subs cs) client =
    elim (Option-cases (find_child s cs)) [
      | inl e ↦ rw (e, remove_subscription) refl
      | inr (n, e) ↦ rw (e, remove_subscription) refl
    ]
stored-remove_subscription (s ∷ path) (t ∷ q) (node subs cs) client =
    elim (Option-cases (find_child s cs)) [
      | inl e ↦ rw (e, remove_subscription) (ground (arith, str_eq_iff s t))
      | inr (n, e) ↦
          rw (e, remove_subscription)
            (ground (
              arith,
              str_eq_iff s t,
              find_child-set_child s t n (remove_subscription n path client) cs e,
              stored-remove_subscription path q n client,
            ))
    ]

find_child-remove_client :
    (client t : Bytes) (cs : Children)
    → find_child t (remove_client_all client cs)
      ≡ elim (find_child t cs) [ none ↦ none | some n ↦ some (remove_client client n) ]
unfolding find_child remove_client_all
find_child-remove_client client t leaf = refl
find_child-remove_client client t (child s n cs) =
    ground (arith, find_child-remove_client client t cs)

-- Removing a client takes its subscriptions off every path.
pub stored-remove_client :
    (q : List Bytes) (n : TopicNode) (client : Bytes)
    → stored (remove_client client n) q ≡ without_client client (stored n q)
unfolding stored remove_client
stored-remove_client [] (node subs cs) client = refl
stored-remove_client (t ∷ q) (node subs cs) client = elim (Option-cases (find_child t cs)) [
  | inl e ↦ ground (arith, find_child-remove_client client t cs)
  | inr (n, e) ↦
      ground (arith, find_child-remove_client client t cs, stored-remove_client q n client)
]

pub count-new : count new ≡ 0
unfolding count count_node
count-new = refl
