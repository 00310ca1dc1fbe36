-- ===== src/Broker/Subscription/Collect.antt =====
-- What the walk of `collect_matching` finds.
use atom_mqtt.Prelude.{Bool, false, ◌||◌, Option, none, some, List, [], ◌∷◌, Bytes}
use atom_mqtt.Common.Levels.{hash, plus}
use atom_mqtt.Broker.Subscription.{
  TopicNode, Found, node, subscriptions, find_child, if_some, push_new, collect_matching,
}
use atom_mqtt.Broker.Subscription.Keys.{has_key, Adds, Adds-nothing, Adds-then, Adds-push_new}

abbrev pub via : Option TopicNode → (TopicNode → Bool) → Bool
via none reached = false
via (some n) reached = reached n

-- The key is met by the walk from a node along the levels of a topic.
unfoldable pub reach : Bytes → Bytes → List Bytes → TopicNode → Bool
reach c f [] (node subs cs) =
    via (find_child hash cs) (λ n. has_key c f (subscriptions n)) || has_key c f subs
reach c f (t ∷ ts) (node subs cs) =
    (via (find_child hash cs) (λ n. has_key c f (subscriptions n))
      || via (find_child t cs) (reach c f ts))
    || via (find_child plus cs) (reach c f ts)

Adds-if_some :
    (o : Option TopicNode) (F : TopicNode → Found → Found) (R : TopicNode → Bytes → Bytes → Bool)
    → ((n : TopicNode) → Adds (F n) (R n))
    → Adds (if_some o F) (λ c f. via o (λ n. R n c f))
Adds-if_some none F R h = Adds-nothing
Adds-if_some (some n) F R h = h n

wild_step :
    (o : Option TopicNode)
    → Adds
        (if_some o (λ n. push_new (subscriptions n)))
        (λ c f. via o (λ n. has_key c f (subscriptions n)))
wild_step o =
    Adds-if_some o (λ n. push_new (subscriptions n)) (λ n c f. has_key c f (subscriptions n))
      (λ n. Adds-push_new (subscriptions n))

-- The walk adds the keys that it reaches, each once.
pub Adds-collect_matching :
    (ts : List Bytes) (n : TopicNode) → Adds (collect_matching ts n) (λ c f. reach c f ts n)
unfolding collect_matching reach
Adds-collect_matching [] (node subs cs) =
    Adds-then (wild_step (find_child hash cs)) (Adds-push_new subs)
Adds-collect_matching (t ∷ ts) (node subs cs) =
    Adds-then
      (Adds-then (wild_step (find_child hash cs)) (
        Adds-if_some (find_child t cs) (collect_matching ts) (λ n c f. reach c f ts n)
          (λ n. Adds-collect_matching ts n)))
      (Adds-if_some (find_child plus cs) (collect_matching ts) (λ n c f. reach c f ts n)
        (λ n. Adds-collect_matching ts n))
