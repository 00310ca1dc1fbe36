-- ===== src/Broker/Subscription.antt =====
-- The subscription tree of mqtt-broker/src/subscription.rs.
pub mod Stored
pub mod Keys
pub mod Collect
pub mod Paths
pub mod Lookup
pub mod Refinement
use atom_mqtt.Prelude.{
  ℕ, ◌+◌, ◌≡◌, refl, Bool, true, false, not, ◌&&◌, Option, none, some, List, [], ◌∷◌, ◌++◌, any,
  retain, length, if◌then◌else◌, Bytes, codes, str_eq,
}
use atom_mqtt.Common.{Qos, at_most_once, at_least_once}
use atom_mqtt.Common.Levels.{hash, plus}
use atom_mqtt.Common.Split.{split, levels}

pub record Subscription : Type 0 where
  pub client_id : Bytes
  pub filter : Bytes
  pub qos : Qos

-- `TopicNode`; `Children` is its `Vec<(String, TopicNode)>`.
mutual
  pub data TopicNode : Type 0 where
    node : List Subscription → Children → TopicNode

  pub data Children : Type 0 where
    leaf : Children
    child : Bytes → TopicNode → Children → Children

pub record SubscriptionTree : Type 0 where
  pub root : TopicNode

abbrev pub subscriptions : TopicNode → List Subscription
subscriptions (node subs children) = subs

abbrev pub children : TopicNode → Children
children (node subs cs) = cs

-- `TopicNode::new`
abbrev pub new_node : TopicNode
new_node = node [] leaf

-- `SubscriptionTree::new`
abbrev pub new : SubscriptionTree
new = record { root = new_node }

-- `children.iter().find(|(s, _)| s == segment)`
unfoldable pub find_child : Bytes → Children → Option TopicNode
find_child segment leaf = none
find_child segment (child s n cs) = if str_eq s segment then some n else find_child segment cs

-- The write through `&mut children[pos].1`, at the first child for the segment.
unfoldable pub set_child : Bytes → TopicNode → Children → Children
set_child segment m leaf = leaf
set_child segment m (child s n cs) =
    if str_eq s segment then child s m cs else child s n (set_child segment m cs)

-- `children.push((segment, m))`
unfoldable pub push_child : Bytes → TopicNode → Children → Children
push_child segment m leaf = child segment m leaf
push_child segment m (child s n cs) = child s n (push_child segment m cs)

-- The test of the `find` in `insert_node`, which is also how `lookup` knows a subscription again.
abbrev pub same_key : Bytes → Bytes → Subscription → Bool
same_key client filter s = str_eq s.client_id client && str_eq s.filter filter

-- `insert_node` at its node: a new QoS for the first subscription with the key, or a push.
unfoldable pub upsert : Subscription → List Subscription → List Subscription
upsert sub [] = sub ∷ []
upsert sub (existing ∷ subs) =
    if same_key sub.client_id sub.filter existing
    then record existing { qos = sub.qos } ∷ subs
    else existing ∷ upsert sub subs

unfoldable pub insert_node : TopicNode → List Bytes → Subscription → TopicNode
insert_node (node subs cs) [] sub = node (upsert sub subs) cs
insert_node (node subs cs) (segment ∷ rest) sub = elim (find_child segment cs) [
  | some n ↦ node subs (set_child segment (insert_node n rest sub) cs)
  | none ↦ node subs (push_child segment (insert_node new_node rest sub) cs)
]

pub subscribe : SubscriptionTree → Bytes → Bytes → Qos → SubscriptionTree
subscribe self client_id filter qos = record {
  root =
      insert_node self.root (levels filter)
        (record { client_id = client_id; filter = filter; qos = qos });
}

-- `retain(|s| s.client_id != client_id)`
abbrev pub without_client : Bytes → List Subscription → List Subscription
without_client client_id subs = retain (λ s. not (str_eq s.client_id client_id)) subs

unfoldable pub remove_subscription : TopicNode → List Bytes → Bytes → TopicNode
remove_subscription (node subs cs) [] client_id = node (without_client client_id subs) cs
remove_subscription (node subs cs) (segment ∷ rest) client_id = elim (find_child segment cs) [
  | some n ↦ node subs (set_child segment (remove_subscription n rest client_id) cs)
  | none ↦ node subs cs
]

pub unsubscribe : SubscriptionTree → Bytes → Bytes → SubscriptionTree
unsubscribe self client_id filter = record {
  root = remove_subscription self.root (levels filter) client_id;
}

unfoldable mutual
  pub remove_client : Bytes → TopicNode → TopicNode
  remove_client client_id (node subs cs) =
      node (without_client client_id subs) (remove_client_all client_id cs)

  pub remove_client_all : Bytes → Children → Children
  remove_client_all client_id leaf = leaf
  remove_client_all client_id (child s n cs) =
      child s (remove_client client_id n) (remove_client_all client_id cs)

pub unsubscribe_all : SubscriptionTree → Bytes → SubscriptionTree
unsubscribe_all self client_id = record { root = remove_client client_id self.root }

-- `results` with the `HashSet` of keys that are in it.
pub record Found : Type 0 where
  pub results : List Subscription
  pub seen : List (Bytes × Bytes)

abbrev pub nothing : Found
nothing = record { results = []; seen = [] }

-- `seen.contains(&key)`, by which `seen.insert(key)` answers.
unfoldable pub has_seen : Bytes → Bytes → List (Bytes × Bytes) → Bool
has_seen client filter seen = any (λ k. str_eq k.0 client && str_eq k.1 filter) seen

-- `if seen.insert(key) { results.push(sub.clone()); }`
unfoldable pub push_one : Subscription → Found → Found
push_one sub found = if has_seen sub.client_id sub.filter found.seen then found else record {
  results = found.results ++ sub ∷ [];
  seen = (sub.client_id, sub.filter) ∷ found.seen;
}

-- The `for` loop over a node's subscriptions.
unfoldable pub push_new : List Subscription → Found → Found
push_new [] found = found
push_new (sub ∷ subs) found = push_new subs (push_one sub found)

-- `if let Some(n) = …find(…)`
abbrev pub if_some : Option TopicNode → (TopicNode → Found → Found) → Found → Found
if_some none f found = found
if_some (some n) f found = f n found

unfoldable pub collect_matching : List Bytes → TopicNode → Found → Found
collect_matching [] (node subs cs) found =
    let wild = if_some (find_child hash cs) (λ n. push_new (subscriptions n)) found in
    push_new subs wild
collect_matching (segment ∷ rest) (node subs cs) found =
    let wild = if_some (find_child hash cs) (λ n. push_new (subscriptions n)) found in
    let exact = if_some (find_child segment cs) (collect_matching rest) wild in
    if_some (find_child plus cs) (collect_matching rest) exact

pub lookup : SubscriptionTree → Bytes → List Subscription
lookup self topic = (collect_matching (levels topic) self.root nothing).results

unfoldable mutual
  pub count_node : TopicNode → ℕ
  count_node (node subs cs) = length subs + count_children cs

  pub count_children : Children → ℕ
  count_children leaf = 0
  count_children (child s n cs) = count_node n + count_children cs

pub count : SubscriptionTree → ℕ
count self = count_node self.root

unfoldable mutual
  pub collect_all : TopicNode → Found → Found
  collect_all (node subs cs) found = collect_children cs (push_new subs found)

  pub collect_children : Children → Found → Found
  collect_children leaf found = found
  collect_children (child s n cs) found = collect_children cs (collect_all n found)

pub all_subscriptions : SubscriptionTree → List Subscription
all_subscriptions self = (collect_all self.root nothing).results
