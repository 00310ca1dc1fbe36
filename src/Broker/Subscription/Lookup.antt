-- ===== src/Broker/Subscription/Lookup.antt =====
-- `lookup` and the updates of the tree, by keys.
use atom_mqtt.Prelude.{
  ◌≡◌, ◌↔◌, refl, ap, sym, ◌∙◌, Bool, true, not, ◌&&◌, ◌||◌, List, [], ◌∷◌, Bytes, str_eq,
  str_eq_iff, arith, Bool-cases, inl, inr, if◌then◌else◌, false≢true, or_split, &&_split,
}
use atom_mqtt.Common.{Qos}
use atom_mqtt.Common.Split.{levels}
use atom_mqtt.Common.Split.Join.{levels-injective}
use atom_mqtt.Broker.Subscription.{
  Subscription, SubscriptionTree, new, upsert, without_client, nothing, same_key, subscribe,
  unsubscribe, unsubscribe_all, lookup,
}
use atom_mqtt.Broker.Subscription.Stored.{
  path_eq, stored, stored-new, stored-insert_node, stored-remove_subscription, stored-remove_client,
}
use atom_mqtt.Broker.Subscription.Keys.{
  has_key, has_key-upsert, has_key-without_client, Distinct, IsFound-nothing,
}
use atom_mqtt.Broker.Subscription.Collect.{reach, Adds-collect_matching}
use atom_mqtt.Broker.Subscription.Paths.{path_covers, reach_sound, reach_complete}

-- The client holds a subscription to the filter: it is stored at the end of the filter's levels.
unfoldable pub subscribed : Bytes → Bytes → SubscriptionTree → Bool
subscribed client filter t = has_key client filter (stored t.root (levels filter))

-- Every subscription stands at the end of its own filter's levels.
pub record IsFiled (t : SubscriptionTree) : Type 0 where
  pub filed :
      (path : List Bytes) (c f : Bytes) → has_key c f (stored t.root path) ≡ true → levels f ≡ path

path_eq_iff : (p q : List Bytes) → (path_eq p q ≡ true) ↔ (p ≡ q)
unfolding path_eq
path_eq_iff [] [] = ground arith
path_eq_iff [] (t ∷ q) = ground arith
path_eq_iff (s ∷ p) [] = ground arith
path_eq_iff (s ∷ p) (t ∷ q) = ground (arith, str_eq_iff s t, path_eq_iff p q)

path_eq_refl : (p : List Bytes) → path_eq p p ≡ true
path_eq_refl p = (path_eq_iff p p).1 refl

path_eq-levels : (f g : Bytes) → path_eq (levels f) (levels g) ≡ str_eq f g
path_eq-levels f g = elim (Bool-cases (str_eq f g)) [
  | inl e ↦ rw e (rw ((str_eq_iff f g).0 e) (path_eq_refl (levels g)))
  | inr e ↦ rw e (elim (Bool-cases (path_eq (levels f) (levels g))) [
    | inl k ↦ absurd (
        false≢true (
          sym e
          ∙ (str_eq_iff f g).1 (levels-injective f g ((path_eq_iff (levels f) (levels g)).0 k))))
    | inr k ↦ k
  ])
]

-- A new subscription is held afterwards, and every other one as before.
pub subscribed-subscribe :
    (t : SubscriptionTree) (client filter c f : Bytes) (qos : Qos)
    → subscribed c f (subscribe t client filter qos)
      ≡ ((str_eq client c && str_eq filter f) || subscribed c f t)
unfolding subscribed subscribe
subscribed-subscribe t client filter c f qos =
    let sub : Subscription = record { client_id = client; filter = filter; qos = qos } in
    rw (stored-insert_node (levels filter) (levels f) t.root sub) (
      rw path_eq-levels (elim (Bool-cases (str_eq filter f)) [
        | inl e ↦ rw e (has_key-upsert c f sub (stored t.root (levels f)) ∙ ground arith)
        | inr e ↦ rw e (ground arith)
      ]))

-- An unsubscription takes away the client's subscription to that filter and no other.
pub subscribed-unsubscribe :
    (t : SubscriptionTree) (client filter c f : Bytes)
    → subscribed c f (unsubscribe t client filter)
      ≡ (not (str_eq c client && str_eq filter f) && subscribed c f t)
unfolding subscribed unsubscribe
subscribed-unsubscribe t client filter c f =
    rw (stored-remove_subscription (levels filter) (levels f) t.root client) (
      rw path_eq-levels (elim (Bool-cases (str_eq filter f)) [
        | inl e ↦ rw e (has_key-without_client c f client (stored t.root (levels f)) ∙ ground arith)
        | inr e ↦ rw e (ground arith)
      ]))

-- Taking a client off the tree takes away all its subscriptions and no other.
pub subscribed-unsubscribe_all :
    (t : SubscriptionTree) (client c f : Bytes)
    → subscribed c f (unsubscribe_all t client) ≡ (not (str_eq c client) && subscribed c f t)
unfolding subscribed unsubscribe_all
subscribed-unsubscribe_all t client c f =
    rw stored-remove_client (has_key-without_client c f client (stored t.root (levels f)))

pub IsFiled-new : IsFiled new
IsFiled-new = record { filed = λ path c f h. absurd (false≢true (rw stored-new at h)) }

kept_before :
    (c f client : Bytes) (subs : List Subscription)
    → has_key c f (without_client client subs) ≡ true
    → has_key c f subs ≡ true
kept_before c f client subs h =
    (&&_split (not (str_eq c client)) (has_key c f subs)
      (sym (has_key-without_client c f client subs) ∙ h)).1

pub IsFiled-subscribe :
    (t : SubscriptionTree) (client filter : Bytes) (qos : Qos)
    → IsFiled t
    → IsFiled (subscribe t client filter qos)
unfolding subscribe
IsFiled-subscribe t client filter qos w = record {
  filed = λ path c f h.
      let sub : Subscription = record { client_id = client; filter = filter; qos = qos } in
      let h' : has_key c f (
            if path_eq (levels filter) path
            then upsert sub (stored t.root path)
            else stored t.root path)
          ≡ true =
        rw (stored-insert_node (levels filter) path t.root sub) at h in
      elim (Bool-cases (path_eq (levels filter) path)) [
        | inr e ↦ w.filed path c f (rw e at h')
        | inl e ↦
            elim (or_split (same_key c f sub) (has_key c f (stored t.root path))
              (sym (has_key-upsert c f sub (stored t.root path)) ∙ (rw e at h'))) [
                | inr old ↦ w.filed path c f old
                | inl same ↦
                    sym (
                      ap levels (
                        (str_eq_iff filter f).0
                          (&&_split (str_eq client c) (str_eq filter f) same).1))
                    ∙ (path_eq_iff (levels filter) path).0 e
              ]
      ];
}

pub IsFiled-unsubscribe :
    (t : SubscriptionTree) (client filter : Bytes)
    → IsFiled t
    → IsFiled (unsubscribe t client filter)
unfolding unsubscribe
IsFiled-unsubscribe t client filter w = record {
  filed = λ path c f h.
      let h' : has_key c f (
            if path_eq (levels filter) path
            then without_client client (stored t.root path)
            else stored t.root path)
          ≡ true =
        rw (stored-remove_subscription (levels filter) path t.root client) at h in
      elim (Bool-cases (path_eq (levels filter) path)) [
        | inr e ↦ w.filed path c f (rw e at h')
        | inl e ↦ w.filed path c f (kept_before c f client (stored t.root path) (rw e at h'))
      ];
}

pub IsFiled-unsubscribe_all :
    (t : SubscriptionTree) (client : Bytes) → IsFiled t → IsFiled (unsubscribe_all t client)
unfolding unsubscribe_all
IsFiled-unsubscribe_all t client w = record {
  filed = λ path c f h.
      w.filed path c f (kept_before c f client (stored t.root path) (rw stored-remove_client at h));
}

-- The keys of a lookup are the keys held, by subscriptions whose path covers the topic.
pub has_key-lookup :
    (t : SubscriptionTree) (topic c f : Bytes)
    → IsFiled t
    → has_key c f (lookup t topic) ≡ (subscribed c f t && path_covers (levels f) (levels topic))
unfolding lookup subscribed
has_key-lookup t topic c f w =
    (Adds-collect_matching (levels topic) t.root).keys nothing IsFound-nothing c f
    ∙ elim (Bool-cases (reach c f (levels topic) t.root)) [
      | inl e ↦
          let hit = reach_sound c f (levels topic) t.root e in
          let at_levels = w.filed hit.path c f hit.held in
          rw e (rw (at_levels, hit.held, hit.covers))
      | inr e ↦ rw e (
          sym (elim (Bool-cases (subscribed c f t && path_covers (levels f) (levels topic))) [
            | inr k ↦ unfold subscribed in k
            | inl k ↦
                let (held, covers) =
                  &&_split (subscribed c f t) (path_covers (levels f) (levels topic)) k in
                absurd (
                  false≢true
                    (sym e ∙ reach_complete c f (levels f) (levels topic) t.root held covers))
          ]))
    ]

-- A lookup reports no key twice.
pub lookup-Distinct : (t : SubscriptionTree) (topic : Bytes) → Distinct (lookup t topic)
unfolding lookup
lookup-Distinct t topic =
    ((Adds-collect_matching (levels topic) t.root).keeps nothing IsFound-nothing).distinct
