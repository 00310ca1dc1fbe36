-- ===== src/Broker/Router/Forward.antt =====
-- To whom the router of mqtt-broker/src/server.rs sends.
use atom_mqtt.Prelude.{
  ℕ, ◌≡◌, ◌↔◌, refl, ap, sym, ◌∙◌, Bool, true, false, none, some, List, ◌∷◌, ◌++◌, append_assoc,
  append-nil, Any, Bytes, str_eq, str_eq_iff, str_eq_refl, Option-cases, inl, inr, or_split,
  or_true, &&_split, false≢true, [],
}
use atom_mqtt.Common.{Qos}
use atom_mqtt.Common.Levels.{Matches, levels_match_iff}
use atom_mqtt.Common.Split.{levels}
use atom_mqtt.V3.Encode.{packet_bytes}
use atom_mqtt.Broker.Store.{DashMap}
use atom_mqtt.Broker.Subscription
use atom_mqtt.Broker.Subscription.{Subscription, SubscriptionTree, same_key}
use atom_mqtt.Broker.Subscription.Keys.{has_key}
use atom_mqtt.Broker.Subscription.Lookup.{subscribed, IsFiled, has_key-lookup}
use atom_mqtt.Broker.Subscription.Refinement.{HashLast, path_covers-eq-levels_match}
use atom_mqtt.Broker.State.{BrokerState, WebMessage, send_to, send_web, count}
use atom_mqtt.Broker.Process.{forwarded, send_client}
use atom_mqtt.Broker.Process.Sends.{quiet, quiet-send_client}
use atom_mqtt.Broker.Router.{forward, forward_web, store_if, route_publish}

module _ (M : DashMap) where
  pub quiet-forward :
      (subs : List Subscription) (bytes : Bytes) (s : BrokerState M)
      → quiet M (forward M subs bytes s) ≡ quiet M s
  unfolding forward
  quiet-forward [] bytes s = refl
  quiet-forward (sub ∷ subs) bytes s =
      quiet-forward subs bytes (send_client M sub.client_id bytes s)
      ∙ quiet-send_client M sub.client_id bytes s

  pub quiet-forward_web :
      (subs : List Subscription) (message : WebMessage) (s : BrokerState M)
      → quiet M (forward_web M subs message s) ≡ quiet M s
  unfolding forward_web send_web
  quiet-forward_web [] message s = refl
  quiet-forward_web (sub ∷ subs) message s =
      elim (Option-cases (M.get s.web_subscribers sub.client_id)) [
        | inl e ↦ rw (e, forward_web) (quiet-forward_web subs message s)
        | inr (tx, e) ↦
            rw (e, forward_web) (quiet-forward_web subs message (send_web M tx message s))
      ]

  pub sent-forward_web :
      (subs : List Subscription) (message : WebMessage) (s : BrokerState M)
      → (forward_web M subs message s).sent ≡ s.sent
  unfolding forward_web send_web
  sent-forward_web [] message s = refl
  sent-forward_web (sub ∷ subs) message s =
      elim (Option-cases (M.get s.web_subscribers sub.client_id)) [
        | inl e ↦ rw (e, forward_web) (sent-forward_web subs message s)
        | inr (tx, e) ↦
            rw (e, forward_web) (sent-forward_web subs message (send_web M tx message s))
      ]

  -- One send for each subscription whose client is connected, in order.
  abbrev pub deliveries : M.Map ℕ → List Subscription → Bytes → List (ℕ × Bytes)
  deliveries connections [] bytes = []
  deliveries connections (sub ∷ subs) bytes = elim (M.get connections sub.client_id) [
    | none ↦ deliveries connections subs bytes
    | some tx ↦ (tx, bytes) ∷ deliveries connections subs bytes
  ]

  pub sent-forward :
      (subs : List Subscription) (bytes : Bytes) (s : BrokerState M)
      → (forward M subs bytes s).sent ≡ s.sent ++ deliveries s.connections subs bytes
  unfolding forward send_client send_to
  sent-forward [] bytes s = sym (append-nil s.sent)
  sent-forward (sub ∷ subs) bytes s = elim (Option-cases (M.get s.connections sub.client_id)) [
    | inl e ↦ rw (e, forward, send_client, deliveries) (sent-forward subs bytes s)
    | inr (tx, e) ↦
        rw (e, forward, send_client, deliveries)
          (sent-forward subs bytes (send_to M tx bytes s)
            ∙ append_assoc s.sent ((tx, bytes) ∷ []) (deliveries s.connections subs bytes))
  ]

  pub sent-store_if :
      (retain : Bool) (now : ℕ) (topic payload : Bytes) (qos : Qos) (s : BrokerState M)
      → (store_if M retain now topic payload qos s).sent ≡ s.sent
  unfolding store_if
  sent-store_if true now topic payload qos s = refl
  sent-store_if false now topic payload qos s = refl

  -- Routing a message sends its PUBLISH once for each subscription that a lookup of the topic finds
  -- and whose client is connected, in the order of the lookup, and nothing else.
  pub sent-route_publish :
      (now : ℕ) (topic payload : Bytes) (qos : Qos) (retain : Bool) (source : Bytes)
      (s : BrokerState M)
      → (route_publish M now topic payload qos retain source s).sent
        ≡ s.sent
          ++ deliveries s.connections
              (Subscription.lookup s.subscriptions topic)
              (packet_bytes (forwarded topic payload false))
  unfolding route_publish count
  sent-route_publish now topic payload qos retain source s =
      sent-store_if retain now topic payload qos _
      ∙ sent-forward_web (Subscription.lookup s.subscriptions topic) _ _
      ∙ sent-forward (Subscription.lookup s.subscriptions topic) _ _

  -- A client holds one of the subscriptions and is connected by `tx`.
  abbrev Listener : M.Map ℕ → ℕ → List Subscription → Type 0
  Listener connections tx subs =
      (c : Bytes) × (f : Bytes) × (has_key c f subs ≡ true) × (M.get connections c ≡ some tx)

  further :
      (connections : M.Map ℕ) (tx : ℕ) (sub : Subscription) (subs : List Subscription)
      → Listener connections tx subs
      → Listener connections tx (sub ∷ subs)
  further connections tx sub subs l = (l.0, l.1, rw l.2 (or_true (same_key l.0 l.1 sub)), l.3)

  Listener-deliveries :
      (connections : M.Map ℕ) (tx : ℕ) (bytes : Bytes) (subs : List Subscription)
      → Any (λ e. e.0 ≡ tx) (deliveries connections subs bytes)
      → Listener connections tx subs
  Listener-deliveries connections tx bytes [] a = absurd a
  Listener-deliveries connections tx bytes (sub ∷ subs) a =
      elim (Option-cases (M.get connections sub.client_id)) [
        | inl e ↦
            further connections tx sub subs
              (Listener-deliveries connections tx bytes subs (rw (e, deliveries) at a))
        | inr (tx', e) ↦ elim (rw (e, deliveries) at a) [
          | inl here ↦ (
            sub.client_id,
            sub.filter,
            rw (str_eq_refl sub.client_id, str_eq_refl sub.filter),
            e ∙ ap some here,
          )
          | inr there ↦
              further connections tx sub subs (Listener-deliveries connections tx bytes subs there)
        ]
      ]

  deliveries-Listener :
      (connections : M.Map ℕ) (tx : ℕ) (bytes : Bytes) (subs : List Subscription) (c f : Bytes)
      → has_key c f subs ≡ true
      → M.get connections c ≡ some tx
      → Any (λ e. e.0 ≡ tx) (deliveries connections subs bytes)
  deliveries-Listener connections tx bytes [] c f h g = absurd (false≢true h)
  deliveries-Listener connections tx bytes (sub ∷ subs) c f h g =
      elim (Option-cases (M.get connections sub.client_id)) [
        | inl e ↦
            rw (e, deliveries)
              (elim (or_split (same_key c f sub) (has_key c f subs) h) [
                | inl same ↦ let k : sub.client_id ≡ c = held_by same in absurd cc
                | inr later ↦ deliveries-Listener connections tx bytes subs c f later g
              ])
        | inr (tx', e) ↦
            rw (e, deliveries)
              (elim (or_split (same_key c f sub) (has_key c f subs) h) [
                | inl same ↦ let k : sub.client_id ≡ c = held_by same in inl cc
                | inr later ↦ inr (deliveries-Listener connections tx bytes subs c f later g)
              ])
      ]
    where
      held_by : same_key c f sub ≡ true → sub.client_id ≡ c
      held_by same =
          (str_eq_iff sub.client_id c).0
            (&&_split (str_eq sub.client_id c) (str_eq sub.filter f) same).0

  -- Every filter held has `#` at its last level only, and not before.
  abbrev pub FiltersValid : SubscriptionTree → Type 0
  FiltersValid t = (c f : Bytes) → subscribed c f t ≡ true → HashLast (levels f)

  -- Routing a message sends on the connection `tx` exactly when some client connected by it holds a
  -- subscription whose filter matches the topic by `Matches`: `+` stands for one level, a last `#` for
  -- the levels that are left and any other level for itself, in topics that begin with `$` as in
  -- others. Nothing had been sent before, the tree files each subscription under its own filter, and
  -- the filters have `#` at their last level only.
  pub route_publish_iff :
      (now : ℕ) (topic payload : Bytes) (qos : Qos) (retain : Bool) (source : Bytes)
      (s : BrokerState M) (tx : ℕ)
      → s.sent ≡ []
      → IsFiled s.subscriptions
      → FiltersValid s.subscriptions
      → Any (λ e. e.0 ≡ tx) (route_publish M now topic payload qos retain source s).sent ↔ (
          (c : Bytes) × (f : Bytes) × (subscribed c f s.subscriptions ≡ true)
          × Matches (levels f) (levels topic)
          × (M.get s.connections c ≡ some tx))
  route_publish_iff now topic payload qos retain source s tx quiet_before filed valid =
      let bytes = packet_bytes (forwarded topic payload false) in
      let subs = Subscription.lookup s.subscriptions topic in
      rw (sent-route_publish now topic payload qos retain source s) (
        rw quiet_before (
          λ a.
              let l = Listener-deliveries s.connections tx bytes subs a in
              let (held, covers) =
                &&_split _ _ (sym (has_key-lookup s.subscriptions topic l.0 l.1 filed) ∙ l.2) in
              (
                l.0,
                l.1,
                held,
                (levels_match_iff (levels l.1) (levels topic)).0 (
                    sym
                      (path_covers-eq-levels_match (levels l.1) (levels topic) (valid l.0 l.1 held))
                    ∙ covers),
                l.3,
              ),
          λ w.
              deliveries-Listener s.connections tx bytes subs w.0 w.1
                (rw (has_key-lookup s.subscriptions topic w.0 w.1 filed) (
                  rw w.2 (
                    path_covers-eq-levels_match (levels w.1) (levels topic) (valid w.0 w.1 w.2)
                    ∙ (levels_match_iff (levels w.1) (levels topic)).1 w.3)))
                w.4,
        ))
