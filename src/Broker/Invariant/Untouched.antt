-- ===== src/Broker/Invariant/Untouched.antt =====
-- The changes of mqtt-broker/src/server.rs that concern neither subscriptions nor their gauge.
use atom_mqtt.Prelude.{
  ℕ, ◌≡◌, refl, ap, ◌∙◌, Bool, true, false, if◌then◌else◌, Bytes, Bool-cases, Option-cases, inl,
  inr,
}
use atom_mqtt.Common.{Qos, qos_to_u8}
use atom_mqtt.V3.Encode.{packet_bytes}
use atom_mqtt.V3.Types.{PublishPacket}
use atom_mqtt.Broker.Store.{DashMap}
use atom_mqtt.Broker.Metrics.{
  increment_bytes_received, increment_messages_received, increment_messages_published,
}
use atom_mqtt.Broker.Acl.{authorize_publish}
use atom_mqtt.Broker.Subscription
use atom_mqtt.Broker.State.{
  BrokerState, BrokerConfig, BrokerMessage, client_disconnected, remove_client_subscriptions,
  remove_session, send_event, send_message, count,
}
use atom_mqtt.Broker.State
use atom_mqtt.Broker.Process.{
  forwarded, is_empty, count_received, store_retained, process_publish, mark_disconnected,
}
use atom_mqtt.Broker.Process.Sends.{quiet}
use atom_mqtt.Broker.Router.{forward, forward_web, store_if, take_will, route_publish}
use atom_mqtt.Broker.Router.Forward.{quiet-forward, quiet-forward_web}
use atom_mqtt.Broker.Router.Disconnect.{lasting-take_will}

module _ (M : DashMap) where
  -- A change that leaves both the tree and the gauge alone.
  pub record Spares (s s' : BrokerState M) : Type 0 where
    pub tree : s'.subscriptions ≡ s.subscriptions
    pub active : s'.metrics.subscriptions_active ≡ s.metrics.subscriptions_active

  pub Spares-same : (s : BrokerState M) → Spares s s
  Spares-same s = record { tree = refl; active = refl }

  pub Spares-if :
      (b : Bool) (s s₁ s₂ : BrokerState M)
      → Spares s s₁
      → Spares s s₂
      → Spares s (if b then s₁ else s₂)
  Spares-if true s s₁ s₂ h k = h
  Spares-if false s s₁ s₂ h k = k

  pub Spares-store_retained :
      (now : ℕ) (topic payload : Bytes) (qos : Qos) (retain : Bool) (s : BrokerState M)
      → Spares s (store_retained M now topic payload qos retain s)
  unfolding store_retained send_event
  Spares-store_retained now topic payload qos retain s =
      Spares-if retain s _ _
        (Spares-if (is_empty payload) s _ _ (record { tree = refl; active = refl })
          (record { tree = refl; active = refl }))
        (Spares-same s)

  pub Spares-trans : (r s t : BrokerState M) → Spares r s → Spares s t → Spares r t
  Spares-trans r s t h k = record { tree = k.tree ∙ h.tree; active = k.active ∙ h.active }

  pub Spares-process_publish :
      (now : ℕ) (p : PublishPacket) (client username : Bytes) (s : BrokerState M)
      → Spares s (process_publish M now p client username s).1
  unfolding process_publish count_received count send_message increment_bytes_received
      increment_messages_received
  Spares-process_publish now p client username s =
      elim (Bool-cases (authorize_publish s.acl username p.topic)) [
        | inl e ↦
            rw (e, process_publish)
              (let mid : BrokerState M =
                  send_message M (State.publish p.topic p.payload p.qos p.retain client)
                    (count_received M p.payload s) in
                Spares-trans s mid _ (record { tree = refl; active = refl })
                  (Spares-store_retained now p.topic p.payload p.qos p.retain mid))
        | inr e ↦ rw (e, process_publish) (record { tree = refl; active = refl })
      ]

  pub Spares-mark_disconnected :
      (client : Bytes) (s : BrokerState M) → Spares s (mark_disconnected M client s)
  unfolding mark_disconnected
  Spares-mark_disconnected client s = elim (Option-cases (M.get s.sessions client)) [
    | inl e ↦ rw (e, mark_disconnected) (Spares-same s)
    | inr (session, e) ↦ rw (e, mark_disconnected) (record { tree = refl; active = refl })
  ]

  pub Spares-store_if :
      (retain : Bool) (now : ℕ) (topic payload : Bytes) (qos : Qos) (s : BrokerState M)
      → Spares s (store_if M retain now topic payload qos s)
  unfolding store_if
  Spares-store_if retain now topic payload qos s =
      Spares-if retain s _ s (record { tree = refl; active = refl }) (Spares-same s)

  pub Spares-quiet : (s s' : BrokerState M) → quiet M s' ≡ quiet M s → Spares s s'
  Spares-quiet s s' e = record {
    tree = ap (λ (u : BrokerState M). u.subscriptions) e;
    active = ap (λ (u : BrokerState M). u.metrics.subscriptions_active) e;
  }

  pub Spares-take_will :
      (now : ℕ) (client : Bytes) (s : BrokerState M) → Spares s (take_will M now client s)
  Spares-take_will now client s =
      let (w, same, gone) = lasting-take_will M s.retained now client s in
      record {
        tree = ap (λ (u : BrokerState M). u.subscriptions) same;
        active = ap (λ (u : BrokerState M). u.metrics.subscriptions_active) same;
      }

  pub Spares-route_publish :
      (now : ℕ) (topic payload : Bytes) (qos : Qos) (retain : Bool) (source : Bytes)
      (s : BrokerState M)
      → Spares s (route_publish M now topic payload qos retain source s)
  unfolding route_publish count increment_messages_published
  Spares-route_publish now topic payload qos retain source s =
      let subs = Subscription.lookup s.subscriptions topic in
      let s₁ : BrokerState M = count M increment_messages_published s in
      let s₂ : BrokerState M = forward M subs (packet_bytes (forwarded topic payload false)) s₁ in
      let s₃ : BrokerState M =
        forward_web M subs
          (record {
            is_will = false;
            topic = topic;
            payload = payload;
            qos = qos_to_u8 qos;
            source_client = source;
          })
          s₂ in
      Spares-trans s s₃ _
        (Spares-trans s s₁ s₃ (record { tree = refl; active = refl })
          (Spares-quiet s₁ s₃ (quiet-forward_web M subs _ s₂ ∙ quiet-forward M subs _ s₁)))
        (Spares-store_if retain now topic payload qos s₃)
