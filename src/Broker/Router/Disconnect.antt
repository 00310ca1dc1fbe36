-- ===== src/Broker/Router/Disconnect.antt =====
-- What the router of mqtt-broker/src/server.rs does when a connection has ended.
use atom_mqtt.Prelude.{
  ℕ, ◌≡◌, refl, ap, ◌∙◌, Bool, true, false, not, ◌&&◌, none, some, ◌++◌, Bytes, str_eq, str_eq_refl,
  Option-cases, inl, inr, [],
}
use atom_mqtt.Common.{Qos}
use atom_mqtt.V3.Types.{disconnect}
use atom_mqtt.V3.Encode.{packet_bytes}
use atom_mqtt.Broker.Store.{DashMap}
use atom_mqtt.Broker.Subscription
use atom_mqtt.Broker.Subscription.{Subscription}
use atom_mqtt.Broker.Subscription.Lookup.{subscribed, subscribed-unsubscribe_all}
use atom_mqtt.Broker.State.{
  BrokerState, SessionState, WillMessage, RetainedMessage, send_event, count,
}
use atom_mqtt.Broker.Process.{
  forwarded, mark_disconnected, count_subscriptions, process_disconnect, process_v3_packet,
}
use atom_mqtt.Broker.Process.Sends.{quiet}
use atom_mqtt.Broker.Router.{store_if, deliver_will, take_will, clean_up, route_disconnected}
use atom_mqtt.Broker.Router.Forward.{
  quiet-forward, quiet-forward_web, deliveries, sent-forward, sent-forward_web, sent-store_if,
}

module _ (M : DashMap) where
  -- The state without what a will's delivery changes: what was sent, the events and the retained
  -- messages.
  abbrev pub lasting : M.Map RetainedMessage → BrokerState M → BrokerState M
  lasting r s = record (quiet M s) { events = []; retained = r }

  lasting-store_if :
      (r : M.Map RetainedMessage) (retain : Bool) (now : ℕ) (topic payload : Bytes) (qos : Qos)
      (s : BrokerState M)
      → lasting r (store_if M retain now topic payload qos s) ≡ lasting r s
  unfolding store_if
  lasting-store_if r true now topic payload qos s = refl
  lasting-store_if r false now topic payload qos s = refl

  lasting-deliver_will :
      (r : M.Map RetainedMessage) (now : ℕ) (client : Bytes) (will : WillMessage)
      (s : BrokerState M)
      → lasting r (deliver_will M now client will s) ≡ lasting r s
  unfolding deliver_will take_will send_event
  lasting-deliver_will r now client will s =
      let subs = Subscription.lookup s.subscriptions will.topic in
      lasting-store_if r will.retain now will.topic will.payload will.qos _
      ∙ ap (λ (u : BrokerState M). record u { events = []; retained = r })
          (quiet-forward_web M subs _ _)
      ∙ ap (λ (u : BrokerState M). record u { events = []; retained = r })
          (quiet-forward M subs _ _)

  -- Taking a client's will changes, but for the sends, the events and the retained messages, only
  -- the map of wills, where the client has none afterwards.
  pub lasting-take_will :
      (r : M.Map RetainedMessage) (now : ℕ) (client : Bytes) (s : BrokerState M)
      → (w : M.Map WillMessage) × (lasting r (take_will M now client s)
          ≡ record (lasting r s) { wills = w })
        × (M.get w client ≡ none)
  unfolding take_will
  lasting-take_will r now client s = elim (Option-cases (M.get s.wills client)) [
    | inl e ↦ (s.wills, rw (e, take_will) refl, e)
    | inr (will, e) ↦ (
      M.remove s.wills client,
      rw (e, take_will) (lasting-deliver_will r now client will _),
      M.get-remove s.wills client client ∙ rw (str_eq_refl client),
    )
  ]

  -- Once the router has dealt with the end of a clean session, the client has no subscription, every
  -- other client has those it had, the client has neither a session nor a will, and the gauge of the
  -- metrics counts the subscriptions of the tree.
  pub route_disconnected_clean :
      (now : ℕ) (client : Bytes) (s : BrokerState M) (c f : Bytes)
      → let s' = route_disconnected M now client true s in
        (subscribed c f s'.subscriptions
          ≡ (not (str_eq c client) && subscribed c f s.subscriptions))
        × (M.get s'.sessions client ≡ none)
        × (M.get s'.wills client ≡ none)
        × (s'.metrics.subscriptions_active ≡ Subscription.count s'.subscriptions)
  unfolding route_disconnected clean_up send_event count_subscriptions count
  route_disconnected_clean now client s c f =
      let (w, same, gone) = lasting-take_will s.retained now client s in
      (
        ap
              (λ (u : BrokerState M).
                subscribed c f (Subscription.unsubscribe_all u.subscriptions client))
              same
            ∙ subscribed-unsubscribe_all s.subscriptions client c f,
        M.get-remove _ client client ∙ rw (str_eq_refl client),
        ap (λ (u : BrokerState M). M.get u.wills client) same ∙ gone,
        refl,
      )

  mark_disconnected_lem :
      (client : Bytes) (s : BrokerState M) (session : SessionState)
      → M.get s.sessions client ≡ some session
      → mark_disconnected M client s
        ≡ record s { sessions = M.insert s.sessions client (record session { connected = false }) }
  unfolding mark_disconnected
  mark_disconnected_lem client s session e = rw (e, mark_disconnected) refl

  -- Once the router has dealt with the end of a session that is kept, the subscriptions are what they
  -- were, the client's session is the same but marked as not connected, and its will is gone.
  pub route_disconnected_kept :
      (now : ℕ) (client : Bytes) (s : BrokerState M) (session : SessionState)
      → M.get s.sessions client ≡ some session
      → let s' = route_disconnected M now client false s in
        (s'.subscriptions ≡ s.subscriptions)
        × (M.get s'.sessions client ≡ some (record session { connected = false }))
        × (M.get s'.wills client ≡ none)
  unfolding route_disconnected
  route_disconnected_kept now client s session e =
      let (w, same, gone) = lasting-take_will s.retained now client s in
      rw
        (mark_disconnected_lem client (take_will M now client s) session
          (ap (λ (u : BrokerState M). M.get u.sessions client) same ∙ e))
        (
          ap (λ (u : BrokerState M). u.subscriptions) same,
          M.get-insert _ client client _ ∙ rw (str_eq_refl client),
          ap (λ (u : BrokerState M). M.get u.wills client) same ∙ gone,
        )

  pub sent-mark_disconnected :
      (client : Bytes) (s : BrokerState M) → (mark_disconnected M client s).sent ≡ s.sent
  unfolding mark_disconnected
  sent-mark_disconnected client s = elim (Option-cases (M.get s.sessions client)) [
    | inl e ↦ rw (e, mark_disconnected) refl
    | inr (session, e) ↦ rw (e, mark_disconnected) refl
  ]

  pub sent-route_disconnected :
      (now : ℕ) (client : Bytes) (clean_session : Bool) (s : BrokerState M)
      → (route_disconnected M now client clean_session s).sent ≡ (take_will M now client s).sent
  unfolding route_disconnected clean_up send_event count_subscriptions count
  sent-route_disconnected now client true s = refl
  sent-route_disconnected now client false s =
      sent-mark_disconnected client (take_will M now client s)

  -- An MQTT 3.1.1 DISCONNECT takes the client's will away: when the router learns next that its
  -- connection has ended, it sends nothing.
  pub disconnect_without_will :
      (now : ℕ) (client username : Bytes) (clean_session : Bool) (s : BrokerState M)
      → let s' = (process_v3_packet M now disconnect client username s).1 in
        (route_disconnected M now client clean_session s').sent ≡ s.sent
  unfolding process_v3_packet process_disconnect send_event take_will
  disconnect_without_will now client username clean_session s =
      let marked = mark_disconnected M client s in
      let gone : M.get (M.remove marked.wills client) client ≡ none =
        M.get-remove marked.wills client client ∙ rw (str_eq_refl client) in
      sent-route_disconnected now client clean_session _
      ∙ rw (gone, take_will) (sent-mark_disconnected client s)

  -- The end of a connection whose client has a will stored sends its PUBLISH once for each
  -- subscription that a lookup of the topic finds and whose client is connected.
  pub will_delivered :
      (now : ℕ) (client : Bytes) (clean_session : Bool) (s : BrokerState M) (will : WillMessage)
      → M.get s.wills client ≡ some will
      → (route_disconnected M now client clean_session s).sent
        ≡ s.sent
          ++ deliveries M s.connections
              (Subscription.lookup s.subscriptions will.topic)
              (packet_bytes (forwarded will.topic will.payload will.retain))
  unfolding deliver_will take_will send_event
  will_delivered now client clean_session s will e =
      sent-route_disconnected now client clean_session s
      ∙ rw (e, take_will)
          (sent-store_if M will.retain now will.topic will.payload will.qos _
            ∙ sent-forward_web M (Subscription.lookup s.subscriptions will.topic) _ _
            ∙ sent-forward M (Subscription.lookup s.subscriptions will.topic) _ _)
