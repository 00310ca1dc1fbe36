-- ===== src/Broker/Invariant/Sound.antt =====
-- The soundness of the broker's state, which packets and messages in mqtt-broker/src/server.rs keep.
use atom_mqtt.Prelude.{
  ℕ, ◌≡◌, refl, ap, sym, ◌∙◌, true, false, List, [], ◌∷◌, Bytes, Bool-cases, inl, inr, subst,
}
use atom_mqtt.Common.Topic
use atom_mqtt.V3.Types.{
  MqttPacketV3, SubscribeFilter, connect, connack, publish, puback, pubrec, pubrel, pubcomp,
  subscribe, suback, unsubscribe, unsuback, pingreq, pingresp, disconnect,
}
use atom_mqtt.Broker.Store.{DashMap}
use atom_mqtt.Broker.Acl.{authorize_subscribe}
use atom_mqtt.Broker.Subscription
use atom_mqtt.Broker.Subscription.Lookup.{
  IsFiled, IsFiled-subscribe, IsFiled-unsubscribe, IsFiled-unsubscribe_all,
}
use atom_mqtt.Broker.State.{
  BrokerState, BrokerConfig, BrokerMessage, client_disconnected, remove_client_subscriptions,
  remove_session, send_event, send_message, count,
}
use atom_mqtt.Broker.State
use atom_mqtt.Broker.Process.{
  add_subscription, subscribe_loop, count_subscriptions, process_subscribe, unsubscribe_loop,
  process_disconnect, process_v3_packet,
}
use atom_mqtt.Broker.Process.Sends.{quiet-send_retained}
use atom_mqtt.Broker.Router.{take_will, clean_up, route_disconnected, route}
use atom_mqtt.Broker.Invariant.Untouched.{
  Spares, Spares-trans, Spares-process_publish, Spares-mark_disconnected, Spares-take_will,
  Spares-route_publish,
}

module _ (M : DashMap) where
  -- The gauge of the metrics counts the subscriptions of the tree, where each stands under its own
  -- filter.
  pub record IsSound (s : BrokerState M) : Type 0 where
    pub filed : IsFiled s.subscriptions
    pub gauge : s.metrics.subscriptions_active ≡ Subscription.count s.subscriptions

  pub IsSound-Spares : (s s' : BrokerState M) → Spares M s s' → IsSound s → IsSound s'
  IsSound-Spares s s' w h = record {
    filed = subst IsFiled (sym w.tree) h.filed;
    gauge = w.active ∙ h.gauge ∙ ap Subscription.count (sym w.tree);
  }

  -- The tree alone decides whether a state whose gauge was just set is sound.
  IsSound-count_subscriptions :
      (s : BrokerState M) → IsFiled s.subscriptions → IsSound (count_subscriptions M s)
  unfolding count_subscriptions count
  IsSound-count_subscriptions s h = record { filed = h; gauge = refl }

  IsFiled-subscribe_loop :
      (filters : List SubscribeFilter) (client username : Bytes) (codes : List ℕ)
      (s : BrokerState M)
      → IsFiled s.subscriptions
      → IsFiled (subscribe_loop M filters client username codes s).1.subscriptions
  unfolding subscribe_loop add_subscription send_event
  IsFiled-subscribe_loop [] client username codes s h = h
  IsFiled-subscribe_loop (g ∷ filters) client username codes s h =
      elim (Bool-cases (authorize_subscribe s.acl username g.path)) [
        | inr e ↦ rw (e, subscribe_loop) (IsFiled-subscribe_loop filters client username _ s h)
        | inl e ↦
            rw (e, subscribe_loop)
              (IsFiled-subscribe_loop filters client username _ _ (
                subst IsFiled
                  (sym (
                    ap (λ (u : BrokerState M). u.subscriptions)
                      (quiet-send_retained M client (Topic.new g.path) (M.iter s.retained)
                        (add_subscription M client g.path g.qos s))))
                  (IsFiled-subscribe s.subscriptions client g.path g.qos h)))
      ]

  IsFiled-unsubscribe_loop :
      (filters : List Bytes) (client : Bytes) (s : BrokerState M)
      → IsFiled s.subscriptions
      → IsFiled (unsubscribe_loop M filters client s).subscriptions
  unfolding unsubscribe_loop send_event
  IsFiled-unsubscribe_loop [] client s h = h
  IsFiled-unsubscribe_loop (g ∷ filters) client s h =
      IsFiled-unsubscribe_loop filters client _ (IsFiled-unsubscribe s.subscriptions client g h)

  pub IsSound-process_v3_packet :
      (now : ℕ) (packet : MqttPacketV3) (client username : Bytes) (s : BrokerState M)
      → IsSound s
      → IsSound (process_v3_packet M now packet client username s).1
  unfolding process_v3_packet process_subscribe process_disconnect send_event
  IsSound-process_v3_packet now (publish p) client username s h =
      IsSound-Spares s _ (Spares-process_publish M now p client username s) h
  IsSound-process_v3_packet now (subscribe p) client username s h =
      IsSound-count_subscriptions _ (IsFiled-subscribe_loop p.filters client username [] s h.filed)
  IsSound-process_v3_packet now (unsubscribe p) client username s h =
      IsSound-count_subscriptions _ (IsFiled-unsubscribe_loop p.filters client s h.filed)
  IsSound-process_v3_packet now disconnect client username s h =
      IsSound-Spares s _
        (let w = Spares-mark_disconnected M client s in record { tree = w.tree; active = w.active })
        h
  IsSound-process_v3_packet now (connect p) client username s h = h
  IsSound-process_v3_packet now (connack p) client username s h = h
  IsSound-process_v3_packet now (puback p) client username s h = h
  IsSound-process_v3_packet now (pubrec p) client username s h = h
  IsSound-process_v3_packet now (pubrel p) client username s h = h
  IsSound-process_v3_packet now (pubcomp p) client username s h = h
  IsSound-process_v3_packet now (suback p) client username s h = h
  IsSound-process_v3_packet now (unsuback p) client username s h = h
  IsSound-process_v3_packet now pingreq client username s h = h
  IsSound-process_v3_packet now pingresp client username s h = h

  pub IsSound-route :
      (now : ℕ) (message : BrokerMessage) (s : BrokerState M)
      → IsSound s
      → IsSound (route M now message s)
  unfolding route route_disconnected clean_up send_event
  IsSound-route now (State.publish topic payload qos retain source) s h =
      IsSound-Spares s _ (Spares-route_publish M now topic payload qos retain source s) h
  IsSound-route now (client_disconnected client true) s h =
      let t : BrokerState M = take_will M now client s in
      let left : BrokerState M =
        send_event M (remove_client_subscriptions client)
          (record t { subscriptions = Subscription.unsubscribe_all t.subscriptions client }) in
      IsSound-count_subscriptions
        (send_event M (remove_session client)
          (record left { sessions = M.remove left.sessions client }))
        (IsFiled-unsubscribe_all t.subscriptions client
          (subst IsFiled (sym (Spares-take_will M now client s).tree) h.filed))
  IsSound-route now (client_disconnected client false) s h =
      IsSound-Spares s _
        (Spares-trans M s _ _ (Spares-take_will M now client s)
          (Spares-mark_disconnected M client _))
        h
