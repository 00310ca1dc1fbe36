-- ===== src/Broker/Router.antt =====
-- The background router that `start_broker` of mqtt-broker/src/server.rs spawns: what it does with
-- one message. `now` is the clock.
pub mod Forward
pub mod Retained
pub mod Delivery
pub mod Disconnect
pub mod Farewell
use atom_mqtt.Prelude.{
  ℕ, ◌+◌, Bool, true, false, not, Option, none, some, List, [], ◌∷◌, ◌++◌, if◌then◌else◌, Bytes,
}
use atom_mqtt.Common.{Qos, qos_to_u8}
use atom_mqtt.V3.Encode.{packet_bytes}
use atom_mqtt.Broker.Store.{DashMap}
use atom_mqtt.Broker.Metrics.{increment_messages_published}
use atom_mqtt.Broker.Subscription
use atom_mqtt.Broker.Subscription.{Subscription}
use atom_mqtt.Broker.State.{
  BrokerState, BrokerMessage, WillMessage, WebMessage, publish, client_disconnected, send_event,
  send_web, count, remove_will, remove_client_subscriptions, remove_session,
}
use atom_mqtt.Broker.Process.{
  forwarded, retained_message, send_client, count_subscriptions, mark_disconnected,
}

module _ (M : DashMap) where
  -- The `for` loop over the subscribers' connections.
  unfoldable pub forward : List Subscription → Bytes → BrokerState M → BrokerState M
  forward [] bytes s = s
  forward (sub ∷ subs) bytes s = forward subs bytes (send_client M sub.client_id bytes s)

  -- The `for` loop over the web subscribers.
  unfoldable pub forward_web : List Subscription → WebMessage → BrokerState M → BrokerState M
  unfolding send_web
  forward_web [] message s = s
  forward_web (sub ∷ subs) message s =
      forward_web subs message (elim (M.get s.web_subscribers sub.client_id) [
        | none ↦ s
        | some tx ↦ send_web M tx message s
      ])

  unfoldable pub store_if : Bool → ℕ → Bytes → Bytes → Qos → BrokerState M → BrokerState M
  store_if retain now topic payload qos s =
      if retain
      then record s {
        retained = M.insert s.retained topic (retained_message now topic payload qos);
      }
      else s

  unfoldable pub route_publish :
      ℕ → Bytes → Bytes → Qos → Bool → Bytes → BrokerState M → BrokerState M
  unfolding count
  route_publish now topic payload qos retain source_client s =
      let subscribers = Subscription.lookup s.subscriptions topic in
      let message : WebMessage = record {
        is_will = false;
        topic = topic;
        payload = payload;
        qos = qos_to_u8 qos;
        source_client = source_client;
      } in
      store_if retain now topic payload qos (
        forward_web subscribers message (
          forward subscribers (packet_bytes (forwarded topic payload false))
            (count M increment_messages_published s)))

  -- The delivery of a will that was taken off the map.
  unfoldable pub deliver_will : ℕ → Bytes → WillMessage → BrokerState M → BrokerState M
  unfolding send_event
  deliver_will now client_id will s =
      let subscribers = Subscription.lookup s.subscriptions will.topic in
      let message : WebMessage = record {
        is_will = true;
        topic = will.topic;
        payload = will.payload;
        qos = qos_to_u8 will.qos;
        source_client = client_id;
      } in
      send_event M (remove_will client_id) (
        store_if will.retain now will.topic will.payload will.qos (
          forward_web subscribers message
            (forward subscribers (packet_bytes (forwarded will.topic will.payload will.retain)) s)))

  -- `if let Some((_, will)) = wills.remove(&client_id) { … }`
  unfoldable pub take_will : ℕ → Bytes → BrokerState M → BrokerState M
  take_will now client_id s = elim (M.get s.wills client_id) [
    | none ↦ s
    | some will ↦ deliver_will now client_id will (record s { wills = M.remove s.wills client_id })
  ]

  unfoldable pub clean_up : Bytes → BrokerState M → BrokerState M
  unfolding send_event count_subscriptions
  clean_up client_id s =
      let unsubscribed : BrokerState M =
        send_event M (remove_client_subscriptions client_id)
          (record s { subscriptions = Subscription.unsubscribe_all s.subscriptions client_id }) in
      count_subscriptions M (
        send_event M (remove_session client_id)
          (record unsubscribed { sessions = M.remove unsubscribed.sessions client_id }))

  unfoldable pub route_disconnected : ℕ → Bytes → Bool → BrokerState M → BrokerState M
  route_disconnected now client_id clean_session s =
      if clean_session
      then clean_up client_id (take_will now client_id s)
      else mark_disconnected M client_id (take_will now client_id s)

  unfoldable pub route : ℕ → BrokerMessage → BrokerState M → BrokerState M
  unfolding route_publish route_disconnected
  route now (publish topic payload qos retain source_client) s =
      route_publish now topic payload qos retain source_client s
  route now (client_disconnected client_id clean_session) s =
      route_disconnected now client_id clean_session s
