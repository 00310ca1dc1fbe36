-- ===== src/Broker/Process.antt =====
-- `process_v3_packet` of mqtt-broker/src/server.rs. It never returns an error, so the `Ok` around
-- the answer is left out, as is the `MqttPacket::V311` around a packet. `now` is the clock.
pub mod Sends
pub mod Subscribe
pub mod Publish
pub mod Published
use atom_mqtt.Prelude.{
  ℕ, ◌+◌, Bool, true, false, not, ◌&&◌, Option, none, some, List, [], ◌∷◌, ◌++◌, length,
  if◌then◌else◌, Bytes,
}
use atom_mqtt.Common.{Qos, at_most_once, at_least_once, exactly_once, qos_to_u8}
use atom_mqtt.Common.Topic
use atom_mqtt.V3.Types.{
  PublishPacket, AckPacket, SubscribeFilter, SubscribePacket, SubAckPacket, UnsubscribePacket,
  MqttPacketV3, connect, connack, publish, puback, pubrec, pubrel, pubcomp, subscribe, suback,
  unsubscribe, unsuback, pingreq, pingresp, disconnect,
}
use atom_mqtt.V3.Encode.{packet_bytes}
use atom_mqtt.V3.Decode.{known_codes}
use atom_mqtt.Broker.Store.{DashMap}
use atom_mqtt.Broker.Metrics.{BrokerMetrics, increment_messages_received, increment_bytes_received}
use atom_mqtt.Broker.Acl.{authorize_publish, authorize_subscribe}
use atom_mqtt.Broker.Subscription
use atom_mqtt.Broker.State.{
  BrokerState, SessionState, RetainedMessage, send_event, send_to, send_message, count,
  save_subscription, remove_subscription, save_retained, remove_retained, remove_will,
}
use atom_mqtt.Broker.State

-- `payload.is_empty()`
abbrev pub is_empty : Bytes → Bool
is_empty [] = true
is_empty (b ∷ s) = false

-- `RetainedMessage::new`
abbrev pub retained_message : ℕ → Bytes → Bytes → Qos → RetainedMessage
retained_message now topic payload qos = record {
  topic = topic;
  payload = payload;
  qos = qos;
  timestamp = now;
}

-- The PUBLISH that the broker sends on: QoS 0, and no identifier.
abbrev pub forwarded : Bytes → Bytes → Bool → MqttPacketV3
forwarded topic payload retain = publish (record {
  topic = topic;
  payload = payload;
  qos = at_most_once;
  retain = retain;
  packet_id = none;
})

-- The acknowledgement that a QoS asks for.
unfoldable pub ack_for : Qos → Option ℕ → Option MqttPacketV3
ack_for at_least_once (some pid) = some (puback (record { packet_id = pid }))
ack_for exactly_once (some pid) = some (pubrec (record { packet_id = pid }))
ack_for _ _ = none

-- `return_codes[i]` is granted with the QoS asked for, or 0x80.
abbrev pub denied_code : ℕ
denied_code = 0x80

module _ (M : DashMap) where
  -- The two counters of a received PUBLISH.
  unfoldable pub count_received : Bytes → BrokerState M → BrokerState M
  unfolding count
  count_received payload s =
      count M (increment_bytes_received (length payload)) (count M increment_messages_received s)

  -- `if p.retain { … }`
  unfoldable pub store_retained : ℕ → Bytes → Bytes → Qos → Bool → BrokerState M → BrokerState M
  unfolding send_event
  store_retained now topic payload qos retain s =
      if retain
      then (if is_empty payload
          then send_event M (remove_retained topic)
              (record s { retained = M.remove s.retained topic })
          else send_event M (save_retained topic payload (qos_to_u8 qos)) (record s {
            retained = M.insert s.retained topic (retained_message now topic payload qos);
          }))
      else s

  unfoldable pub process_publish :
      ℕ → PublishPacket → Bytes → Bytes → BrokerState M → Option MqttPacketV3 × BrokerState M
  process_publish now p client_id username s =
      if not (authorize_publish s.acl username p.topic)
      then (none, count_received p.payload s)
      else (
        ack_for p.qos p.packet_id,
        store_retained now p.topic p.payload p.qos p.retain (
            send_message M (State.publish p.topic p.payload p.qos p.retain client_id)
              (count_received p.payload s)),
      )

  -- `if let Some(tx) = state.connections.get(client_id) { let _ = tx.send(encoded); }`
  unfoldable pub send_client : Bytes → Bytes → BrokerState M → BrokerState M
  unfolding send_to
  send_client client_id bytes s = elim (M.get s.connections client_id) [
    | none ↦ s
    | some tx ↦ send_to M tx bytes s
  ]

  -- The loop over the retained messages for a new subscription.
  unfoldable pub send_retained :
      Bytes → Topic.TopicFilter → List (Bytes × RetainedMessage) → BrokerState M → BrokerState M
  send_retained client_id filter [] s = s
  send_retained client_id filter ((key, item) ∷ items) s = send_retained client_id filter items (
      if Topic.matches filter item.topic && not (is_empty item.payload)
      then send_client client_id (packet_bytes (forwarded item.topic item.payload true)) s
      else s)

  -- One filter of a SUBSCRIBE that the rules allow.
  unfoldable pub add_subscription : Bytes → Bytes → Qos → BrokerState M → BrokerState M
  unfolding send_event
  add_subscription client_id path qos s =
      send_event M (save_subscription client_id path (qos_to_u8 qos))
        (record s { subscriptions = Subscription.subscribe s.subscriptions client_id path qos })

  -- The `for` loop over the filters, with the return codes so far.
  unfoldable pub subscribe_loop :
      List SubscribeFilter → Bytes → Bytes → List ℕ → BrokerState M → List ℕ × BrokerState M
  subscribe_loop [] client_id username codes s = (codes, s)
  subscribe_loop (filter ∷ filters) client_id username codes s =
      if not (authorize_subscribe s.acl username filter.path)
      then subscribe_loop filters client_id username (codes ++ denied_code ∷ []) s
      else subscribe_loop filters client_id username (codes ++ qos_to_u8 filter.qos ∷ []) (
          send_retained client_id (Topic.new filter.path) (M.iter s.retained)
            (add_subscription client_id filter.path filter.qos s))

  -- `metrics.subscriptions_active = subscriptions.count() as u64`
  unfoldable pub count_subscriptions : BrokerState M → BrokerState M
  unfolding count
  count_subscriptions s =
      count M (λ m. record m { subscriptions_active = Subscription.count s.subscriptions }) s

  unfoldable pub process_subscribe :
      SubscribePacket → Bytes → Bytes → BrokerState M → Option MqttPacketV3 × BrokerState M
  process_subscribe p client_id username s =
      let (codes, s') = subscribe_loop p.filters client_id username [] s in
      (
        some (suback (record { packet_id = p.packet_id; return_codes = known_codes codes })),
        count_subscriptions s',
      )

  unfoldable pub unsubscribe_loop : List Bytes → Bytes → BrokerState M → BrokerState M
  unfolding send_event
  unsubscribe_loop [] client_id s = s
  unsubscribe_loop (filter ∷ filters) client_id s = unsubscribe_loop filters client_id (
      send_event M (remove_subscription client_id filter)
        (record s { subscriptions = Subscription.unsubscribe s.subscriptions client_id filter }))

  -- `if let Some(mut session) = sessions.get_mut(client_id) { session.connected = false; }`
  unfoldable pub mark_disconnected : Bytes → BrokerState M → BrokerState M
  mark_disconnected client_id s = elim (M.get s.sessions client_id) [
    | none ↦ s
    | some session ↦ record s {
      sessions = M.insert s.sessions client_id (record session { connected = false });
    }
  ]

  unfoldable pub process_disconnect : Bytes → BrokerState M → BrokerState M
  unfolding send_event mark_disconnected
  process_disconnect client_id s =
      let s' = mark_disconnected client_id s in
      send_event M (remove_will client_id) (record s' { wills = M.remove s'.wills client_id })

  unfoldable pub process_v3_packet :
      ℕ → MqttPacketV3 → Bytes → Bytes → BrokerState M → Option MqttPacketV3 × BrokerState M
  process_v3_packet now (publish p) client_id username s =
      process_publish now p client_id username s
  process_v3_packet now (puback p) client_id username s = (none, s)
  process_v3_packet now (pubrec p) client_id username s =
      (some (pubrel (record { packet_id = p.packet_id })), s)
  process_v3_packet now (pubrel p) client_id username s =
      (some (pubcomp (record { packet_id = p.packet_id })), s)
  process_v3_packet now (pubcomp p) client_id username s = (none, s)
  process_v3_packet now (subscribe p) client_id username s =
      process_subscribe p client_id username s
  process_v3_packet now (unsubscribe p) client_id username s = (
    some (unsuback (record { packet_id = p.packet_id })),
    count_subscriptions (unsubscribe_loop p.filters client_id s),
  )
  process_v3_packet now pingreq client_id username s = (some pingresp, s)
  process_v3_packet now disconnect client_id username s = (none, process_disconnect client_id s)
  process_v3_packet now _ client_id username s = (none, s)
