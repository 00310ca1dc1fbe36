-- ===== src/Broker/ProcessV5.antt =====
-- `process_v5_packet` and `process_packet` of mqtt-broker/src/server.rs. Neither returns an error, so
-- the `Ok` around the answer is left out.
pub mod Same
pub mod Answers
use atom_mqtt.Prelude.{
  ℕ, Bool, true, false, not, Option, none, some, List, [], ◌∷◌, ◌++◌, if◌then◌else◌, Bytes,
}
use atom_mqtt.Common.{Qos, at_most_once, at_least_once, exactly_once}
use atom_mqtt.Common.Topic
use atom_mqtt.V3.Types.{MqttPacketV3}
use atom_mqtt.V5.Reasons.{
  ReasonCode, success, not_authorized, disconnect_with_will_message, reason_eq,
}
use atom_mqtt.V5.Types.{
  PublishPacket, SubscribeFilter, SubscribePacket, UnsubscribePacket, ReasonPacket, MqttPacketV5,
  connect, connack, publish, puback, pubrec, pubrel, pubcomp, subscribe, suback, unsubscribe,
  unsuback, pingreq, pingresp, disconnect, auth,
}
use atom_mqtt.Codec.{MqttPacket, v311, v5}
use atom_mqtt.Broker.Store.{DashMap}
use atom_mqtt.Broker.Acl.{authorize_publish, authorize_subscribe}
use atom_mqtt.Broker.Subscription
use atom_mqtt.Broker.State.{BrokerState, send_event, send_message, remove_subscription, remove_will}
use atom_mqtt.Broker.State
use atom_mqtt.Broker.Process.{
  count_received, store_retained, send_retained, add_subscription, count_subscriptions,
  mark_disconnected, process_v3_packet,
}

-- The acknowledgement that a QoS asks for, with a reason and no properties.
unfoldable pub ack_with : ReasonCode → Qos → Option ℕ → Option MqttPacketV5
ack_with reason at_least_once (some pid) =
    some (puback (record { packet_id = pid; reason_code = reason; properties = [] }))
ack_with reason exactly_once (some pid) =
    some (pubrec (record { packet_id = pid; reason_code = reason; properties = [] }))
ack_with _ _ _ = none

-- What `process_packet` wraps an answer in.
unfoldable pub answer_as {ℓ} : {P : Type ℓ} → (P → MqttPacket) → Option P → Option MqttPacket
answer_as packet_of none = none
answer_as packet_of (some p) = some (packet_of p)

module _ (M : DashMap) where
  unfoldable pub process_publish_v5 :
      ℕ → PublishPacket → Bytes → Bytes → BrokerState M → Option MqttPacketV5 × BrokerState M
  unfolding ack_with
  process_publish_v5 now p client_id username s =
      if not (authorize_publish s.acl username p.topic)
      then (ack_with not_authorized p.qos p.packet_id, count_received M p.payload s)
      else (
        ack_with success p.qos p.packet_id,
        store_retained M now p.topic p.payload p.qos p.retain (
            send_message M (State.publish p.topic p.payload p.qos p.retain client_id)
              (count_received M p.payload s)),
      )

  -- The `for` loop over the filters, with the reason codes so far.
  unfoldable pub subscribe_loop_v5 :
      List SubscribeFilter
      → Bytes
      → Bytes
      → List ReasonCode
      → BrokerState M
      → List ReasonCode × BrokerState M
  subscribe_loop_v5 [] client_id username codes s = (codes, s)
  subscribe_loop_v5 (filter ∷ filters) client_id username codes s =
      if not (authorize_subscribe s.acl username filter.path)
      then subscribe_loop_v5 filters client_id username (codes ++ not_authorized ∷ []) s
      else subscribe_loop_v5 filters client_id username (codes ++ success ∷ []) (
          send_retained M client_id (Topic.new filter.path) (M.iter s.retained)
            (add_subscription M client_id filter.path filter.qos s))

  unfoldable pub process_subscribe_v5 :
      SubscribePacket → Bytes → Bytes → BrokerState M → Option MqttPacketV5 × BrokerState M
  unfolding subscribe_loop_v5
  process_subscribe_v5 p client_id username s =
      let (codes, s') = subscribe_loop_v5 p.filters client_id username [] s in
      (
        some (suback (record { packet_id = p.packet_id; reason_codes = codes; properties = [] })),
        count_subscriptions M s',
      )

  -- The loop over the filters of an UNSUBSCRIBE, with the reason codes so far.
  unfoldable pub unsubscribe_loop_v5 :
      List Bytes → Bytes → List ReasonCode → BrokerState M → List ReasonCode × BrokerState M
  unsubscribe_loop_v5 [] client_id codes s = (codes, s)
  unsubscribe_loop_v5 (filter ∷ filters) client_id codes s =
      unsubscribe_loop_v5 filters client_id (codes ++ success ∷ []) (
        send_event M (remove_subscription client_id filter)
          (record s { subscriptions = Subscription.unsubscribe s.subscriptions client_id filter }))

  unfoldable pub process_unsubscribe_v5 :
      UnsubscribePacket → Bytes → BrokerState M → Option MqttPacketV5 × BrokerState M
  unfolding unsubscribe_loop_v5
  process_unsubscribe_v5 p client_id s =
      let (codes, s') = unsubscribe_loop_v5 p.filters client_id [] s in
      (
        some (unsuback (record { packet_id = p.packet_id; reason_codes = codes; properties = [] })),
        count_subscriptions M s',
      )

  -- The will stays where the reason code asks for it.
  unfoldable pub process_disconnect_v5 : ReasonCode → Bytes → BrokerState M → BrokerState M
  process_disconnect_v5 reason client_id s =
      let s' = mark_disconnected M client_id s in
      if not (reason_eq reason disconnect_with_will_message)
      then send_event M (remove_will client_id) (record s' { wills = M.remove s'.wills client_id })
      else s'

  unfoldable pub process_v5_packet :
      ℕ → MqttPacketV5 → Bytes → Bytes → BrokerState M → Option MqttPacketV5 × BrokerState M
  unfolding process_publish_v5 process_subscribe_v5 process_unsubscribe_v5 process_disconnect_v5
  process_v5_packet now (publish p) client_id username s =
      process_publish_v5 now p client_id username s
  process_v5_packet now (puback p) client_id username s = (none, s)
  process_v5_packet now (pubrec p) client_id username s = (
    some (pubrel (record { packet_id = p.packet_id; reason_code = success; properties = [] })),
    s,
  )
  process_v5_packet now (pubrel p) client_id username s = (
    some (pubcomp (record { packet_id = p.packet_id; reason_code = success; properties = [] })),
    s,
  )
  process_v5_packet now (pubcomp p) client_id username s = (none, s)
  process_v5_packet now (subscribe p) client_id username s =
      process_subscribe_v5 p client_id username s
  process_v5_packet now (unsubscribe p) client_id username s = process_unsubscribe_v5 p client_id s
  process_v5_packet now pingreq client_id username s = (some pingresp, s)
  process_v5_packet now (disconnect p) client_id username s =
      (none, process_disconnect_v5 p.reason_code client_id s)
  process_v5_packet now _ client_id username s = (none, s)

  unfoldable pub process_packet :
      ℕ → MqttPacket → Bytes → Bytes → BrokerState M → Option MqttPacket × BrokerState M
  unfolding process_v5_packet answer_as
  process_packet now (v311 p) client_id username s =
      let (answer, s') = process_v3_packet M now p client_id username s in
      (answer_as v311 answer, s')
  process_packet now (v5 p) client_id username s =
      let (answer, s') = process_v5_packet now p client_id username s in (answer_as v5 answer, s')
