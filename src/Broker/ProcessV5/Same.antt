-- ===== src/Broker/ProcessV5/Same.antt =====
-- `process_v5_packet` of mqtt-broker/src/server.rs against `process_v3_packet`: what each does to the
-- state.
use atom_mqtt.Prelude.{
  ℕ, ◌≡◌, refl, ap, Option, none, some, List, [], ◌∷◌, map, if◌then◌else◌, Bytes, Bool-cases, inl,
  inr,
}
use atom_mqtt.V3.Types as Types3
use atom_mqtt.V3.Types.{MqttPacketV3}
use atom_mqtt.V5.Reasons.{ReasonCode, disconnect_with_will_message, reason_eq}
use atom_mqtt.V5.Types.{
  PublishPacket, SubscribeFilter, MqttPacketV5, connect, connack, publish, puback, pubrec, pubrel,
  pubcomp, subscribe, suback, unsubscribe, unsuback, pingreq, pingresp, disconnect, auth,
}
use atom_mqtt.Broker.Store.{DashMap}
use atom_mqtt.Broker.Acl.{authorize_publish, authorize_subscribe}
use atom_mqtt.Broker.State.{BrokerState}
use atom_mqtt.Broker.Process.{
  subscribe_loop, unsubscribe_loop, count_subscriptions, process_publish, mark_disconnected,
  process_subscribe, process_disconnect, process_v3_packet,
}
use atom_mqtt.Broker.ProcessV5.{
  process_publish_v5, subscribe_loop_v5, process_subscribe_v5, unsubscribe_loop_v5,
  process_unsubscribe_v5, process_disconnect_v5, process_v5_packet,
}

-- The fields that the two versions of a packet share.
abbrev pub filter_as_v3 : SubscribeFilter → Types3.SubscribeFilter
filter_as_v3 f = record { path = f.path; qos = f.qos }

abbrev pub publish_as_v3 : PublishPacket → Types3.PublishPacket
publish_as_v3 p = record {
  topic = p.topic;
  payload = p.payload;
  qos = p.qos;
  retain = p.retain;
  packet_id = p.packet_id;
}

-- The packet of MQTT 3.1.1 with the same fields, for what a client sends after its CONNECT. There
-- is none for an AUTH, and for a DISCONNECT that asks for the will.
abbrev pub as_v3 : MqttPacketV5 → Option MqttPacketV3
as_v3 (publish p) = some (Types3.publish (publish_as_v3 p))
as_v3 (puback p) = some (Types3.puback (record { packet_id = p.packet_id }))
as_v3 (pubrec p) = some (Types3.pubrec (record { packet_id = p.packet_id }))
as_v3 (pubrel p) = some (Types3.pubrel (record { packet_id = p.packet_id }))
as_v3 (pubcomp p) = some (Types3.pubcomp (record { packet_id = p.packet_id }))
as_v3 (subscribe p) =
    some
      (Types3.subscribe (record { packet_id = p.packet_id; filters = map filter_as_v3 p.filters }))
as_v3 (unsubscribe p) =
    some (Types3.unsubscribe (record { packet_id = p.packet_id; filters = p.filters }))
as_v3 pingreq = some Types3.pingreq
as_v3 (disconnect p) =
    if reason_eq p.reason_code disconnect_with_will_message then none else some Types3.disconnect
as_v3 _ = none

module _ (M : DashMap) where
  -- What a packet without a counterpart does: a DISCONNECT that asks for the will marks the session.
  abbrev pub alone : MqttPacketV5 → Bytes → BrokerState M → BrokerState M
  alone (disconnect p) client s = mark_disconnected M client s
  alone _ client s = s

  -- The state after a packet of MQTT 3.1.1, or the one given.
  abbrev pub effect :
      ℕ → Option MqttPacketV3 → Bytes → Bytes → BrokerState M → BrokerState M → BrokerState M
  effect now none client username s other = other
  effect now (some q) client username s other = (process_v3_packet M now q client username s).1

  same_publish :
      (now : ℕ) (p : PublishPacket) (client username : Bytes) (s : BrokerState M)
      → (process_publish_v5 M now p client username s).1
        ≡ (process_publish M now (publish_as_v3 p) client username s).1
  unfolding process_publish_v5 process_publish
  same_publish now p client username s =
      elim (Bool-cases (authorize_publish s.acl username p.topic)) [
        | inl e ↦ rw e refl
        | inr e ↦ rw e refl
      ]

  same_subscribe_loop :
      (filters : List SubscribeFilter) (client username : Bytes) (reasons : List ReasonCode)
      (codes : List ℕ) (s : BrokerState M)
      → (subscribe_loop_v5 M filters client username reasons s).1
        ≡ (subscribe_loop M (map filter_as_v3 filters) client username codes s).1
  unfolding subscribe_loop_v5 subscribe_loop
  same_subscribe_loop [] client username reasons codes s = refl
  same_subscribe_loop (f ∷ filters) client username reasons codes s =
      elim (Bool-cases (authorize_subscribe s.acl username f.path)) [
        | inl e ↦ rw e (same_subscribe_loop filters client username _ _ _)
        | inr e ↦ rw e (same_subscribe_loop filters client username _ _ s)
      ]

  same_unsubscribe_loop :
      (filters : List Bytes) (client : Bytes) (reasons : List ReasonCode) (s : BrokerState M)
      → (unsubscribe_loop_v5 M filters client reasons s).1 ≡ unsubscribe_loop M filters client s
  unfolding unsubscribe_loop_v5 unsubscribe_loop
  same_unsubscribe_loop [] client reasons s = refl
  same_unsubscribe_loop (f ∷ filters) client reasons s = same_unsubscribe_loop filters client _ _

  -- A packet of MQTT 5 leaves the state that the packet of MQTT 3.1.1 with the same fields leaves,
  -- so that a SUBSCRIBE sends the retained messages whatever its retain handling says. Of those without a counterpart, a DISCONNECT that asks for the will marks the session as not
  -- connected, and the others change nothing.
  pub process_v5_packet-effect :
      (now : ℕ) (p : MqttPacketV5) (client username : Bytes) (s : BrokerState M)
      → (process_v5_packet M now p client username s).1
        ≡ effect now (as_v3 p) client username s (alone p client s)
  unfolding process_v5_packet process_v3_packet process_subscribe_v5 process_subscribe
      process_unsubscribe_v5 process_disconnect_v5 process_disconnect
  process_v5_packet-effect now (publish p) client username s = same_publish now p client username s
  process_v5_packet-effect now (subscribe p) client username s =
      ap (count_subscriptions M) (same_subscribe_loop p.filters client username [] [] s)
  process_v5_packet-effect now (unsubscribe p) client username s =
      ap (count_subscriptions M) (same_unsubscribe_loop p.filters client [] s)
  process_v5_packet-effect now (disconnect p) client username s =
      elim (Bool-cases (reason_eq p.reason_code disconnect_with_will_message)) [
        | inl e ↦ rw e refl
        | inr e ↦ rw e refl
      ]
  process_v5_packet-effect now (connect p) client username s = refl
  process_v5_packet-effect now (connack p) client username s = refl
  process_v5_packet-effect now (puback p) client username s = refl
  process_v5_packet-effect now (pubrec p) client username s = refl
  process_v5_packet-effect now (pubrel p) client username s = refl
  process_v5_packet-effect now (pubcomp p) client username s = refl
  process_v5_packet-effect now (suback p) client username s = refl
  process_v5_packet-effect now (unsuback p) client username s = refl
  process_v5_packet-effect now pingreq client username s = refl
  process_v5_packet-effect now pingresp client username s = refl
  process_v5_packet-effect now (auth p) client username s = refl
