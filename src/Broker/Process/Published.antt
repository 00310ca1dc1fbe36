-- ===== src/Broker/Process/Published.antt =====
-- All that a PUBLISH does in mqtt-broker/src/server.rs before the router has it.
use atom_mqtt.Prelude.{
  ℕ, ◌%◌, ◌/◌, ◌≡◌, refl, ◌&&◌, Option, none, some, List, ◌∷◌, ◌++◌, append-nil, if◌then◌else◌,
  Bytes, Bool-cases, inl, inr, str_eq, length, [],
}
use atom_mqtt.Common.{Qos, at_most_once, at_least_once, exactly_once, qos_to_u8}
use atom_mqtt.V3.Types.{PublishPacket, MqttPacketV3}
use atom_mqtt.V3.Types
use atom_mqtt.V3.Encode.{packet_bytes}
use atom_mqtt.Broker.Store.{DashMap}
use atom_mqtt.Broker.Metrics.{
  BrokerMetrics, add64, increment_bytes_received, increment_messages_received,
}
use atom_mqtt.Broker.Acl.{authorize_publish}
use atom_mqtt.Broker.State.{
  BrokerState, RetainedMessage, PersistEvent, publish, save_retained, remove_retained, send_event,
  send_message, count,
}
use atom_mqtt.Broker.Process.{
  ack_for, is_empty, retained_message, store_retained, count_received, process_publish,
  process_v3_packet,
}

-- The bytes of an answer.
abbrev pub written : Option MqttPacketV3 → Option Bytes
written none = none
written (some packet) = some (packet_bytes packet)

-- What answers a PUBLISH, byte by byte: a PUBACK (0x40) or a PUBREC (0x50) with its identifier.
abbrev pub ack_bytes : Qos → Option ℕ → Option Bytes
ack_bytes at_most_once id = none
ack_bytes at_least_once none = none
ack_bytes at_least_once (some id) = some (0x40 ∷ 2 ∷ id / 256 % 256 ∷ id % 256 ∷ [])
ack_bytes exactly_once none = none
ack_bytes exactly_once (some id) = some (0x50 ∷ 2 ∷ id / 256 % 256 ∷ id % 256 ∷ [])

ack_for-ack_bytes : (qos : Qos) (id : Option ℕ) → written (ack_for qos id) ≡ ack_bytes qos id
unfolding ack_for packet_bytes
ack_for-ack_bytes at_most_once none = refl
ack_for-ack_bytes at_most_once (some id) = refl
ack_for-ack_bytes at_least_once none = refl
ack_for-ack_bytes at_least_once (some id) = refl
ack_for-ack_bytes exactly_once none = refl
ack_for-ack_bytes exactly_once (some id) = refl

-- The message is counted, with the bytes of its payload.
abbrev pub received_one : Bytes → BrokerMetrics → BrokerMetrics
received_one payload m = record m {
  messages_received = add64 m.messages_received 1;
  bytes_received = add64 m.bytes_received (length payload);
}

-- What is saved of a PUBLISH with the retain flag.
abbrev pub saved : PublishPacket → List PersistEvent
saved p =
    if p.retain
    then (if is_empty p.payload
        then remove_retained p.topic
        else save_retained p.topic p.payload (qos_to_u8 p.qos))
      ∷ []
    else []

module _ (M : DashMap) where
  -- What is retained for a topic afterwards, by what was before.
  abbrev pub retained_by :
      ℕ → PublishPacket → Bytes → Option RetainedMessage → Option RetainedMessage
  retained_by now p topic before =
      if p.retain && str_eq p.topic topic
      then (if is_empty p.payload
          then none
          else some (record { topic = p.topic; payload = p.payload; qos = p.qos; timestamp = now }))
      else before

  -- The state after a PUBLISH that the rules allow, but for the map of retained messages.
  abbrev pub after_publish :
      PublishPacket → Bytes → M.Map RetainedMessage → BrokerState M → BrokerState M
  after_publish p client retained s = record s {
    metrics = received_one p.payload s.metrics;
    messages = s.messages ++ publish p.topic p.payload p.qos p.retain client ∷ [];
    events = s.events ++ saved p;
    retained = retained;
  }

  store_retained_lem :
      (now : ℕ) (p : PublishPacket) (s : BrokerState M)
      → (m : M.Map RetainedMessage) × (store_retained M now p.topic p.payload p.qos p.retain s
          ≡ record s { events = s.events ++ saved p; retained = m })
        × ((topic : Bytes) → M.get m topic ≡ retained_by now p topic (M.get s.retained topic))
  unfolding store_retained send_event
  store_retained_lem now p s = elim (Bool-cases p.retain) [
    | inr e ↦
        (s.retained, rw (e, store_retained) (rw (append-nil s.events) refl), λ topic. rw e refl)
    | inl e ↦ elim (Bool-cases (is_empty p.payload)) [
      | inl f ↦ (
        M.remove s.retained p.topic,
        rw (e, store_retained) (rw f refl),
        λ topic. rw e (rw f (M.get-remove s.retained p.topic topic)),
      )
      | inr f ↦ (
        M.insert s.retained p.topic (retained_message now p.topic p.payload p.qos),
        rw (e, store_retained) (rw f refl),
        λ topic. rw e (rw f (M.get-insert s.retained p.topic topic _)),
      )
    ]
  ]

  -- An MQTT 3.1.1 PUBLISH is counted. Where the rules do not allow it that is all, and it is not
  -- answered. Where they do, it is answered byte by byte with what its QoS asks for, it is queued for
  -- the router behind what is there, and with the retain flag it is retained and saved for its topic,
  -- or with an empty payload removed, where other topics keep what they had; nothing else changes.
  pub process_publish_lem :
      (now : ℕ) (p : PublishPacket) (client username : Bytes) (s : BrokerState M)
      → let after = process_v3_packet M now (Types.publish p) client username s in
        let allowed = authorize_publish s.acl username p.topic in
        (written after.0 ≡ (if allowed then ack_bytes p.qos p.packet_id else none))
        × ((m : M.Map RetainedMessage) × (after.1 ≡ (
              if allowed
              then after_publish p client m s
              else record s { metrics = received_one p.payload s.metrics }))
            × ((topic : Bytes)
                → M.get m topic ≡ (
                    if allowed
                    then retained_by now p topic (M.get s.retained topic)
                    else M.get s.retained topic)))
  unfolding process_v3_packet process_publish count_received count send_message
      increment_bytes_received increment_messages_received
  process_publish_lem now p client username s =
      elim (Bool-cases (authorize_publish s.acl username p.topic)) [
        | inr e ↦ (
          rw (e, process_publish) refl,
          (s.retained, rw (e, process_publish) refl, λ topic. rw e refl),
        )
        | inl e ↦
            let (m, same, kept) = store_retained_lem now p (
              send_message M (publish p.topic p.payload p.qos p.retain client)
                (count_received M p.payload s)) in
            (
              rw (e, process_publish) (ack_for-ack_bytes p.qos p.packet_id),
              (m, rw (e, process_publish) same, λ topic. rw e (kept topic)),
            )
      ]
