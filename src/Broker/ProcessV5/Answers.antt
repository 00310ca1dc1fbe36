-- ===== src/Broker/ProcessV5/Answers.antt =====
-- What `process_v5_packet` of mqtt-broker/src/server.rs answers.
use atom_mqtt.Prelude.{
  ℕ, ◌≡◌, refl, sym, ap, ◌∙◌, false, some, List, [], ◌∷◌, ◌++◌, map, append-nil, append_assoc,
  length, if◌then◌else◌, Bytes, Bool-cases, inl, inr,
}
use atom_mqtt.Common.Topic
use atom_mqtt.V5.Reasons.{ReasonCode, success, not_authorized}
use atom_mqtt.V5.Types.{PublishPacket, SubscribeFilter, SubscribePacket, publish, subscribe, suback}
use atom_mqtt.Broker.Store.{DashMap}
use atom_mqtt.Broker.Acl.{AclChecker, authorize_publish, authorize_subscribe}
use atom_mqtt.Broker.Metrics.{increment_bytes_received, increment_messages_received}
use atom_mqtt.Broker.State.{BrokerState, send_event, count}
use atom_mqtt.Broker.Process.{count_received, send_retained, add_subscription}
use atom_mqtt.Broker.Process.Sends.{quiet-send_retained}
use atom_mqtt.Broker.ProcessV5.{
  ack_with, process_publish_v5, subscribe_loop_v5, process_subscribe_v5, process_v5_packet,
}

-- The reason that answers a filter.
abbrev pub answer_reason : AclChecker → Bytes → SubscribeFilter → ReasonCode
answer_reason acl username f =
    if authorize_subscribe acl username f.path then success else not_authorized

module _ (M : DashMap) where
  -- A PUBLISH of MQTT 5 that the rules do not allow is answered with the acknowledgement that its
  -- QoS asks for, which says that it is not authorized, and changes two counters of the metrics and
  -- nothing else.
  pub process_publish_v5-denied :
      (now : ℕ) (p : PublishPacket) (client username : Bytes) (s : BrokerState M)
      → authorize_publish s.acl username p.topic ≡ false
      → process_v5_packet M now (publish p) client username s ≡ (
        ack_with not_authorized p.qos p.packet_id,
        record s {
          metrics =
              increment_bytes_received (length p.payload) (increment_messages_received s.metrics);
        },
      )
  unfolding process_v5_packet process_publish_v5 count_received count
  process_publish_v5-denied now p client username s e = rw (e, process_publish_v5) refl

  after_acl :
      (client : Bytes) (f : SubscribeFilter) (s : BrokerState M)
      → (send_retained M client
          (Topic.new f.path)
          (M.iter s.retained)
          (add_subscription M client f.path f.qos s)).acl
        ≡ s.acl
  unfolding add_subscription send_event
  after_acl client f s =
      ap (λ (u : BrokerState M). u.acl)
        (quiet-send_retained M client (Topic.new f.path) (M.iter s.retained)
          (add_subscription M client f.path f.qos s))

  reasons-subscribe_loop :
      (filters : List SubscribeFilter) (client username : Bytes) (codes : List ReasonCode)
      (s : BrokerState M)
      → (subscribe_loop_v5 M filters client username codes s).0
        ≡ codes ++ map (answer_reason s.acl username) filters
  unfolding subscribe_loop_v5
  reasons-subscribe_loop [] client username codes s = sym (append-nil codes)
  reasons-subscribe_loop (f ∷ filters) client username codes s =
      elim (Bool-cases (authorize_subscribe s.acl username f.path)) [
        | inl e ↦ rw e (
            reasons-subscribe_loop filters client username (codes ++ success ∷ []) _
            ∙ rw (after_acl client f s) (append_assoc codes (success ∷ []) _))
        | inr e ↦ rw e (
            reasons-subscribe_loop filters client username (codes ++ not_authorized ∷ []) s
            ∙ append_assoc codes (not_authorized ∷ []) _)
      ]

  -- A SUBSCRIBE of MQTT 5 is answered by a SUBACK with its identifier, no properties and one reason
  -- for each filter, in order: success where the rules allow it, whatever QoS was asked for, else
  -- that it is not authorized.
  pub process_subscribe_v5-answer :
      (p : SubscribePacket) (now : ℕ) (client username : Bytes) (s : BrokerState M)
      → (process_v5_packet M now (subscribe p) client username s).0
        ≡ some (
            suback (record {
              packet_id = p.packet_id;
              reason_codes = map (answer_reason s.acl username) p.filters;
              properties = [];
            }))
  unfolding process_v5_packet process_subscribe_v5
  process_subscribe_v5-answer p now client username s =
      rw (reasons-subscribe_loop p.filters client username [] s) refl
