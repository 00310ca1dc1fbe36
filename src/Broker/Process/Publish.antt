-- ===== src/Broker/Process/Publish.antt =====
-- What a PUBLISH does to the state of mqtt-broker/src/server.rs.
use atom_mqtt.Prelude.{
  ℕ, ◌≡◌, refl, ◌∙◌, Bool, true, false, none, some, ◌∷◌, ◌++◌, if◌then◌else◌, Bytes, Bool-cases,
  inl, inr, str_eq_refl, [],
}
use atom_mqtt.V3.Types.{PublishPacket}
use atom_mqtt.V3.Types
use atom_mqtt.Broker.Store.{DashMap}
use atom_mqtt.Broker.Acl.{authorize_publish}
use atom_mqtt.Broker.State.{
  BrokerState, BrokerMessage, RetainedMessage, publish, send_event, send_message, count,
}
use atom_mqtt.Broker.Process.{
  ack_for, is_empty, retained_message, store_retained, count_received, process_publish,
  process_v3_packet,
}

module _ (M : DashMap) where
  -- The PUBLISH as the router is handed it.
  abbrev pub queued : PublishPacket → Bytes → BrokerMessage
  queued p client = publish p.topic p.payload p.qos p.retain client

  same_but_retained :
      (now : ℕ) (p : PublishPacket) (s : BrokerState M)
      → (store_retained M now p.topic p.payload p.qos p.retain s).messages ≡ s.messages
  unfolding store_retained send_event
  same_but_retained now p s = elim (Bool-cases p.retain) [
    | inr e ↦ rw (e, store_retained) refl
    | inl e ↦ rw (e, store_retained) (by_payload (is_empty p.payload) _ _ refl refl)
  ]
    where
      by_payload :
          (b : Bool) (s₁ s₂ : BrokerState M)
          → s₁.messages ≡ s.messages
          → s₂.messages ≡ s.messages
          → (if b then s₁ else s₂).messages ≡ s.messages
      by_payload true s₁ s₂ h k = h
      by_payload false s₁ s₂ h k = k

  -- A PUBLISH that the rules allow is answered with what its QoS asks for, and queued for the router
  -- after what is there.
  pub process_publish-allowed :
      (now : ℕ) (p : PublishPacket) (client username : Bytes) (s : BrokerState M)
      → authorize_publish s.acl username p.topic ≡ true
      → let after = process_v3_packet M now (Types.publish p) client username s in
        (after.0 ≡ ack_for p.qos p.packet_id)
        × (after.1.messages ≡ s.messages ++ queued p client ∷ [])
  unfolding process_v3_packet process_publish count_received count send_message
  process_publish-allowed now p client username s e =
      rw (e, process_publish) (refl, same_but_retained now p _)

  -- What is retained for a topic after a PUBLISH to it with the retain flag has been processed: the
  -- message, or nothing where its payload is empty.
  pub process_publish-retained :
      (now : ℕ) (p : PublishPacket) (client username : Bytes) (s : BrokerState M)
      → authorize_publish s.acl username p.topic ≡ true
      → p.retain ≡ true
      → M.get (process_v3_packet M now (Types.publish p) client username s).1.retained p.topic
        ≡ (if is_empty p.payload then none else some (retained_message now p.topic p.payload p.qos))
  unfolding process_v3_packet process_publish store_retained count_received count send_message
      send_event
  process_publish-retained now p client username s e r =
      rw (e, process_publish)
        (rw (r, store_retained)
          (by_payload (is_empty p.payload) _ _
            (M.get-remove s.retained p.topic p.topic ∙ rw (str_eq_refl p.topic) refl)
            (M.get-insert s.retained p.topic p.topic _ ∙ rw (str_eq_refl p.topic) refl)))
    where
      by_payload :
          {item : RetainedMessage} (b : Bool) (s₁ s₂ : BrokerState M)
          → M.get s₁.retained p.topic ≡ none
          → M.get s₂.retained p.topic ≡ some item
          → M.get (if b then s₁ else s₂).retained p.topic ≡ (if b then none else some item)
      by_payload true s₁ s₂ h k = h
      by_payload false s₁ s₂ h k = k
