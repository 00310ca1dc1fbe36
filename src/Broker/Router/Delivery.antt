-- ===== src/Broker/Router/Delivery.antt =====
-- What the subscribers of mqtt-broker/src/server.rs read, of a message and of a will.
use atom_mqtt.Prelude.{
  ℕ, ◌≤◌, ◌≡◌, refl, sym, ap, ◌∙◌, Bool, false, none, some, List, ◌∷◌, All, append-nil, length,
  Bytes, ok, Option-cases, inl, inr, [],
}
use atom_mqtt.Common.{Qos, at_most_once}
use atom_mqtt.V3.Types.{MqttPacketV3, publish}
use atom_mqtt.V3.Encode.{packet_bytes, encode_packet}
use atom_mqtt.Wire.Frame.{max_packet_size}
use atom_mqtt.V3.Decode.{decode_packet}
use atom_mqtt.Wire.Fields.{Fits}
use atom_mqtt.V3.RoundTrip.Packets.{decode-encode_packet}
use atom_mqtt.Broker.Store.{DashMap}
use atom_mqtt.Broker.Subscription
use atom_mqtt.Broker.Subscription.{Subscription}
use atom_mqtt.Broker.State.{BrokerState}
use atom_mqtt.Broker.Router.{route_publish}
use atom_mqtt.Broker.Router.Forward.{deliveries, sent-route_publish}

-- The PUBLISH that a subscriber is to get: QoS 0, and so no identifier.
abbrev pub delivered : Bytes → Bytes → Bool → MqttPacketV3
delivered topic payload retain = publish (record {
  topic = topic;
  payload = payload;
  qos = at_most_once;
  retain = retain;
  packet_id = none;
})

-- The bytes are those of it, and no more.
abbrev pub IsDelivered : Bytes → Bytes → Bool → Bytes → Type 0
IsDelivered topic payload retain bytes =
    decode_packet bytes ≡ ok (some (delivered topic payload retain, length bytes))

delivered_read :
    (topic payload : Bytes) (retain : Bool)
    → Fits topic
    → length (packet_bytes (delivered topic payload retain)) ≤ max_packet_size
    → IsDelivered topic payload retain (packet_bytes (delivered topic payload retain))
unfolding encode_packet
delivered_read topic payload retain h small =
    let bytes = packet_bytes (delivered topic payload retain) in
    ap decode_packet (sym (append-nil bytes))
    ∙ decode-encode_packet (delivered topic payload retain) bytes [] (record { topic = h; id = tt })
        refl small

module _ (M : DashMap) where
  All-deliveries :
      (P : Bytes → Type 0) (connections : M.Map ℕ) (subs : List Subscription) (bytes : Bytes)
      → P bytes
      → All (λ e. P e.1) (deliveries M connections subs bytes)
  All-deliveries P connections [] bytes p = tt
  All-deliveries P connections (sub ∷ subs) bytes p =
      elim (Option-cases (M.get connections sub.client_id)) [
        | inl e ↦ rw (e, deliveries) (All-deliveries P connections subs bytes p)
        | inr (tx, e) ↦ rw (e, deliveries) (p, All-deliveries P connections subs bytes p)
      ]

  -- The senders of the subscriptions whose client is connected.
  abbrev pub receivers : M.Map ℕ → List Subscription → List ℕ
  receivers connections [] = []
  receivers connections (sub ∷ subs) = elim (M.get connections sub.client_id) [
    | none ↦ receivers connections subs
    | some tx ↦ tx ∷ receivers connections subs
  ]

  -- Whatever the router sends for a message is read by `decode_packet` as one whole PUBLISH with the
  -- message's topic and payload, QoS 0, no identifier and no retain flag. Nothing had been sent before, the topic is
  -- a string that a packet may hold, and the packet has at most 10 MB.
  pub decode-route_publish :
      (now : ℕ) (topic payload : Bytes) (qos : Qos) (retain : Bool) (source : Bytes)
      (s : BrokerState M)
      → s.sent ≡ []
      → Fits topic
      → length (packet_bytes (delivered topic payload false)) ≤ max_packet_size
      → All
          (λ e. IsDelivered topic payload false e.1)
          (route_publish M now topic payload qos retain source s).sent
  decode-route_publish now topic payload qos retain source s quiet_before h small =
      rw (sent-route_publish M now topic payload qos retain source s) (
        rw quiet_before (
          All-deliveries (IsDelivered topic payload false) s.connections
            (Subscription.lookup s.subscriptions topic)
            (packet_bytes (delivered topic payload false))
            (delivered_read topic payload false h small)))
