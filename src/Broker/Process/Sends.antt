-- ===== src/Broker/Process/Sends.antt =====
-- What the sends of mqtt-broker/src/server.rs leave alone.
use atom_mqtt.Prelude.{
  ◌≡◌, refl, ◌∙◌, Bool, true, false, not, ◌&&◌, List, ◌∷◌, if◌then◌else◌, Bytes, Option-cases, inl,
  inr, [],
}
use atom_mqtt.Common.Topic
use atom_mqtt.V3.Encode.{packet_bytes}
use atom_mqtt.Broker.Store.{DashMap}
use atom_mqtt.Broker.State.{BrokerState, RetainedMessage, send_to}
use atom_mqtt.Broker.Process.{forwarded, is_empty, send_client, send_retained}

module _ (M : DashMap) where
  -- The state without what was sent to connections and web subscribers.
  abbrev pub quiet : BrokerState M → BrokerState M
  quiet s = record s { sent = []; web_sent = [] }

  pub quiet-send_client :
      (client bytes : Bytes) (s : BrokerState M) → quiet (send_client M client bytes s) ≡ quiet s
  unfolding send_client send_to
  quiet-send_client client bytes s = elim (Option-cases (M.get s.connections client)) [
    | inl e ↦ rw (e, send_client) refl
    | inr (tx, e) ↦ rw (e, send_client) refl
  ]

  quiet-if :
      (b : Bool) (s' s : BrokerState M) → quiet s' ≡ quiet s → quiet (if b then s' else s) ≡ quiet s
  quiet-if true s' s e = e
  quiet-if false s' s e = refl

  pub quiet-send_retained :
      (client : Bytes) (filter : Topic.TopicFilter) (items : List (Bytes × RetainedMessage))
      (s : BrokerState M)
      → quiet (send_retained M client filter items s) ≡ quiet s
  unfolding send_retained
  quiet-send_retained client filter [] s = refl
  quiet-send_retained client filter ((key, item) ∷ items) s =
      quiet-send_retained client filter items _
      ∙ quiet-if (Topic.matches filter item.topic && not (is_empty item.payload)) _ s
          (quiet-send_client client (packet_bytes (forwarded item.topic item.payload true)) s)
