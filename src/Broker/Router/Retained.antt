-- ===== src/Broker/Router/Retained.antt =====
-- What the router of mqtt-broker/src/server.rs leaves retained.
use atom_mqtt.Prelude.{
  ℕ, ◌≡◌, refl, ap, ◌∙◌, Bool, true, false, none, some, ◌∷◌, ◌++◌, Bytes, str_eq_refl,
  if◌then◌else◌, [],
}
use atom_mqtt.Common.{Qos}
use atom_mqtt.V3.Types.{PublishPacket}
use atom_mqtt.V3.Types
use atom_mqtt.Broker.Store.{DashMap}
use atom_mqtt.Broker.Acl.{authorize_publish}
use atom_mqtt.Broker.Subscription
use atom_mqtt.Broker.State.{BrokerState, RetainedMessage, count}
use atom_mqtt.Broker.Process.{retained_message, is_empty, process_v3_packet}
use atom_mqtt.Broker.Process.Publish.{queued, process_publish-allowed, process_publish-retained}
use atom_mqtt.Broker.Router.{store_if, route_publish, route}
use atom_mqtt.Broker.Router.Forward.{quiet-forward, quiet-forward_web}

module _ (M : DashMap) where
  retained-store_if :
      (retain : Bool) (now : ℕ) (topic payload : Bytes) (qos : Qos) (s : BrokerState M)
      → (store_if M retain now topic payload qos s).retained ≡ (
          if retain
          then M.insert s.retained topic (retained_message now topic payload qos)
          else s.retained)
  unfolding store_if
  retained-store_if true now topic payload qos s = refl
  retained-store_if false now topic payload qos s = refl

  -- Routing a message stores it as retained where it has the flag, and otherwise leaves what is
  -- retained as it was.
  pub retained-route_publish :
      (now : ℕ) (topic payload : Bytes) (qos : Qos) (retain : Bool) (source : Bytes)
      (s : BrokerState M)
      → (route_publish M now topic payload qos retain source s).retained ≡ (
          if retain
          then M.insert s.retained topic (retained_message now topic payload qos)
          else s.retained)
  unfolding route_publish count
  retained-route_publish now topic payload qos retain source s =
      let subs = Subscription.lookup s.subscriptions topic in
      retained-store_if retain now topic payload qos _
      ∙ ap
          (λ (u : M.Map RetainedMessage).
            if retain then M.insert u topic (retained_message now topic payload qos) else u)
          (ap (λ (u : BrokerState M). u.retained) (quiet-forward_web M subs _ _)
            ∙ ap (λ (u : BrokerState M). u.retained) (quiet-forward M subs _ _))

  get-insert_if :
      (m : M.Map RetainedMessage) (topic : Bytes) (item : RetainedMessage) (b : Bool)
      → b ≡ true
      → M.get (if b then M.insert m topic item else m) topic ≡ some item
  get-insert_if m topic item b e =
      rw e (M.get-insert m topic topic item ∙ rw (str_eq_refl topic) refl)

  -- A PUBLISH with the retain flag that the rules allow is queued, and once the router has dealt with
  -- it, its topic, payload and QoS are retained for the topic, whatever its payload is: an empty
  -- payload too, for which nothing was retained in between.
  pub retained_after_route :
      (now later : ℕ) (p : PublishPacket) (client username : Bytes) (s : BrokerState M)
      → authorize_publish s.acl username p.topic ≡ true
      → p.retain ≡ true
      → let s' = (process_v3_packet M now (Types.publish p) client username s).1 in
        (s'.messages ≡ s.messages ++ queued M p client ∷ [])
        × (M.get s'.retained p.topic ≡ (
            if is_empty p.payload
            then none
            else some
                (record { topic = p.topic; payload = p.payload; qos = p.qos; timestamp = now })))
        × (M.get (route M later (queued M p client) s').retained p.topic
            ≡ some
                (record { topic = p.topic; payload = p.payload; qos = p.qos; timestamp = later }))
  unfolding route
  retained_after_route now later p client username s allowed r =
      let s' = (process_v3_packet M now (Types.publish p) client username s).1 in
      (
        (process_publish-allowed M now p client username s allowed).1,
        process_publish-retained M now p client username s allowed r,
        ap (λ (m : M.Map RetainedMessage). M.get m p.topic)
              (retained-route_publish later p.topic p.payload p.qos p.retain client s')
            ∙ get-insert_if s'.retained p.topic (retained_message later p.topic p.payload p.qos)
                p.retain r,
      )
