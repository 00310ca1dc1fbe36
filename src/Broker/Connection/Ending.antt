-- ===== src/Broker/Connection/Ending.antt =====
-- How a connection of mqtt-broker/src/server.rs ends.
use atom_mqtt.Prelude.{
  ℕ, ◌-◌, ◌≡◌, refl, ap, ◌∙◌, false, Option, none, some, List, ◌∷◌, ◌++◌, Bytes, str_eq_refl,
  Option-cases, Bool-cases, inl, inr, [],
}
use atom_mqtt.Wire.Fuel.{Result-cases}
use atom_mqtt.Codec.{MqttPacket}
use atom_mqtt.Broker.Request.{decode_packet_by_version}
use atom_mqtt.Broker.Store.{DashMap}
use atom_mqtt.Broker.Metrics.{BrokerMetrics, decrement_clients_connected}
use atom_mqtt.Broker.State.{
  BrokerState, BrokerMessage, SessionState, send_message, count, client_disconnected,
}
use atom_mqtt.Broker.Process.{mark_disconnected}
use atom_mqtt.Broker.Connection.{
  Input, Arrival, received, read_failed, forwarded, Conn, serving, finished, end_connection,
  send_packet, write_answer, serve, wait, turn, step,
}

-- A session marked as not connected.
abbrev pub away : Option SessionState → Option SessionState
away none = none
away (some session) = some (record session { connected = false })

module _ (M : DashMap) where
  away-mark_disconnected :
      (client : Bytes) (s : BrokerState M)
      → M.get (mark_disconnected M client s).sessions client ≡ away (M.get s.sessions client)
  unfolding mark_disconnected
  away-mark_disconnected client s = elim (Option-cases (M.get s.sessions client)) [
    | inl e ↦ rw (e, mark_disconnected) e
    | inr (session, e) ↦
        rw (e, mark_disconnected)
          (M.get-insert s.sessions client client _ ∙ rw (str_eq_refl client) refl)
  ]

  mark_disconnected_rest :
      (client : Bytes) (s : BrokerState M)
      → let t = mark_disconnected M client s in
        (t.connections ≡ s.connections) × (t.messages ≡ s.messages) × (t.metrics ≡ s.metrics)
  unfolding mark_disconnected
  mark_disconnected_rest client s = elim (Option-cases (M.get s.sessions client)) [
    | inl e ↦ rw (e, mark_disconnected) (refl, refl, refl)
    | inr (session, e) ↦ rw (e, mark_disconnected) (refl, refl, refl)
  ]

  -- Nobody is connected by the connection's client identifier, its session is marked as not
  -- connected, one client less is counted, and the router is told behind what is queued.
  abbrev pub Ended : Conn → BrokerState M → BrokerState M → Type 0
  Ended c s t =
      (M.get t.connections c.client_id ≡ none)
      × (M.get t.sessions c.client_id ≡ away (M.get s.sessions c.client_id))
      × (t.metrics.clients_connected ≡ s.metrics.clients_connected - 1)
      × (t.messages ≡ s.messages ++ client_disconnected c.client_id c.clean_session ∷ [])

  -- What the cleanup leaves.
  end_connection-Ended : (c : Conn) (s : BrokerState M) → Ended c s (end_connection M c s)
  unfolding end_connection send_message count decrement_clients_connected
  end_connection-Ended c s =
      let u : BrokerState M =
        count M decrement_clients_connected
          (record s { connections = M.remove s.connections c.client_id }) in
      let (connections, messages, metrics) = mark_disconnected_rest c.client_id u in
      (
        ap (λ (m : M.Map ℕ). M.get m c.client_id) connections
            ∙ M.get-remove s.connections c.client_id c.client_id
            ∙ rw (str_eq_refl c.client_id) refl,
        away-mark_disconnected c.client_id u,
        ap (λ (m : BrokerMetrics). m.clients_connected) metrics,
        ap (λ (q : List BrokerMessage). q ++ client_disconnected c.client_id c.clean_session ∷ [])
            messages,
      )

  -- A connection that still has an answer to write does not end by itself.
  write_answer-goes_on :
      (i : Input) (d : Conn) (answer : Option MqttPacket) (s : BrokerState M)
      → (write_answer M i (serving d) answer s).0 ≡ finished
      → ⊥
  unfolding write_answer
  write_answer-goes_on i d none s h = cc
  write_answer-goes_on i d (some response) s h =
      elim (Option-cases (send_packet M i.writes response s).0) [
        | inl e ↦ (let k = rw (e, write_answer) at h in cc)
        | inr (bytes, e) ↦ (let k = rw (e, write_answer) at h in cc)
      ]

  wait-Ended :
      (i : Input) (c : Conn) (arrival : Arrival) (s : BrokerState M)
      → (wait M i c arrival s).0 ≡ finished
      → Ended c s (wait M i c arrival s).2
  unfolding wait
  wait-Ended i c (received []) s h = end_connection-Ended c s
  wait-Ended i c (received (b ∷ more)) s h = cc
  wait-Ended i c read_failed s h = cc
  wait-Ended i c (forwarded bytes) s h = elim (Bool-cases i.writes) [
    | inl e ↦ (let k = rw (e, wait) at h in cc)
    | inr e ↦ rw (e, wait) (end_connection-Ended c s)
  ]

  -- When a connection returns from its main loop with `Ok`, for whatever reason, nobody is connected
  -- by its client identifier any more, whichever connection's sender stood there; the client's
  -- session is marked as not connected; the clients counted as connected are one less, but not below
  -- 0; and the router is told behind what is queued. A connection that returns an error is not meant.
  pub step-Ended :
      (i : Input) (c : Conn) (s : BrokerState M)
      → (step M i (serving c) s).0 ≡ finished
      → Ended c s (step M i (serving c) s).2
  unfolding step turn serve
  step-Ended i c s h = elim (Result-cases (decode_packet_by_version c.buf c.version)) [
    | inl (e, bad) ↦ rw (bad, turn) (end_connection-Ended c s)
    | inr (none, more) ↦ rw (more, turn) (wait-Ended i c i.arrival s (rw (more, turn) at h))
    | inr (some (packet, size), read) ↦ absurd (write_answer-goes_on i _ _ _ (rw (read, turn) at h))
  ]
