-- ===== src/Broker/Connection/Opened.antt =====
-- What opening a session in mqtt-broker/src/server.rs leaves in the broker's state.
use atom_mqtt.Prelude.{
  ℕ, ◌≡◌, refl, ap, sym, subst, ◌∙◌, true, false, Option, none, some, Bytes, str_eq_refl,
  Option-cases, inl, inr,
}
use atom_mqtt.Common.{level_byte}
use atom_mqtt.Broker.Store.{DashMap}
use atom_mqtt.Broker.Metrics.{
  BrokerMetrics, add64, increment_packets_sent, increment_bytes_sent, increment_clients_connected,
}
use atom_mqtt.Broker.State.{BrokerState, SessionState, WillMessage, send_event, count, save_session}
use atom_mqtt.Broker.Process.{mark_disconnected}
use atom_mqtt.Broker.Request.{Request}
use atom_mqtt.Broker.Connection.{session_new, count_sent, store_will, open_session}

module _ (M : DashMap) where
  -- Marking a session changes the map of sessions only.
  pub mark_disconnected-sessions :
      (client : Bytes) (s : BrokerState M)
      → (m : M.Map SessionState) × (mark_disconnected M client s ≡ record s { sessions = m })
  unfolding mark_disconnected
  mark_disconnected-sessions client s = elim (Option-cases (M.get s.sessions client)) [
    | inl e ↦ (s.sessions, rw (e, mark_disconnected) refl)
    | inr (session, e) ↦ (
      M.insert s.sessions client (record session { connected = false }),
      rw (e, mark_disconnected) refl,
    )
  ]

  -- The will that is stored for a client, where there was `before`.
  abbrev pub will_after : Bytes → Option WillMessage → Option WillMessage → Option WillMessage
  will_after client none before = before
  will_after client (some will) before = some (record will { client_id = client })

  pub record Opened (now : ℕ) (client username : Bytes) (r : Request) (s t : BrokerState M)
      : Type 0 where
    pub session :
        M.get t.sessions client
        ≡ some (record {
          client_id = client;
          protocol_version = r.version;
          clean_session = r.clean_session;
          keep_alive = r.keep_alive;
          connected = true;
          created_at = now;
          last_active = now;
          username = some username;
        })
    pub counted : t.metrics.clients_connected ≡ add64 s.metrics.clients_connected 1
    pub queue : t.messages ≡ s.messages
    pub will : M.get t.wills client ≡ will_after client r.will (M.get s.wills client)
    pub tree : t.subscriptions ≡ s.subscriptions
    pub active : t.metrics.subscriptions_active ≡ s.metrics.subscriptions_active

  stored :
      (client : Bytes) (w : Option WillMessage) (s : BrokerState M)
      → let t = store_will M client w s in
        (M.get t.wills client ≡ will_after client w (M.get s.wills client))
        × (t.sessions ≡ s.sessions)
        × (t.metrics ≡ s.metrics)
        × (t.messages ≡ s.messages)
        × (t.subscriptions ≡ s.subscriptions)
  unfolding store_will send_event
  stored client none s = (refl, refl, refl, refl, refl)
  stored client (some w) s =
      (M.get-insert s.wills client client _ ∙ rw (str_eq_refl client) refl, refl, refl, refl, refl)

  -- The new session in place, and then the will.
  abbrev entered : ℕ → Bytes → Bytes → Request → M.Map SessionState → BrokerState M → BrokerState M
  entered now client username r m s = count M increment_clients_connected (record s {
    sessions =
        M.insert m client
          (session_new now client r.version r.clean_session r.keep_alive (some username));
  })

  -- What follows once the old session is marked.
  abbrev open_from : ℕ → Bytes → Bytes → Request → BrokerState M → BrokerState M
  open_from now client username r s =
      send_event M
        (save_session client (level_byte r.version) r.clean_session r.keep_alive (some username))
        (store_will M client r.will (entered now client username r s.sessions s))

  open_from-Opened :
      (now : ℕ) (client username connack : Bytes) (r : Request) (m : M.Map SessionState)
      (s : BrokerState M)
      → Opened now client username r s
          (count_sent M connack (open_from now client username r (record s { sessions = m })))
  unfolding count_sent count send_event increment_packets_sent increment_bytes_sent
      increment_clients_connected
  open_from-Opened now client username connack r m s =
      let (will, sessions, metrics, queue, tree) =
        stored client r.will (entered now client username r m s) in
      record {
        session =
            ap (λ (x : M.Map SessionState). M.get x client) sessions
            ∙ M.get-insert m client client _
            ∙ rw (str_eq_refl client) refl;
        counted = ap (λ (x : BrokerMetrics). x.clients_connected) metrics;
        queue = queue;
        will = will;
        tree = tree;
        active = ap (λ (x : BrokerMetrics). x.subscriptions_active) metrics;
      }

  pub open_session-Opened :
      (now : ℕ) (client username connack : Bytes) (r : Request) (s : BrokerState M)
      → Opened now client username r s
          (count_sent M connack (open_session M now client username r s))
  unfolding open_session
  open_session-Opened now client username connack r s =
      let (m, marked) = mark_disconnected-sessions client s in
      subst
        (λ (u : BrokerState M).
          Opened now client username r s (count_sent M connack (open_from now client username r u)))
        (sym marked) (open_from-Opened now client username connack r m s)
