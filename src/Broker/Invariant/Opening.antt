-- ===== src/Broker/Invariant/Opening.antt =====
-- How a connection opens in mqtt-broker/src/server.rs leaves the subscriptions and their gauge alone.
use atom_mqtt.Prelude.{
  ℕ, ◌≡◌, refl, Bool, true, false, none, some, [], Bytes, Bool-cases, Option-cases, ◌⊎◌, inl, inr,
}
use atom_mqtt.Wire.Fuel.{Result-cases}
use atom_mqtt.V3.Types.{MqttPacketV3}
use atom_mqtt.V3.Types as Types3
use atom_mqtt.V3.Decode as Decode3
use atom_mqtt.V5.Reasons as Reasons
use atom_mqtt.Codec.{MqttPacket}
use atom_mqtt.Broker.Store.{DashMap}
use atom_mqtt.Broker.Auth.{AuthErrorKind, AuthResult, success, denied, authenticate}
use atom_mqtt.Broker.Metrics.{increment_packets_sent, increment_bytes_sent}
use atom_mqtt.Broker.State.{BrokerState, count}
use atom_mqtt.Broker.Process.{is_empty}
use atom_mqtt.Broker.Request.{
  Request, request_of, decode_first_packet, connack_of, to_v3_return_code, to_v5_reason_code,
}
use atom_mqtt.Broker.Connection.{
  Input, count_sent, send_packet, refuse, name_client, open_session, start_serving, accept_as,
  accept, connect_with, first_bytes,
}
use atom_mqtt.Broker.Connection.Opened.{open_session-Opened}
use atom_mqtt.Broker.Connection.Serving.{any_bytes, encode_any_ok}
use atom_mqtt.Broker.Invariant.Untouched.{Spares, Spares-same, Spares-trans}

AuthResult-cases :
    (r : AuthResult)
    → ((reason : AuthErrorKind) × (r ≡ denied reason))
      ⊎ ((username : Bytes) × (r ≡ success username))
AuthResult-cases (denied reason) = inl (reason, refl)
AuthResult-cases (success username) = inr (username, refl)

module _ (M : DashMap) where
  pub Spares-count_sent : (bytes : Bytes) (s : BrokerState M) → Spares M s (count_sent M bytes s)
  unfolding count_sent count increment_packets_sent increment_bytes_sent
  Spares-count_sent bytes s = record { tree = refl; active = refl }

  pub Spares-send_packet :
      (writes : Bool) (packet : MqttPacket) (s : BrokerState M)
      → Spares M s (send_packet M writes packet s).1
  unfolding send_packet
  Spares-send_packet true packet s =
      rw (encode_any_ok packet, send_packet) (Spares-count_sent (any_bytes packet) s)
  Spares-send_packet false packet s = rw (encode_any_ok packet, send_packet) (Spares-same M s)

  Spares-refuse :
      (i : Input) (r : Request) (reason : AuthErrorKind) (s : BrokerState M)
      → Spares M s (refuse M i r reason s).2
  unfolding refuse
  Spares-refuse i r reason s =
      let packet : MqttPacket =
        connack_of r.version (to_v3_return_code reason) (to_v5_reason_code reason) in
      elim (Option-cases (send_packet M i.writes packet s).0) [
        | inl e ↦ rw (e, refuse) (Spares-send_packet i.writes packet s)
        | inr (bytes, e) ↦ rw (e, refuse) (Spares-send_packet i.writes packet s)
      ]

  Spares-name_client : (client : Bytes) (s : BrokerState M) → Spares M s (name_client M client s).1
  unfolding name_client
  Spares-name_client client s = elim (Bool-cases (is_empty client)) [
    | inl e ↦ rw (e, name_client) (record { tree = refl; active = refl })
    | inr e ↦ rw (e, name_client) (Spares-same M s)
  ]

  Spares-open_session :
      (now : ℕ) (client username : Bytes) (r : Request) (s : BrokerState M)
      → Spares M s (open_session M now client username r s)
  unfolding count_sent count increment_packets_sent increment_bytes_sent
  Spares-open_session now client username r s =
      let o = open_session-Opened M now client username [] r s in
      record { tree = o.tree; active = o.active }

  Spares-start_serving :
      (i : Input) (client username : Bytes) (r : Request) (buf answer : Bytes) (s : BrokerState M)
      → Spares M s (start_serving M i client username r buf answer s).2
  unfolding start_serving
  Spares-start_serving i client username r buf answer s =
      elim (Result-cases (Decode3.decode_packet buf)) [
        | inl (e, read) ↦ rw (read, start_serving) (record { tree = refl; active = refl })
        | inr (none, read) ↦ rw (read, start_serving) (record { tree = refl; active = refl })
        | inr (some p, read) ↦ rw (read, start_serving) (record { tree = refl; active = refl })
      ]

  Spares-accept_as :
      (i : Input) (r : Request) (username buf client : Bytes) (s : BrokerState M)
      → Spares M s (accept_as M i r username buf client s).2
  unfolding accept_as
  Spares-accept_as i r username buf client s =
      let t : BrokerState M = open_session M i.now client username r s in
      let packet : MqttPacket = connack_of r.version Types3.accepted Reasons.success in
      let u : BrokerState M = (send_packet M i.writes packet t).1 in
      let opened =
        Spares-trans M s t u (Spares-open_session i.now client username r s)
          (Spares-send_packet i.writes packet t) in
      elim (Option-cases (send_packet M i.writes packet t).0) [
        | inl e ↦ rw (e, accept_as) opened
        | inr (answer, e) ↦
            rw (e, accept_as)
              (Spares-trans M s u _ opened (Spares-start_serving i client username r buf answer u))
      ]

  Spares-connect_with :
      (i : Input) (r : Request) (buf : Bytes) (s : BrokerState M)
      → Spares M s (connect_with M i r buf s).2
  unfolding connect_with accept
  Spares-connect_with i r buf s =
      elim (AuthResult-cases
        (authenticate s.authenticator s.allow_anonymous r.username r.password)) [
          | inl (reason, e) ↦ rw (e, connect_with) (Spares-refuse i r reason s)
          | inr (username, e) ↦
              let named = name_client M r.client_id s in
              rw (e, connect_with)
                (Spares-trans M s named.1 _ (Spares-name_client r.client_id s)
                  (Spares-accept_as i r username buf named.0 named.1))
        ]

  pub Spares-first_bytes :
      (i : Input) (buf : Bytes) (s : BrokerState M) → Spares M s (first_bytes M i buf s).2
  unfolding first_bytes
  Spares-first_bytes i buf s = elim (Result-cases (decode_first_packet buf)) [
    | inl (e, read) ↦ rw (read, first_bytes) (Spares-same M s)
    | inr (none, read) ↦ rw (read, first_bytes) (Spares-same M s)
    | inr (some packet, read) ↦
        rw (read, first_bytes)
          (elim (Option-cases (request_of i.now packet)) [
            | inl e ↦ rw e (Spares-same M s)
            | inr (r, e) ↦ rw e (Spares-connect_with i r buf s)
          ])
  ]
