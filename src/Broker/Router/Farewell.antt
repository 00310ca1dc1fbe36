-- ===== src/Broker/Router/Farewell.antt =====
-- What the end of a connection sends after a DISCONNECT in mqtt-broker/src/server.rs.
use atom_mqtt.Prelude.{
  ℕ, ◌≡◌, refl, ap, sym, ◌∙◌, Bool, false, none, Bytes, ◌==◌, if◌then◌else◌, str_eq_refl,
  Option-cases, Bool-cases, inl, inr,
}
use atom_mqtt.V3.Types as Types3
use atom_mqtt.V5.Types as Types5
use atom_mqtt.V5.Reasons.{ReasonCode, reason_code_to_u8}
use atom_mqtt.Codec.{MqttPacket, v311, v5}
use atom_mqtt.Broker.Store.{DashMap}
use atom_mqtt.Broker.State.{BrokerState, SessionState, send_event}
use atom_mqtt.Broker.Process.{mark_disconnected}
use atom_mqtt.Broker.ProcessV5.{process_disconnect_v5, process_v5_packet, process_packet}
use atom_mqtt.Broker.Router.{take_will, route_disconnected}
use atom_mqtt.Broker.Router.Disconnect.{
  sent-mark_disconnected, sent-route_disconnected, disconnect_without_will, will_delivered,
}
use atom_mqtt.Broker.Connection.Opened.{mark_disconnected-sessions}

abbrev pub IsDisconnect : MqttPacket → Type 0
IsDisconnect (v311 Types3.disconnect) = Unit
IsDisconnect (v5 (Types5.disconnect p)) = Unit
IsDisconnect _ = ⊥

-- MQTT 5 has a DISCONNECT that asks for the will, with the reason 4; MQTT 3.1.1 has none.
abbrev pub asks_for_will : MqttPacket → Bool
asks_for_will (v5 (Types5.disconnect p)) = reason_code_to_u8 p.reason_code == 4
asks_for_will _ = false

module _ (M : DashMap) where
  -- The sessions play no part in what the end of a connection sends.
  sent-sessions :
      (now : ℕ) (client : Bytes) (clean : Bool) (s : BrokerState M) (m : M.Map SessionState)
      → (route_disconnected M now client clean (record s { sessions = m })).sent
        ≡ (route_disconnected M now client clean s).sent
  unfolding take_will
  sent-sessions now client clean s m = elim (Option-cases (M.get s.wills client)) [
    | inl e ↦
        let other : BrokerState M = record s { sessions = m } in
        let quiet_then : (take_will M now client other).sent ≡ s.sent = rw (e, take_will) refl in
        let quiet_now : (take_will M now client s).sent ≡ s.sent = rw (e, take_will) refl in
        sent-route_disconnected M now client clean other
        ∙ quiet_then
        ∙ sym (sent-route_disconnected M now client clean s ∙ quiet_now)
    | inr (will, e) ↦
        will_delivered M now client clean (record s { sessions = m }) will e
        ∙ sym (will_delivered M now client clean s will e)
  ]

  farewell_v5 :
      (now : ℕ) (reason : ReasonCode) (client : Bytes) (clean : Bool) (s : BrokerState M)
      → (route_disconnected M now client clean (process_disconnect_v5 M reason client s)).sent ≡ (
          if reason_code_to_u8 reason == 4
          then (route_disconnected M now client clean s).sent
          else s.sent)
  unfolding process_disconnect_v5 send_event take_will reason_code_to_u8
  farewell_v5 now reason client clean s =
      let (m, marked) = mark_disconnected-sessions M client s in
      elim (Bool-cases (reason_code_to_u8 reason == 4)) [
        | inl e ↦
            rw (e, process_disconnect_v5)
              (ap (λ (u : BrokerState M). (route_disconnected M now client clean u).sent) marked
                ∙ sent-sessions now client clean s m)
        | inr e ↦
            let wills = (mark_disconnected M client s).wills in
            let gone : M.get (M.remove wills client) client ≡ none =
              M.get-remove wills client client ∙ rw (str_eq_refl client) refl in
            rw (e, process_disconnect_v5)
              (sent-route_disconnected M now client clean _
                ∙ rw (gone, take_will) (sent-mark_disconnected M client s))
      ]

  -- After a DISCONNECT of either version, when the router learns next that the connection has ended,
  -- it sends nothing; only after one of MQTT 5 with the reason 4 it sends what it would have sent
  -- without the DISCONNECT.
  pub farewell_lem :
      (now : ℕ) (packet : MqttPacket) (client username : Bytes) (clean : Bool) (s : BrokerState M)
      → IsDisconnect packet
      → let after = (process_packet M now packet client username s).1 in
        (route_disconnected M now client clean after).sent
        ≡ (if asks_for_will packet then (route_disconnected M now client clean s).sent else s.sent)
  unfolding process_packet process_v5_packet
  farewell_lem now (v311 Types3.disconnect) client username clean s h =
      disconnect_without_will M now client username clean s
  farewell_lem now (v5 (Types5.disconnect p)) client username clean s h =
      farewell_v5 now p.reason_code client clean s
  farewell_lem now _ client username clean s h = absurd h
