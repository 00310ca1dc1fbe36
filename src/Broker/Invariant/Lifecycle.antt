-- ===== src/Broker/Invariant/Lifecycle.antt =====
-- The steps of a connection in mqtt-broker/src/server.rs keep the broker's state sound.
use atom_mqtt.Prelude.{
  ℕ, refl, sym, subst, Option, none, some, [], ◌∷◌, Bytes, codes, Bool-cases, Option-cases, inl,
  inr,
}
use atom_mqtt.Wire.Read.{unwrap_or}
use atom_mqtt.Wire.Fuel.{Result-cases}
use atom_mqtt.V3.Types.{MqttPacketV3}
use atom_mqtt.V5.Types.{MqttPacketV5, disconnect}
use atom_mqtt.Codec.{MqttPacket, v311, v5}
use atom_mqtt.Broker.Store.{DashMap}
use atom_mqtt.Broker.Metrics.{increment_packets_received, decrement_clients_connected}
use atom_mqtt.Broker.State.{BrokerState, send_message, count}
use atom_mqtt.Broker.ProcessV5.{process_packet}
use atom_mqtt.Broker.ProcessV5.Same.{as_v3, alone, effect, process_v5_packet-effect}
use atom_mqtt.Broker.Request.{decode_packet_by_version}
use atom_mqtt.Broker.Connection.{
  Conn, Phase, reading, serving, finished, failed, Arrival, received, read_failed, forwarded, Input,
  send_packet, end_connection, write_answer, serve, wait, turn, first_arrival, step,
}
use atom_mqtt.Broker.Invariant.Untouched.{Spares, Spares-same, Spares-mark_disconnected}
use atom_mqtt.Broker.Invariant.Opening.{Spares-count_sent, Spares-send_packet, Spares-first_bytes}
use atom_mqtt.Broker.Invariant.Sound.{IsSound, IsSound-Spares, IsSound-process_v3_packet}

module _ (M : DashMap) where
  Spares-end_connection : (c : Conn) (s : BrokerState M) → Spares M s (end_connection M c s)
  unfolding end_connection send_message count decrement_clients_connected
  Spares-end_connection c s =
      let u : BrokerState M =
        count M decrement_clients_connected
          (record s { connections = M.remove s.connections c.client_id }) in
      let w = Spares-mark_disconnected M c.client_id u in
      record { tree = w.tree; active = w.active }

  Spares-write_answer :
      (i : Input) (next : Phase) (answer : Option MqttPacket) (s : BrokerState M)
      → Spares M s (write_answer M i next answer s).2
  unfolding write_answer
  Spares-write_answer i next none s = Spares-same M s
  Spares-write_answer i next (some response) s =
      elim (Option-cases (send_packet M i.writes response s).0) [
        | inl e ↦ rw (e, write_answer) (Spares-send_packet M i.writes response s)
        | inr (bytes, e) ↦ rw (e, write_answer) (Spares-send_packet M i.writes response s)
      ]

  Spares-wait :
      (i : Input) (c : Conn) (arrival : Arrival) (s : BrokerState M)
      → Spares M s (wait M i c arrival s).2
  unfolding wait
  Spares-wait i c (received []) s = Spares-end_connection c s
  Spares-wait i c (received (b ∷ more)) s = Spares-same M s
  Spares-wait i c read_failed s = Spares-same M s
  Spares-wait i c (forwarded bytes) s = elim (Bool-cases i.writes) [
    | inl e ↦ rw (e, wait) (Spares-count_sent M bytes s)
    | inr e ↦ rw (e, wait) (Spares-end_connection c s)
  ]

  IsSound-effect :
      (now : ℕ) (q : Option MqttPacketV3) (client username : Bytes) (s other : BrokerState M)
      → IsSound M s
      → IsSound M other
      → IsSound M (effect M now q client username s other)
  IsSound-effect now none client username s other h k = k
  IsSound-effect now (some q) client username s other h k =
      IsSound-process_v3_packet M now q client username s h

  IsSound-alone :
      (p : MqttPacketV5) (client : Bytes) (s : BrokerState M)
      → IsSound M s
      → IsSound M (alone M p client s)
  IsSound-alone (disconnect p) client s h =
      IsSound-Spares M s _ (Spares-mark_disconnected M client s) h
  IsSound-alone _ client s h = h

  IsSound-process_packet :
      (now : ℕ) (packet : MqttPacket) (client username : Bytes) (s : BrokerState M)
      → IsSound M s
      → IsSound M (process_packet M now packet client username s).1
  unfolding process_packet
  IsSound-process_packet now (v311 p) client username s h =
      IsSound-process_v3_packet M now p client username s h
  IsSound-process_packet now (v5 p) client username s h =
      subst (IsSound M) (sym (process_v5_packet-effect M now p client username s)) (
        IsSound-effect now (as_v3 p) client username s (alone M p client s) h
          (IsSound-alone p client s h))

  IsSound-serve :
      (i : Input) (c : Conn) (packet : MqttPacket) (size : ℕ) (s : BrokerState M)
      → IsSound M s
      → IsSound M (serve M i c packet size s).2
  unfolding serve count increment_packets_received
  IsSound-serve i c packet size s h =
      let received_one : BrokerState M = count M increment_packets_received s in
      let username : Bytes = unwrap_or c.username (codes "anonymous") in
      let (answer, t) = process_packet M i.now packet c.client_id username received_one in
      IsSound-Spares M t _ (Spares-write_answer i _ answer t) (
        IsSound-process_packet i.now packet c.client_id username received_one
          (IsSound-Spares M s received_one (record { tree = refl; active = refl }) h))

  IsSound-turn :
      (i : Input) (c : Conn) (s : BrokerState M) → IsSound M s → IsSound M (turn M i c s).2
  unfolding turn
  IsSound-turn i c s h = elim (Result-cases (decode_packet_by_version c.buf c.version)) [
    | inl (e, read) ↦ rw (read, turn) (IsSound-Spares M s _ (Spares-end_connection c s) h)
    | inr (none, read) ↦ rw (read, turn) (IsSound-Spares M s _ (Spares-wait i c i.arrival s) h)
    | inr (some (packet, size), read) ↦ rw (read, turn) (IsSound-serve i c packet size s h)
  ]

  Spares-first_arrival :
      (i : Input) (arrival : Arrival) (s : BrokerState M)
      → Spares M s (first_arrival M i arrival s).2
  unfolding first_arrival
  Spares-first_arrival i (received []) s = Spares-same M s
  Spares-first_arrival i (received (b ∷ buf)) s = Spares-first_bytes M i (b ∷ buf) s
  Spares-first_arrival i read_failed s = Spares-same M s
  Spares-first_arrival i (forwarded bytes) s = Spares-same M s

  pub IsSound-step :
      (i : Input) (phase : Phase) (s : BrokerState M) → IsSound M s → IsSound M (step M i phase s).2
  unfolding step
  IsSound-step i reading s h = IsSound-Spares M s _ (Spares-first_arrival i i.arrival s) h
  IsSound-step i (serving c) s h = IsSound-turn i c s h
  IsSound-step i finished s h = h
  IsSound-step i failed s h = h
