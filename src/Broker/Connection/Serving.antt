-- ===== src/Broker/Connection/Serving.antt =====
-- The main loop of a connection in mqtt-broker/src/server.rs.
use atom_mqtt.Prelude.{
  ℕ, ◌≤◌, ◌≡◌, refl, ap, ap₂, ◌∙◌, true, Option, none, some, List, ◌∷◌, ◌++◌, length, map, drop,
  drop-append, All, Bytes, codes, ok, [],
}
use atom_mqtt.Common
use atom_mqtt.Wire.Read.{unwrap_or}
use atom_mqtt.Wire.Frame.{max_packet_size, decode_packet}
use atom_mqtt.V3.Types.{MqttPacketV3}
use atom_mqtt.V3.Encode as Encode3
use atom_mqtt.V3.Decode as Decode3
use atom_mqtt.V3.RoundTrip.Packets as Packets3
use atom_mqtt.V5.Encode as Encode5
use atom_mqtt.Codec.{MqttPacket, v311, v5, encode_any}
use atom_mqtt.Broker.Request.{decode_packet_by_version, sized}
use atom_mqtt.Broker.Store.{DashMap}
use atom_mqtt.Broker.Metrics.{increment_packets_received}
use atom_mqtt.Broker.State.{BrokerState, count}
use atom_mqtt.Broker.ProcessV5.{process_packet}
use atom_mqtt.Broker.Connection.{
  Input, Phase, Conn, serving, Result, count_sent, write_answer, serve, turn, step,
}
use atom_mqtt.Broker.Connection.First.{send_packet-sent}

-- What `encode_packet` writes; it never fails.
abbrev pub any_bytes : MqttPacket → Bytes
any_bytes (v311 p) = Encode3.packet_bytes p
any_bytes (v5 p) = Encode5.packet_bytes p

pub encode_any_ok : (p : MqttPacket) → encode_any p ≡ ok (any_bytes p)
unfolding encode_any Encode3.encode_packet Encode5.encode_packet
encode_any_ok (v311 p) = refl
encode_any_ok (v5 p) = refl

-- The bytes of packets one behind another.
abbrev pub stream : List MqttPacketV3 → Bytes
stream [] = []
stream (p ∷ ps) = Encode3.packet_bytes p ++ stream ps

by_version_v311 :
    (b : Bytes) → decode_packet_by_version b Common.v311 ≡ sized v311 (Decode3.decode_packet b)
unfolding decode_packet_by_version sized decode_packet
by_version_v311 [] = refl
by_version_v311 (b ∷ buf) = refl

-- A step's input with the packet that it is to serve.
pub record JobFits (job : Input × MqttPacketV3) : Type 0 where
  pub packet : Packets3.PacketFits job.1
  pub small : length (Encode3.packet_bytes job.1) ≤ max_packet_size
  pub writes : job.0.writes ≡ true

module _ (M : DashMap) where
  -- What is written for an answer, and the counters of what was sent.
  abbrev pub reply : Option MqttPacket → BrokerState M → List Bytes × BrokerState M
  reply none s = ([], s)
  reply (some response) s = (any_bytes response ∷ [], count_sent M (any_bytes response) s)

  -- What the broker does with one packet of a client.
  abbrev pub respond :
      ℕ → Bytes → Option Bytes → MqttPacket → BrokerState M → List Bytes × BrokerState M
  respond now client username packet s =
      let (answer, t) =
        process_packet M now packet client (unwrap_or username (codes "anonymous"))
          (count M increment_packets_received s) in
      reply answer t

  write_answer-reply :
      (i : Input) (next : Phase) (answer : Option MqttPacket) (s : BrokerState M)
      → i.writes ≡ true
      → write_answer M i next answer s ≡ (next, (reply answer s).0, (reply answer s).1)
  unfolding write_answer
  write_answer-reply i next none s writes = refl
  write_answer-reply i next (some response) s writes =
      let sent =
        send_packet-sent M i.writes response (any_bytes response) s (encode_any_ok response)
          writes in
      rw (sent, write_answer) (rw sent refl)

  -- One packet of MQTT 3.1.1 at the front of the buffer.
  turn-respond :
      (i : Input) (c : Conn) (p : MqttPacketV3) (more : Bytes) (s : BrokerState M)
      → c.version ≡ Common.v311
      → c.buf ≡ Encode3.packet_bytes p ++ more
      → Packets3.PacketFits p
      → length (Encode3.packet_bytes p) ≤ max_packet_size
      → i.writes ≡ true
      → let r = respond i.now c.client_id c.username (v311 p) s in
        turn M i c s ≡ (serving (record c { buf = more }), r.0, r.1)
  unfolding turn serve
  turn-respond i c p more s version front fits small writes =
      let bytes : Bytes = Encode3.packet_bytes p in
      let size : ℕ = length bytes in
      let read : decode_packet_by_version c.buf c.version ≡ ok (some (v311 p, size)) =
        ap₂ decode_packet_by_version front version
        ∙ by_version_v311 (bytes ++ more)
        ∙ (unfold sized in rw (Packets3.packet-Reads p more fits small) refl) in
      let left : drop size c.buf ≡ more = ap (drop size) front ∙ drop-append bytes more in
      let (answer, t) =
        process_packet M i.now (v311 p) c.client_id (unwrap_or c.username (codes "anonymous"))
          (count M increment_packets_received s) in
      rw (read, turn)
        (write_answer-reply i (serving (record c { buf = drop size c.buf })) answer t writes
          ∙ ap
              (λ (b : Bytes).
                (serving (record c { buf = b }), (reply answer t).0, (reply answer t).1))
              left)

  -- The answers to packets one after another, each with the input of its step.
  abbrev pub respond_all :
      List (Input × MqttPacketV3)
      → Bytes
      → Option Bytes
      → BrokerState M
      → List Bytes × BrokerState M
  respond_all [] client username s = ([], s)
  respond_all ((i, p) ∷ jobs) client username s =
      let (written, s') = respond i.now client username (v311 p) s in
      let (more, t) = respond_all jobs client username s' in (written ++ more, t)

  -- Steps one after another, each with its input.
  unfoldable pub run : List Input → Phase → BrokerState M → Result M
  run [] phase s = (phase, [], s)
  run (i ∷ is) phase s =
      let (phase', written, s') = step M i phase s in
      let (last, more, t) = run is phase' s' in (last, written ++ more, t)

  -- A connection of MQTT 3.1.1 whose buffer holds packets one behind another gets through all of
  -- them, those behind a DISCONNECT too, in a step each: it answers them in order, the broker's state
  -- is what processing them in order makes of it, and in the end the buffer is empty and the
  -- connection served on. Their fields fit, each has at most 10 MB,
  -- and the writes succeed.
  pub run_served :
      (jobs : List (Input × MqttPacketV3)) (c : Conn) (s : BrokerState M)
      → c.version ≡ Common.v311
      → c.buf ≡ stream (map (λ j. j.1) jobs)
      → All JobFits jobs
      → let answers = respond_all jobs c.client_id c.username s in
        run (map (λ j. j.0) jobs) (serving c) s
        ≡ (serving (record c { buf = [] }), answers.0, answers.1)
  unfolding run step
  run_served [] c s version front fits =
      ap (λ (b : Bytes). (serving (record c { buf = b }), [], s)) front
  run_served ((i, p) ∷ jobs) c s version front fits =
      let later : Bytes = stream (map (λ (j : Input × MqttPacketV3). j.1) jobs) in
      let is : List Input = map (λ (j : Input × MqttPacketV3). j.0) jobs in
      let (written, s') = respond i.now c.client_id c.username (v311 p) s in
      let h : JobFits (i, p) = fits.0 in
      ap (λ (r : Result M). let (last, more, t) = run is r.0 r.2 in (last, r.1 ++ more, t))
        (turn-respond i c p later s version front h.packet h.small h.writes)
      ∙ ap (λ (q : Result M). (q.0, written ++ q.1, q.2))
          (run_served jobs (record c { buf = later }) s' version refl fits.1)
