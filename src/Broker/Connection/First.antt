-- ===== src/Broker/Connection/First.antt =====
-- What the first packet of a connection does in mqtt-broker/src/server.rs.
use atom_mqtt.Prelude.{
  ℕ, suc, ◌+◌, ◌≤◌, ◌<◌, ◌≡◌, refl, Bool, true, some, ◌∷◌, ◌++◌, append_assoc, length,
  length-append, drop-append, le→ltb, Bytes, ok, arith, [],
}
use atom_mqtt.Common.Length.{encode_remaining_length}
use atom_mqtt.Common.Length.RoundTrip.{
  decode-encode_remaining_length, length-encode_remaining_length,
}
use atom_mqtt.Wire.Write.{frame}
use atom_mqtt.Wire.Frame.{max_packet_size}
use atom_mqtt.Codec.{MqttPacket, encode_any}
use atom_mqtt.Broker.Request.{
  Request, request_of, decode_first_packet, first_level, first_at, connack_of, to_v3_return_code,
  to_v5_reason_code,
}
use atom_mqtt.Broker.Store.{DashMap}
use atom_mqtt.Broker.Auth.{AuthErrorKind, denied, authenticate}
use atom_mqtt.Broker.State.{BrokerState}
use atom_mqtt.Broker.Connection.{
  Input, finished, count_sent, send_packet, refuse, connect_with, first_bytes,
}

-- The first packet is decoded by the version that its seventh byte after the header gives.
pub decode_first_packet-frame :
    (level : ℕ) (remaining more : Bytes)
    → length (frame 16 remaining) ≤ max_packet_size
    → first_level (remaining ++ more) ≡ ok level
    → decode_first_packet (frame 16 remaining ++ more) ≡ first_at level (frame 16 remaining ++ more)
unfolding decode_first_packet
decode_first_packet-frame level remaining more small at_level =
    let n : ℕ = length remaining in
    let code : Bytes = encode_remaining_length n in
    let both = length-append code remaining in
    let less : n < 268435456 = omega (arith, both) in
    let (low, _) = length-encode_remaining_length n less in
    let stream : Bytes = code ++ (remaining ++ more) in
    let long : 1 + length code + n ≤ suc (length stream) =
      omega (arith, length-append code (remaining ++ more), length-append remaining more) in
    rw (append_assoc code remaining more) (
      rw (le→ltb (suc (length stream)) 2 (omega (arith, length-append code (remaining ++ more)))) (
        rw (decode-encode_remaining_length n (remaining ++ more) less) (
          rw (le→ltb (suc (length stream)) (1 + length code + n) long)
            (rw (drop-append code (remaining ++ more)) (rw at_level refl)))))

module _ (M : DashMap) where
  pub send_packet-sent :
      (writes : Bool) (packet : MqttPacket) (bytes : Bytes) (s : BrokerState M)
      → encode_any packet ≡ ok bytes
      → writes ≡ true
      → send_packet M writes packet s ≡ (some bytes, count_sent M bytes s)
  unfolding send_packet
  send_packet-sent writes packet bytes s encoded written =
      rw (encoded, send_packet) (rw written refl)

  -- A client that does not authenticate is sent a CONNACK of its version with the code for the
  -- reason, and the connection ends; but for the two counters of what was sent, the broker's state
  -- is what it was. The first read holds the CONNECT, and the write succeeds.
  pub first_bytes-refused :
      (i : Input) (buf : Bytes) (s : BrokerState M) (packet : MqttPacket) (r : Request)
      (reason : AuthErrorKind) (connack : Bytes)
      → decode_first_packet buf ≡ ok (some packet)
      → request_of i.now packet ≡ some r
      → authenticate s.authenticator s.allow_anonymous r.username r.password ≡ denied reason
      → encode_any (connack_of r.version (to_v3_return_code reason) (to_v5_reason_code reason))
        ≡ ok connack
      → i.writes ≡ true
      → first_bytes M i buf s ≡ (finished, connack ∷ [], count_sent M connack s)
  unfolding first_bytes connect_with
  first_bytes-refused i buf s packet r reason connack read asked refused encoded writes =
      let sent = send_packet-sent i.writes _ connack s encoded writes in
      rw (read, first_bytes)
        (rw asked (rw (refused, connect_with) (rw (sent, refuse) (rw sent refl))))
