-- ===== src/Codec/RoundTrip.antt =====
-- What `MqttFramedCodec` of mqtt-core/src/codec.rs writes and then reads.
use atom_mqtt.Prelude.{
  ℕ, suc, ◌+◌, ◌≤◌, ◌<◌, ◌≡◌, refl, sym, subst, true, false, Option, some, [], ◌∷◌, ◌++◌,
  append-nil, length, length-append, drop, take-append, drop-append, Bytes, MqttResult, ok, le→ltb,
  arith,
}
use atom_mqtt.Common.{PacketType, packet_type_from_u8}
use atom_mqtt.Common
use atom_mqtt.Common.Length.{encode_remaining_length, decode_remaining_length}
use atom_mqtt.Common.Length.RoundTrip.{decode-encode_remaining_length}
use atom_mqtt.Wire.Write.{frame}
use atom_mqtt.Common.Length.Decode.{decode_remaining_length-append}
use atom_mqtt.Wire.Frame
use atom_mqtt.Wire.Frame.{max_packet_size}
use atom_mqtt.Wire.Stream.{decode_packet_steps, frame_parts}
use atom_mqtt.V3.Types as Types3
use atom_mqtt.V3.Encode as Encode3
use atom_mqtt.V3.Decode as Decode3
use atom_mqtt.V3.RoundTrip.Packets as Packets3
use atom_mqtt.V5.Types as Types5
use atom_mqtt.V5.Encode as Encode5
use atom_mqtt.V5.Decode as Decode5
use atom_mqtt.V5.RoundTrip.Packets as Packets5
use atom_mqtt.Codec.{
  MqttPacket, v311, v5, is_connect, accepted, first_accepted, whole_connect, connect_at,
  packet_type_v3, protocol_level_of, detect_connect, decode, encode_any, encode_framed, take_frame,
  decode_framed,
}

-- A whole packet that the codec detects from its own bytes alone leaves what follows it.
module _ {P : Type 0} (body : PacketType → ℕ → Bytes → MqttResult P) where
  take_whole :
      (max : ℕ) (bytes more : Bytes) (r : MqttResult (Option MqttPacket))
      → length bytes ≤ max
      → decode max bytes ≡ r
      → take_frame max (bytes ++ more) (length bytes) ≡ (r, more)
  unfolding take_frame
  take_whole max bytes more r small e =
      rw (le→ltb (length (bytes ++ more)) (length bytes) (omega (arith, length-append bytes more)))
        (rw (le→ltb max (length bytes) small)
          (rw (take-append bytes more, drop-append bytes more) (rw e refl)))

  no_length : (n len : ℕ) → decode_remaining_length [] ≡ ok (n, len) → ⊥
  unfolding decode_remaining_length
  no_length n len h = cc

  framed_whole :
      (max : ℕ) (bytes more : Bytes) (p : P) (r : MqttResult (Option MqttPacket))
      → length bytes ≤ max
      → Frame.decode_packet body bytes ≡ ok (some (p, length bytes))
      → decode max bytes ≡ r
      → decode_framed max (bytes ++ more) ≡ (r, more)
  unfolding decode_framed
  framed_whole max [] more p r small read e = unfold Frame.decode_packet in cc
  framed_whole max (header ∷ []) more p r small read e =
      let d = decode_packet_steps body header [] p 1 read in
      absurd (no_length d.remaining d.code d.counted)
  framed_whole max (header ∷ b ∷ tail) more p r small read e =
      let size : ℕ = suc (suc (length tail)) in
      let d = decode_packet_steps body header (b ∷ tail) p size read in
      let (whole, _, _, _) =
        frame_parts body d.type header (b ∷ tail) d.remaining d.code p size d.framed in
      rw (le→ltb (suc (length ((b ∷ tail) ++ more))) 2 (omega arith)) (
        rw (decode_remaining_length-append (b ∷ tail) more d.remaining d.code d.counted)
          (rw (sym whole) (take_whole max (header ∷ b ∷ tail) more r small e)))

-- A packet that is not a CONNECT has no CONNECT's type.
is_connect_lem : (t : PacketType) → is_connect t ≡ true → t ≡ Common.connect
unfolding is_connect
is_connect_lem Common.connect e = refl
is_connect_lem _ e = cc

-- Of the packets that are not a CONNECT, those of MQTT 3.1.1 are tried first.
abbrev pub IsDetected : MqttPacket → Type 0
IsDetected (v311 p) = Unit
IsDetected (v5 (Types5.connect p)) = Unit
IsDetected (v5 _) = ⊥

decode_connect_whole :
    (max level : ℕ) (tail : Bytes) (p : MqttPacket)
    → suc (length tail) ≤ max
    → 10 ≤ suc (length tail)
    → (n : ℕ) (len : ℕ) → decode_remaining_length tail ≡ ok (n, len)
    → suc (length tail) ≡ 1 + len + n
    → protocol_level_of (drop len tail) ≡ ok level
    → connect_at level (16 ∷ tail) ≡ ok (some p)
    → decode max (16 ∷ tail) ≡ ok (some p)
unfolding decode detect_connect is_connect packet_type_from_u8
decode_connect_whole max level tail p small long n len counted whole at_level found =
    rw (le→ltb (suc (length tail)) 10 long) (
      rw counted (
        rw (le→ltb (suc (length tail)) (1 + len) (omega arith)) (
          rw (sym whole) (
            rw (le→ltb (suc (length tail)) (suc (length tail)) (omega arith))
              (rw (le→ltb max (suc (length tail)) small) (rw at_level (rw found refl)))))))

decode_other :
    (max header : ℕ) (tail : Bytes) (t : PacketType) (p : Types3.MqttPacketV3) (size : ℕ)
    → packet_type_from_u8 header ≡ some t
    → is_connect t ≡ false
    → Decode3.decode_packet (header ∷ tail) ≡ ok (some (p, size))
    → decode max (header ∷ tail) ≡ ok (some (v311 p))
unfolding decode accepted first_accepted
decode_other max header tail t p size typed other read = rw typed (rw other (rw read refl))

connect_frame :
    (max level : ℕ) (remaining : Bytes) (p : MqttPacket)
    → length (frame 16 remaining) ≤ max
    → length (frame 16 remaining) ≤ max_packet_size
    → 9 ≤ length remaining
    → protocol_level_of remaining ≡ ok level
    → connect_at level (frame 16 remaining) ≡ ok (some p)
    → decode max (frame 16 remaining) ≡ ok (some p)
connect_frame max level remaining p small fits long at_level found =
    let n : ℕ = length remaining in
    let code : Bytes = encode_remaining_length n in
    let both = length-append code remaining in
    let less : n < 268435456 = omega (arith, both) in
    decode_connect_whole max level (code ++ remaining) p small (omega (arith, both)) n (length code)
      (decode-encode_remaining_length n remaining less) (omega (arith, both))
      (rw (drop-append code remaining) at_level) found

-- The first byte of an encoded packet says which it is.
record Headed (p : Types3.MqttPacketV3) : Type 0 where
  header : ℕ
  tail : Bytes
  shape : Encode3.packet_bytes p ≡ header ∷ tail
  typed : packet_type_from_u8 header ≡ some (packet_type_v3 p)

packet_bytes-Headed : (p : Types3.MqttPacketV3) → Headed p
unfolding packet_type_from_u8 packet_type_v3 Encode3.packet_bytes
packet_bytes-Headed (Types3.publish p) = record {
  header = _;
  tail = _;
  shape = refl;
  typed = Packets3.publish_typed p;
}
packet_bytes-Headed _ = record { header = _; tail = _; shape = refl; typed = refl }

decode_v3_other :
    (max : ℕ) (p : Types3.MqttPacketV3)
    → is_connect (packet_type_v3 p) ≡ false
    → Decode3.decode_packet (Encode3.packet_bytes p)
      ≡ ok (some (p, length (Encode3.packet_bytes p)))
    → decode max (Encode3.packet_bytes p) ≡ ok (some (v311 p))
decode_v3_other max p other read =
    let s = packet_bytes-Headed p in
    rw (s.shape) (
      decode_other max s.header s.tail (packet_type_v3 p) p (suc (length s.tail)) s.typed other
        (rw (s.shape) at read))

connect_v3 :
    (max : ℕ) (c : Types3.ConnectPacket)
    → let p : Types3.MqttPacketV3 = Types3.connect c in
      length (Encode3.packet_bytes p) ≤ max
      → length (Encode3.packet_bytes p) ≤ max_packet_size
      → Decode3.decode_packet (Encode3.packet_bytes p)
        ≡ ok (some (p, length (Encode3.packet_bytes p)))
      → decode max (Encode3.packet_bytes p) ≡ ok (some (v311 p))
unfolding Encode3.packet_bytes connect_at whole_connect protocol_level_of Encode3.connect_remaining
connect_v3 max c small enough read =
    connect_frame max 4 (Encode3.connect_remaining c) (v311 (Types3.connect c)) small enough
      (omega arith) refl (rw read refl)

connect_v5 :
    (max : ℕ) (c : Types5.ConnectPacket)
    → let p : Types5.MqttPacketV5 = Types5.connect c in
      length (Encode5.packet_bytes p) ≤ max
      → length (Encode5.packet_bytes p) ≤ max_packet_size
      → Decode5.decode_packet (Encode5.packet_bytes p)
        ≡ ok (some (p, length (Encode5.packet_bytes p)))
      → decode max (Encode5.packet_bytes p) ≡ ok (some (v5 p))
unfolding Encode5.packet_bytes connect_at whole_connect protocol_level_of Encode5.connect_remaining
connect_v5 max c small enough read =
    connect_frame max 5 (Encode5.connect_remaining c) (v5 (Types5.connect c)) small enough
      (omega arith) refl (rw read refl)

decode_v3 :
    (max : ℕ) (p : Types3.MqttPacketV3)
    → length (Encode3.packet_bytes p) ≤ max
    → length (Encode3.packet_bytes p) ≤ max_packet_size
    → Decode3.decode_packet (Encode3.packet_bytes p)
      ≡ ok (some (p, length (Encode3.packet_bytes p)))
    → decode max (Encode3.packet_bytes p) ≡ ok (some (v311 p))
unfolding packet_type_v3 is_connect
decode_v3 max (Types3.connect p) small enough read = connect_v3 max p small enough read
decode_v3 max p small enough read = decode_v3_other max p refl read

-- The fields fit their places on the wire.
abbrev pub PacketFits : MqttPacket → Type 0
PacketFits (v311 p) = Packets3.PacketFits p
PacketFits (v5 p) = Packets5.PacketFits p

-- Reading back the encoding of a packet, with what follows it.
abbrev Whole : ℕ → MqttPacket → Bytes → Bytes → Type 0
Whole max p more bytes =
    length bytes ≤ max
    → length bytes ≤ max_packet_size
    → decode_framed max (bytes ++ more) ≡ (ok (some p), more)

reads_v3 :
    (max : ℕ) (p : Types3.MqttPacketV3) (more : Bytes)
    → Packets3.PacketFits p
    → Whole max (v311 p) more (Encode3.packet_bytes p)
reads_v3 max p more fits small enough =
    let bytes : Bytes = Encode3.packet_bytes p in
    let read = rw append-nil at (Packets3.packet-Reads p [] fits enough) in
    framed_whole Decode3.decode_body max bytes more p _ small read
      (decode_v3 max p small enough read)

reads_v5 :
    (max : ℕ) (c : Types5.ConnectPacket) (more : Bytes)
    → Packets5.PacketFits (Types5.connect c)
    → Whole max (v5 (Types5.connect c)) more (Encode5.packet_bytes (Types5.connect c))
reads_v5 max c more fits small enough =
    let p : Types5.MqttPacketV5 = Types5.connect c in
    let bytes : Bytes = Encode5.packet_bytes p in
    let read = rw append-nil at (Packets5.packet-Reads p [] fits enough) in
    framed_whole Decode5.decode_body max bytes more p _ small read
      (connect_v5 max c small enough read)

-- A packet of MQTT 3.1.1, or a CONNECT of MQTT 5, that the framed codec writes into an empty buffer
-- is read back as one of its version, and what follows it stays in the buffer. The packet's fields
-- fit their places on the wire, and it is within the codec's limit and 10 MB.
pub decode-encode_framed :
    (max : ℕ) (p : MqttPacket) (bytes more : Bytes)
    → IsDetected p
    → PacketFits p
    → encode_framed p [] ≡ ok bytes
    → length bytes ≤ max
    → length bytes ≤ max_packet_size
    → decode_framed max (bytes ++ more) ≡ (ok (some p), more)
unfolding encode_framed encode_any Encode3.encode_packet Encode5.encode_packet
decode-encode_framed max (v311 p) bytes more seen fits e small enough =
    let same : Encode3.packet_bytes p ≡ bytes = cc in
    subst (Whole max (v311 p) more) same (reads_v3 max p more fits) small enough
decode-encode_framed max (v5 (Types5.connect c)) bytes more seen fits e small enough =
    let same : Encode5.packet_bytes (Types5.connect c) ≡ bytes = cc in
    subst (Whole max (v5 (Types5.connect c)) more) same (reads_v5 max c more fits) small enough
decode-encode_framed max (v5 p) bytes more seen fits e small enough = absurd seen
