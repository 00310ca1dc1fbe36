-- ===== src/V3/RoundTrip/Connect.antt =====
-- A CONNECT of mqtt-core/src/v3 read back.
use atom_mqtt.Prelude.{
  ℕ, ◌%◌, ◌≡◌, refl, Option, none, some, [], ◌∷◌, ◌++◌, append-nil, append_assoc, length, Bytes,
  IsU16, ok, arith, codes,
}
use atom_mqtt.Common.Utf8.{is_utf8}
use atom_mqtt.Common.Strings.{encode_string, to_be16}
use atom_mqtt.V3.Types.{Will, ConnectPacket}
use atom_mqtt.V3.Encode.{connect_flags, connect_remaining, will_bytes, will_part}
use atom_mqtt.V3.Decode.{read_message, read_will, connect_payload, decode_connect}
use atom_mqtt.Wire.Write.{is_some, optional_bytes}
use atom_mqtt.Wire.Fields.{
  Fits, OptionFits, read-encode_string, be16_to_be16, read-optional, read-binary,
}
use atom_mqtt.Wire.Flags.{ReadsFlags, will_qos, will_retain, flag_byte-ReadsFlags}

abbrev pub WillFits : Option Will → Type 0
WillFits none = Unit
WillFits (some w) = Fits w.topic × IsU16 (length w.message)

pub record ConnectFits (p : ConnectPacket) : Type 0 where
  pub client : Fits p.client_id
  pub keep : IsU16 p.keep_alive
  pub will : WillFits p.will
  pub username : OptionFits p.username
  pub password : OptionFits p.password

read-will :
    (w : Option Will) (rest : Bytes)
    → WillFits w
    → read_will
        (is_some (will_part w))
        (will_qos (will_part w))
        (will_retain (will_part w))
        (will_bytes w ++ rest)
      ≡ ok (w, rest)
unfolding read_will will_bytes read_message will_part
read-will none rest h = refl
read-will (some w) rest h =
    rw (append_assoc (encode_string w.topic) (to_be16 (length w.message % 65536) ++ w.message) rest)
      (rw
        (read-encode_string w.topic (to_be16 (length w.message % 65536) ++ (w.message ++ rest)) h.0)
        (rw (read-binary _ _ w.message rest h.1)))

pub name-Fits : Fits (codes "MQTT")
unfolding is_utf8
name-Fits = record { short = omega arith; valid = refl }

abbrev pub payload_bytes : ConnectPacket → Bytes
payload_bytes p =
    encode_string p.client_id
    ++ (will_bytes p.will ++ (optional_bytes p.username ++ optional_bytes p.password))

connect_payload_lem :
    (p : ConnectPacket) (flags : ℕ)
    → ConnectFits p
    → ReadsFlags flags (is_some p.username) (is_some p.password) p.clean_session (will_part p.will)
    → connect_payload flags p.keep_alive (payload_bytes p) ≡ ok p
unfolding connect_payload
connect_payload_lem p flags h r =
    let last = rw append-nil at (read-optional p.password [] h.password) in
    rw
      (read-encode_string p.client_id
        (will_bytes p.will ++ (optional_bytes p.username ++ optional_bytes p.password)) h.client)
      (rw (r.will_flag, r.qos_flag, r.retain_flag)
        (rw (read-will p.will (optional_bytes p.username ++ optional_bytes p.password) h.will) (
          rw (r.username_flag, read-optional p.username (optional_bytes p.password) h.username)
            (rw (r.password_flag, last) (rw r.clean_flag)))))

-- What follows the protocol name.
abbrev pub after_name : ConnectPacket → Bytes
after_name p = 0x04 ∷ connect_flags p ∷ (to_be16 p.keep_alive ++ payload_bytes p)

pub connect_remaining_name :
    (p : ConnectPacket) → connect_remaining p ≡ encode_string (codes "MQTT") ++ after_name p
unfolding connect_remaining encode_string
connect_remaining_name p = refl

pub decode_connect_lem :
    (p : ConnectPacket) → ConnectFits p → decode_connect (connect_remaining p) ≡ ok p
unfolding decode_connect
decode_connect_lem p h = rw (connect_remaining_name p) (
    rw (read-encode_string (codes "MQTT") (after_name p) name-Fits) (
      rw (be16_to_be16 p.keep_alive h.keep) (
        connect_payload_lem p (connect_flags p) h (
          unfold connect_flags in
          flag_byte-ReadsFlags (is_some p.username) (is_some p.password) p.clean_session
            (will_part p.will)))))
