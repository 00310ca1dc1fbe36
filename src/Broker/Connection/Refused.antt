-- ===== src/Broker/Connection/Refused.antt =====
-- What mqtt-broker/src/server.rs answers a client that does not authenticate.
use atom_mqtt.Prelude.{◌≤◌, ◌≡◌, refl, true, ◌∷◌, ◌++◌, length, Bytes, ok, []}
use atom_mqtt.Wire.Frame.{max_packet_size}
use atom_mqtt.V3.Types as Types3
use atom_mqtt.V3.Encode as Encode3
use atom_mqtt.V3.RoundTrip.Connect as Connect3
use atom_mqtt.V5.Types as Types5
use atom_mqtt.V5.Reasons as Reasons
use atom_mqtt.V5.Encode as Encode5
use atom_mqtt.V5.Properties.{encode_properties, inner_bytes}
use atom_mqtt.V5.RoundTrip.Connect as Connect5
use atom_mqtt.Common.Length.{encode_remaining_length}
use atom_mqtt.Common
use atom_mqtt.Codec.{v311, v5, encode_any}
use atom_mqtt.Broker.Request.{request_of, connack_of, to_v3_return_code, to_v5_reason_code}
use atom_mqtt.Broker.Store.{DashMap}
use atom_mqtt.Broker.Auth.{
  AuthErrorKind, bad_username_or_password, anonymous_disallowed, not_authorized, denied,
  authenticate,
}
use atom_mqtt.Broker.State.{BrokerState}
use atom_mqtt.Broker.Connection.{Input, finished, count_sent, first_bytes}
use atom_mqtt.Broker.Connection.First.{first_bytes-refused}
use atom_mqtt.Broker.Connection.Accepted.{request_v5, request_v3, first_v5, first_v3}

-- The CONNACK of MQTT 3.1.1 byte by byte: code 4 for a bad name or password, 5 for a client that is
-- not authorized.
abbrev pub refusal_v3 : AuthErrorKind → Bytes
refusal_v3 bad_username_or_password = 0x20 ∷ 2 ∷ 0 ∷ 4 ∷ []
refusal_v3 anonymous_disallowed = 0x20 ∷ 2 ∷ 0 ∷ 5 ∷ []
refusal_v3 not_authorized = 0x20 ∷ 2 ∷ 0 ∷ 5 ∷ []

-- The CONNACK of MQTT 5: reason 0x86 or 0x87, and no properties.
abbrev pub refusal_v5 : AuthErrorKind → Bytes
refusal_v5 bad_username_or_password = 0x20 ∷ 3 ∷ 0 ∷ 0x86 ∷ 0 ∷ []
refusal_v5 anonymous_disallowed = 0x20 ∷ 3 ∷ 0 ∷ 0x87 ∷ 0 ∷ []
refusal_v5 not_authorized = 0x20 ∷ 3 ∷ 0 ∷ 0x87 ∷ 0 ∷ []

refusal_v3_encoded :
    (reason : AuthErrorKind)
    → encode_any (connack_of Common.v311 (to_v3_return_code reason) (to_v5_reason_code reason))
      ≡ ok (refusal_v3 reason)
unfolding encode_any Encode3.encode_packet Encode3.packet_bytes connack_of to_v3_return_code
    Types3.connect_return_code_to_u8
refusal_v3_encoded bad_username_or_password = refl
refusal_v3_encoded anonymous_disallowed = refl
refusal_v3_encoded not_authorized = refl

refusal_v5_encoded :
    (reason : AuthErrorKind)
    → encode_any (connack_of Common.v5 (to_v3_return_code reason) (to_v5_reason_code reason))
      ≡ ok (refusal_v5 reason)
unfolding encode_any Encode5.encode_packet Encode5.packet_bytes connack_of to_v5_reason_code
    Reasons.reason_code_to_u8 encode_properties inner_bytes encode_remaining_length
refusal_v5_encoded bad_username_or_password = refl
refusal_v5_encoded anonymous_disallowed = refl
refusal_v5_encoded not_authorized = refl

module _ (M : DashMap) where
  -- A client of MQTT 3.1.1 that does not authenticate is sent the four bytes of a CONNACK with code 4
  -- for a bad name or password and 5 else; the connection ends, and but for the counters of what was
  -- sent the broker's state is what it was. The first read holds the CONNECT, whose fields fit and
  -- which has at most 10 MB, and the write succeeds.
  pub connect_v3-refused :
      (i : Input) (c : Types3.ConnectPacket) (more : Bytes) (reason : AuthErrorKind)
      (s : BrokerState M)
      → Connect3.ConnectFits c
      → length (Encode3.packet_bytes (Types3.connect c)) ≤ max_packet_size
      → authenticate s.authenticator s.allow_anonymous c.username c.password ≡ denied reason
      → i.writes ≡ true
      → first_bytes M i (Encode3.packet_bytes (Types3.connect c) ++ more) s
        ≡ (finished, refusal_v3 reason ∷ [], count_sent M (refusal_v3 reason) s)
  unfolding request_of
  connect_v3-refused i c more reason s fits small unknown writes =
      first_bytes-refused M i (Encode3.packet_bytes (Types3.connect c) ++ more) s
        (v311 (Types3.connect c)) (request_v3 M i.now c) reason (refusal_v3 reason)
        (first_v3 M c more fits small) refl unknown (refusal_v3_encoded reason) writes

  -- A client of MQTT 5 that does not authenticate is sent the five bytes of a CONNACK with reason
  -- 0x86 for a bad name or password and 0x87 else, with the same outcome and under the same
  -- conditions.
  pub connect_v5-refused :
      (i : Input) (c : Types5.ConnectPacket) (more : Bytes) (reason : AuthErrorKind)
      (s : BrokerState M)
      → Connect5.ConnectFits c
      → length (Encode5.packet_bytes (Types5.connect c)) ≤ max_packet_size
      → authenticate s.authenticator s.allow_anonymous c.username c.password ≡ denied reason
      → i.writes ≡ true
      → first_bytes M i (Encode5.packet_bytes (Types5.connect c) ++ more) s
        ≡ (finished, refusal_v5 reason ∷ [], count_sent M (refusal_v5 reason) s)
  unfolding request_of
  connect_v5-refused i c more reason s fits small unknown writes =
      first_bytes-refused M i (Encode5.packet_bytes (Types5.connect c) ++ more) s
        (v5 (Types5.connect c)) (request_v5 M i.now c) reason (refusal_v5 reason)
        (first_v5 M c more fits small) refl unknown (refusal_v5_encoded reason) writes
