-- ===== src/V3/RoundTrip/Bodies.antt =====
-- The variable header and payload of each packet of mqtt-core/src/v3 read back.
use atom_mqtt.Prelude.{
  ℕ, ◌≡◌, Bool, true, false, Option, none, some, [], ◌∷◌, ◌++◌, map, length, All, Bytes, IsU16,
  MqttResult, ok, arith,
}
use atom_mqtt.Common.{Qos, at_most_once, at_least_once, exactly_once}
use atom_mqtt.Common.Strings.{to_be16}
use atom_mqtt.V3.Types.{
  ConnAckPacket, connect_return_code_to_u8, connect_return_code_from-to, PublishPacket, AckPacket,
  SubscribePacket, SubAckPacket, suback_return_code_to_u8, UnsubscribePacket,
}
use atom_mqtt.V3.Encode.{publish_header, publish_remaining, filter_bytes}
use atom_mqtt.Wire.Write.{string_bytes}
use atom_mqtt.Wire.Read.{has_flag}
use atom_mqtt.Wire.Fields.{Fits, read-encode_string, be16_to_be16, read_strings-string_bytes}
use atom_mqtt.V3.Decode.{
  decode_connack, decode_publish, decode_ack, decode_subscribe, decode_suback, decode_unsubscribe,
}
use atom_mqtt.V3.RoundTrip.Fields.{FilterFits, read_filters-filter_bytes, known_codes-map}

-- A packet identifier stands in a PUBLISH exactly when its QoS is above 0.
abbrev pub IdFits : Qos → Option ℕ → Type 0
IdFits at_most_once none = Unit
IdFits at_most_once (some pid) = ⊥
IdFits at_least_once none = ⊥
IdFits at_least_once (some pid) = IsU16 pid
IdFits exactly_once none = ⊥
IdFits exactly_once (some pid) = IsU16 pid

pub record PublishFits (p : PublishPacket) : Type 0 where
  pub topic : Fits p.topic
  pub id : IdFits p.qos p.packet_id

publish_fields :
    (topic payload : Bytes) (qos : Qos) (retain : Bool) (id : Option ℕ)
    → Fits topic
    → IdFits qos id
    → let p : PublishPacket = record {
      topic = topic;
      payload = payload;
      qos = qos;
      retain = retain;
      packet_id = id;
    } in
      decode_publish (publish_remaining p) (publish_header p) ≡ ok p
unfolding decode_publish publish_remaining publish_header
publish_fields topic payload at_most_once true none ht hi = rw (read-encode_string topic payload ht)
publish_fields topic payload at_most_once false none ht hi =
    rw (read-encode_string topic payload ht)
publish_fields topic payload at_least_once true (some pid) ht hi =
    rw (read-encode_string topic (to_be16 pid ++ payload) ht) (rw (be16_to_be16 pid hi))
publish_fields topic payload at_least_once false (some pid) ht hi =
    rw (read-encode_string topic (to_be16 pid ++ payload) ht) (rw (be16_to_be16 pid hi))
publish_fields topic payload exactly_once true (some pid) ht hi =
    rw (read-encode_string topic (to_be16 pid ++ payload) ht) (rw (be16_to_be16 pid hi))
publish_fields topic payload exactly_once false (some pid) ht hi =
    rw (read-encode_string topic (to_be16 pid ++ payload) ht) (rw (be16_to_be16 pid hi))
publish_fields topic payload at_most_once retain (some pid) ht hi = absurd hi
publish_fields topic payload at_least_once retain none ht hi = absurd hi
publish_fields topic payload exactly_once retain none ht hi = absurd hi

pub decode_publish_lem :
    (p : PublishPacket)
    → PublishFits p
    → decode_publish (publish_remaining p) (publish_header p) ≡ ok p
decode_publish_lem p h = publish_fields p.topic p.payload p.qos p.retain p.packet_id h.topic h.id

pub decode_connack_lem :
    (p : ConnAckPacket) (flag : ℕ)
    → has_flag flag 1 ≡ p.session_present
    → decode_connack (flag ∷ connect_return_code_to_u8 p.return_code ∷ []) ≡ ok p
unfolding decode_connack
decode_connack_lem p flag h = rw (connect_return_code_from-to p.return_code) (rw h)

pub decode_ack_lem :
    (short : MqttResult AckPacket) (p : AckPacket)
    → IsU16 p.packet_id
    → decode_ack short (to_be16 p.packet_id) ≡ ok p
unfolding decode_ack
decode_ack_lem short p h = rw (be16_to_be16 p.packet_id h)

pub decode_subscribe_lem :
    (p : SubscribePacket)
    → IsU16 p.packet_id
    → All FilterFits p.filters
    → decode_subscribe (to_be16 p.packet_id ++ filter_bytes p.filters) ≡ ok p
unfolding decode_subscribe
decode_subscribe_lem p h hs =
    rw (be16_to_be16 p.packet_id h)
      (rw (read_filters-filter_bytes p.filters (length (filter_bytes p.filters)) hs (omega arith)))

pub decode_suback_lem :
    (p : SubAckPacket)
    → IsU16 p.packet_id
    → decode_suback (to_be16 p.packet_id ++ map suback_return_code_to_u8 p.return_codes) ≡ ok p
unfolding decode_suback
decode_suback_lem p h = rw (be16_to_be16 p.packet_id h) (rw (known_codes-map p.return_codes))

pub decode_unsubscribe_lem :
    (p : UnsubscribePacket)
    → IsU16 p.packet_id
    → All Fits p.filters
    → decode_unsubscribe (to_be16 p.packet_id ++ string_bytes p.filters) ≡ ok p
unfolding decode_unsubscribe
decode_unsubscribe_lem p h hs =
    rw (be16_to_be16 p.packet_id h)
      (rw (read_strings-string_bytes p.filters (length (string_bytes p.filters)) hs (omega arith)))
