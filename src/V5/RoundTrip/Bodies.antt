-- ===== src/V5/RoundTrip/Bodies.antt =====
-- The variable header and payload of each packet of mqtt-core/src/v5 read back.
use atom_mqtt.Prelude.{
  ℕ, ◌≡◌, refl, Bool, true, false, Option, none, some, ◌∷◌, ◌++◌, map, length, All, Bytes, IsU16,
  MqttResult, ok, arith,
}
use atom_mqtt.Common.{Qos, at_most_once, at_least_once, exactly_once}
use atom_mqtt.Common.Strings.{to_be16}
use atom_mqtt.Wire.Write.{string_bytes}
use atom_mqtt.Wire.Read.{has_flag}
use atom_mqtt.Wire.Fields.{Fits, read-encode_string, be16_to_be16, read_strings-string_bytes}
use atom_mqtt.V5.Reasons.{reason_code_to_u8, reason_code_from-to}
use atom_mqtt.V5.Properties.{Properties, encode_properties}
use atom_mqtt.V5.Properties.RoundTrip.{PropertiesFit}
use atom_mqtt.V5.Types.{
  ConnAckPacket, PublishPacket, AckPacket, SubscribePacket, CodesPacket, UnsubscribePacket,
  ReasonPacket,
}
use atom_mqtt.V5.Encode.{publish_header, publish_remaining, filter_bytes}
use atom_mqtt.V5.Decode.{
  decode_connack, decode_publish, decode_ack, decode_subscribe, decode_codes, decode_unsubscribe,
  decode_disconnect, decode_auth,
}
use atom_mqtt.V5.RoundTrip.Fields.{
  read-props, decode_all_properties, read-optional_props, FilterFits, read_filters-filter_bytes,
  known_codes-map,
}

-- A packet identifier stands in a PUBLISH exactly when its QoS is above 0.
abbrev IdFits : Qos → Option ℕ → Type 0
IdFits at_most_once none = Unit
IdFits at_most_once (some pid) = ⊥
IdFits at_least_once none = ⊥
IdFits at_least_once (some pid) = IsU16 pid
IdFits exactly_once none = ⊥
IdFits exactly_once (some pid) = IsU16 pid

pub record PublishFits (p : PublishPacket) : Type 0 where
  pub topic : Fits p.topic
  pub id : IdFits p.qos p.packet_id
  pub properties : PropertiesFit p.properties

publish_fields :
    (topic payload : Bytes) (qos : Qos) (retain : Bool) (id : Option ℕ) (props : Properties)
    → Fits topic
    → IdFits qos id
    → PropertiesFit props
    → let p : PublishPacket = record {
      topic = topic;
      payload = payload;
      qos = qos;
      retain = retain;
      packet_id = id;
      properties = props;
    } in
      decode_publish (publish_remaining p) (publish_header p) ≡ ok p
unfolding decode_publish publish_remaining publish_header
publish_fields topic payload at_most_once true none props ht hi hp =
    rw (read-encode_string topic (encode_properties props ++ payload) ht)
      (rw (read-props props payload hp) refl)
publish_fields topic payload at_most_once false none props ht hi hp =
    rw (read-encode_string topic (encode_properties props ++ payload) ht)
      (rw (read-props props payload hp) refl)
publish_fields topic payload at_least_once true (some pid) props ht hi hp =
    rw (read-encode_string topic (encode_properties props ++ (to_be16 pid ++ payload)) ht)
      (rw (read-props props (to_be16 pid ++ payload) hp) (rw (be16_to_be16 pid hi) refl))
publish_fields topic payload at_least_once false (some pid) props ht hi hp =
    rw (read-encode_string topic (encode_properties props ++ (to_be16 pid ++ payload)) ht)
      (rw (read-props props (to_be16 pid ++ payload) hp) (rw (be16_to_be16 pid hi) refl))
publish_fields topic payload exactly_once true (some pid) props ht hi hp =
    rw (read-encode_string topic (encode_properties props ++ (to_be16 pid ++ payload)) ht)
      (rw (read-props props (to_be16 pid ++ payload) hp) (rw (be16_to_be16 pid hi) refl))
publish_fields topic payload exactly_once false (some pid) props ht hi hp =
    rw (read-encode_string topic (encode_properties props ++ (to_be16 pid ++ payload)) ht)
      (rw (read-props props (to_be16 pid ++ payload) hp) (rw (be16_to_be16 pid hi) refl))
publish_fields topic payload at_most_once retain (some pid) props ht hi hp = absurd hi
publish_fields topic payload at_least_once retain none props ht hi hp = absurd hi
publish_fields topic payload exactly_once retain none props ht hi hp = absurd hi

pub decode_publish_lem :
    (p : PublishPacket)
    → PublishFits p
    → decode_publish (publish_remaining p) (publish_header p) ≡ ok p
decode_publish_lem p h =
    publish_fields p.topic p.payload p.qos p.retain p.packet_id p.properties h.topic h.id
      h.properties

pub decode_connack_lem :
    (p : ConnAckPacket) (flag : ℕ)
    → has_flag flag 1 ≡ p.session_present
    → PropertiesFit p.properties
    → decode_connack (flag ∷ reason_code_to_u8 p.reason_code ∷ encode_properties p.properties)
      ≡ ok p
unfolding decode_connack
decode_connack_lem p flag h hp =
    rw (reason_code_from-to p.reason_code) (rw (decode_all_properties p.properties hp) (rw h refl))

pub decode_ack_lem :
    (short : MqttResult AckPacket) (p : AckPacket)
    → IsU16 p.packet_id
    → PropertiesFit p.properties
    → decode_ack short
        (to_be16 p.packet_id ++ (reason_code_to_u8 p.reason_code ∷ encode_properties p.properties))
      ≡ ok p
unfolding decode_ack
decode_ack_lem short p h hp =
    rw (reason_code_from-to p.reason_code)
      (rw (read-optional_props p.properties hp) (rw (be16_to_be16 p.packet_id h) refl))

pub decode_subscribe_lem :
    (p : SubscribePacket)
    → IsU16 p.packet_id
    → All FilterFits p.filters
    → PropertiesFit p.properties
    → decode_subscribe
        (to_be16 p.packet_id ++ (encode_properties p.properties ++ filter_bytes p.filters))
      ≡ ok p
unfolding decode_subscribe
decode_subscribe_lem p h hs hp = rw (be16_to_be16 p.packet_id h) (
    rw (read-props p.properties (filter_bytes p.filters) hp) (
      rw (read_filters-filter_bytes p.filters (length (filter_bytes p.filters)) hs (omega arith))
        refl))

pub decode_codes_lem :
    (short : MqttResult (ℕ × Bytes)) (p : CodesPacket)
    → IsU16 p.packet_id
    → PropertiesFit p.properties
    → decode_codes short (
        to_be16 p.packet_id
        ++ (encode_properties p.properties ++ map reason_code_to_u8 p.reason_codes))
      ≡ ok p
unfolding decode_codes
decode_codes_lem short p h hp = rw (be16_to_be16 p.packet_id h) (
    rw (read-props p.properties (map reason_code_to_u8 p.reason_codes) hp)
      (rw (known_codes-map p.reason_codes) refl))

pub decode_unsubscribe_lem :
    (p : UnsubscribePacket)
    → IsU16 p.packet_id
    → All Fits p.filters
    → PropertiesFit p.properties
    → decode_unsubscribe
        (to_be16 p.packet_id ++ (encode_properties p.properties ++ string_bytes p.filters))
      ≡ ok p
unfolding decode_unsubscribe
decode_unsubscribe_lem p h hs hp = rw (be16_to_be16 p.packet_id h) (
    rw (read-props p.properties (string_bytes p.filters) hp) (
      rw (read_strings-string_bytes p.filters (length (string_bytes p.filters)) hs (omega arith))
        refl))

pub decode_disconnect_lem :
    (p : ReasonPacket)
    → PropertiesFit p.properties
    → decode_disconnect (reason_code_to_u8 p.reason_code ∷ encode_properties p.properties) ≡ ok p
unfolding decode_disconnect
decode_disconnect_lem p hp =
    rw (reason_code_from-to p.reason_code) (rw (read-optional_props p.properties hp) refl)

pub decode_auth_lem :
    (p : ReasonPacket)
    → PropertiesFit p.properties
    → decode_auth (reason_code_to_u8 p.reason_code ∷ encode_properties p.properties) ≡ ok p
unfolding decode_auth
decode_auth_lem p hp =
    rw (reason_code_from-to p.reason_code) (rw (decode_all_properties p.properties hp) refl)
