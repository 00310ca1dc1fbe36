-- ===== src/V3/Types.antt =====
-- mqtt-core/src/v3/types.rs. A `PacketId` is a `u16`.
use atom_mqtt.Prelude.{ℕ, ◌≡◌, refl, Bool, Option, none, some, List, ◌==◌, if◌then◌else◌, Bytes}
use atom_mqtt.Common.{Qos}

pub record Will : Type 0 where
  pub topic : Bytes
  pub message : Bytes
  pub qos : Qos
  pub retain : Bool

pub record ConnectPacket : Type 0 where
  pub client_id : Bytes
  pub clean_session : Bool
  pub keep_alive : ℕ
  pub will : Option Will
  pub username : Option Bytes
  pub password : Option Bytes

pub data ConnectReturnCode : Type 0 where
  accepted unacceptable_protocol_version identifier_rejected : ConnectReturnCode
  server_unavailable bad_username_or_password not_authorized : ConnectReturnCode

unfoldable pub connect_return_code_from_u8 : ℕ → Option ConnectReturnCode
connect_return_code_from_u8 v =
    if v == 0
    then some accepted
    else if v == 1
    then some unacceptable_protocol_version
    else if v == 2
    then some identifier_rejected
    else if v == 3
    then some server_unavailable
    else if v == 4
    then some bad_username_or_password
    else if v == 5
    then some not_authorized
    else none

unfoldable pub connect_return_code_to_u8 : ConnectReturnCode → ℕ
connect_return_code_to_u8 accepted = 0
connect_return_code_to_u8 unacceptable_protocol_version = 1
connect_return_code_to_u8 identifier_rejected = 2
connect_return_code_to_u8 server_unavailable = 3
connect_return_code_to_u8 bad_username_or_password = 4
connect_return_code_to_u8 not_authorized = 5

pub record ConnAckPacket : Type 0 where
  pub session_present : Bool
  pub return_code : ConnectReturnCode

pub record PublishPacket : Type 0 where
  pub topic : Bytes
  pub payload : Bytes
  pub qos : Qos
  pub retain : Bool
  pub packet_id : Option ℕ

-- `PubAckPacket`, `PubRecPacket`, `PubRelPacket`, `PubCompPacket` and `UnsubAckPacket`, which hold
-- the same one field.
pub record AckPacket : Type 0 where
  pub packet_id : ℕ

pub record SubscribeFilter : Type 0 where
  pub path : Bytes
  pub qos : Qos

pub record SubscribePacket : Type 0 where
  pub packet_id : ℕ
  pub filters : List SubscribeFilter

pub data SubAckReturnCode : Type 0 where
  success_qos0 success_qos1 success_qos2 failure : SubAckReturnCode

unfoldable pub suback_return_code_from_u8 : ℕ → Option SubAckReturnCode
suback_return_code_from_u8 v =
    if v == 0
    then some success_qos0
    else if v == 1
    then some success_qos1
    else if v == 2
    then some success_qos2
    else if v == 0x80
    then some failure
    else none

-- `*rc as u8`
unfoldable pub suback_return_code_to_u8 : SubAckReturnCode → ℕ
suback_return_code_to_u8 success_qos0 = 0
suback_return_code_to_u8 success_qos1 = 1
suback_return_code_to_u8 success_qos2 = 2
suback_return_code_to_u8 failure = 0x80

pub record SubAckPacket : Type 0 where
  pub packet_id : ℕ
  pub return_codes : List SubAckReturnCode

pub record UnsubscribePacket : Type 0 where
  pub packet_id : ℕ
  pub filters : List Bytes

pub data MqttPacketV3 : Type 0 where
  connect : ConnectPacket → MqttPacketV3
  connack : ConnAckPacket → MqttPacketV3
  publish : PublishPacket → MqttPacketV3
  puback pubrec pubrel pubcomp : AckPacket → MqttPacketV3
  subscribe : SubscribePacket → MqttPacketV3
  suback : SubAckPacket → MqttPacketV3
  unsubscribe : UnsubscribePacket → MqttPacketV3
  unsuback : AckPacket → MqttPacketV3
  pingreq pingresp disconnect : MqttPacketV3

pub connect_return_code_from-to :
    (c : ConnectReturnCode) → connect_return_code_from_u8 (connect_return_code_to_u8 c) ≡ some c
unfolding connect_return_code_from_u8 connect_return_code_to_u8
connect_return_code_from-to accepted = refl
connect_return_code_from-to _ = refl

pub suback_return_code_from-to :
    (c : SubAckReturnCode) → suback_return_code_from_u8 (suback_return_code_to_u8 c) ≡ some c
unfolding suback_return_code_from_u8 suback_return_code_to_u8
suback_return_code_from-to success_qos0 = refl
suback_return_code_from-to _ = refl
