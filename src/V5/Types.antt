-- ===== src/V5/Types.antt =====
-- mqtt-core/src/v5/types.rs. A `PacketId` is a `u16`.
use atom_mqtt.Prelude.{ℕ, ◌%◌, Bool, Option, none, some, List, ◌==◌, if◌then◌else◌, Bytes}
use atom_mqtt.Common.{Qos}
use atom_mqtt.V5.Reasons.{ReasonCode}
use atom_mqtt.V5.Properties.{Properties}

pub record Will : Type 0 where
  pub topic : Bytes
  pub payload : Bytes
  pub qos : Qos
  pub retain : Bool
  pub properties : Properties
  pub delay_interval : ℕ

pub record ConnectPacket : Type 0 where
  pub client_id : Bytes
  pub clean_start : Bool
  pub keep_alive : ℕ
  pub properties : Properties
  pub will : Option Will
  pub username : Option Bytes
  pub password : Option Bytes

pub record ConnAckPacket : Type 0 where
  pub session_present : Bool
  pub reason_code : ReasonCode
  pub properties : Properties

pub record PublishPacket : Type 0 where
  pub topic : Bytes
  pub payload : Bytes
  pub qos : Qos
  pub retain : Bool
  pub packet_id : Option ℕ
  pub properties : Properties

-- `PubAckPacket`, `PubRecPacket`, `PubRelPacket` and `PubCompPacket`, which hold the same fields.
pub record AckPacket : Type 0 where
  pub packet_id : ℕ
  pub reason_code : ReasonCode
  pub properties : Properties

pub data RetainHandling : Type 0 where
  send send_if_new do_not_send : RetainHandling

-- `v & 0x03` is `v % 4`.
unfoldable pub retain_handling_from_u8 : ℕ → Option RetainHandling
retain_handling_from_u8 v =
    if v % 4 == 0
    then some send
    else if v % 4 == 1
    then some send_if_new
    else if v % 4 == 2
    then some do_not_send
    else none

-- `filter.retain_handling as u8`
unfoldable pub retain_handling_to_u8 : RetainHandling → ℕ
retain_handling_to_u8 send = 0
retain_handling_to_u8 send_if_new = 1
retain_handling_to_u8 do_not_send = 2

pub record SubscribeFilter : Type 0 where
  pub path : Bytes
  pub qos : Qos
  pub no_local : Bool
  pub retain_as_published : Bool
  pub retain_handling : RetainHandling

pub record SubscribePacket : Type 0 where
  pub packet_id : ℕ
  pub filters : List SubscribeFilter
  pub properties : Properties

-- `SubAckPacket` and `UnsubAckPacket`, which hold the same fields.
pub record CodesPacket : Type 0 where
  pub packet_id : ℕ
  pub reason_codes : List ReasonCode
  pub properties : Properties

pub record UnsubscribePacket : Type 0 where
  pub packet_id : ℕ
  pub filters : List Bytes
  pub properties : Properties

-- `DisconnectPacket` and `AuthPacket`, which hold the same fields.
pub record ReasonPacket : Type 0 where
  pub reason_code : ReasonCode
  pub properties : Properties

pub data MqttPacketV5 : Type 0 where
  connect : ConnectPacket → MqttPacketV5
  connack : ConnAckPacket → MqttPacketV5
  publish : PublishPacket → MqttPacketV5
  puback pubrec pubrel pubcomp : AckPacket → MqttPacketV5
  subscribe : SubscribePacket → MqttPacketV5
  suback : CodesPacket → MqttPacketV5
  unsubscribe : UnsubscribePacket → MqttPacketV5
  unsuback : CodesPacket → MqttPacketV5
  pingreq pingresp : MqttPacketV5
  disconnect auth : ReasonPacket → MqttPacketV5
