-- ===== src/Common.antt =====
-- mqtt-core/src/common.rs: the types that both protocol versions share.
pub mod Utf8
pub mod Strings
pub mod Length
pub mod Split
pub mod Levels
pub mod Topic
use atom_mqtt.Prelude.{
  ℕ, ◌/◌, ◌*◌, ◌≡◌, Bool, true, false, not, Option, none, some, ◌==◌, if◌then◌else◌, Bytes, codes,
  refl, arith,
}

pub data ProtocolVersion : Type 0 where
  v311 v5 : ProtocolVersion

-- `level_byte`
unfoldable pub level_byte : ProtocolVersion → ℕ
level_byte v311 = 4
level_byte v5 = 5

-- `name_str`
unfoldable pub name_str : ProtocolVersion → Bytes
name_str v311 = codes "MQTT"
name_str v5 = codes "MQTT"

pub data Qos : Type 0 where
  at_most_once at_least_once exactly_once : Qos

unfoldable pub qos_to_u8 : Qos → ℕ
qos_to_u8 at_most_once = 0
qos_to_u8 at_least_once = 1
qos_to_u8 exactly_once = 2

unfoldable pub qos_from_u8 : ℕ → Option Qos
qos_from_u8 v =
    if v == 0
    then some at_most_once
    else if v == 1
    then some at_least_once
    else if v == 2
    then some exactly_once
    else none

-- `==` on `QoS`
unfoldable pub qos_eq : Qos → Qos → Bool
qos_eq at_most_once at_most_once = true
qos_eq at_least_once at_least_once = true
qos_eq exactly_once exactly_once = true
qos_eq _ _ = false

pub data PacketType : Type 0 where
  connect connack publish puback pubrec pubrel pubcomp : PacketType
  subscribe suback unsubscribe unsuback pingreq pingresp disconnect auth : PacketType

-- `self as u8`
unfoldable pub discriminant : PacketType → ℕ
discriminant connect = 1
discriminant connack = 2
discriminant publish = 3
discriminant puback = 4
discriminant pubrec = 5
discriminant pubrel = 6
discriminant pubcomp = 7
discriminant subscribe = 8
discriminant suback = 9
discriminant unsubscribe = 10
discriminant unsuback = 11
discriminant pingreq = 12
discriminant pingresp = 13
discriminant disconnect = 14
discriminant auth = 15

unfoldable pub packet_type_to_u8 : PacketType → ℕ
unfolding discriminant
packet_type_to_u8 t = discriminant t * 16

-- The `match` on `value >> 4`.
unfoldable pub packet_type_of : ℕ → Option PacketType
packet_type_of n =
    if n == 1
    then some connect
    else if n == 2
    then some connack
    else if n == 3
    then some publish
    else if n == 4
    then some puback
    else if n == 5
    then some pubrec
    else if n == 6
    then some pubrel
    else if n == 7
    then some pubcomp
    else if n == 8
    then some subscribe
    else if n == 9
    then some suback
    else if n == 10
    then some unsubscribe
    else if n == 11
    then some unsuback
    else if n == 12
    then some pingreq
    else if n == 13
    then some pingresp
    else if n == 14
    then some disconnect
    else if n == 15
    then some auth
    else none

unfoldable pub packet_type_from_u8 : ℕ → Option PacketType
unfolding packet_type_of
packet_type_from_u8 value = packet_type_of (value / 16)

unfoldable pub has_packet_id : PacketType → Bool
has_packet_id puback = true
has_packet_id pubrec = true
has_packet_id pubrel = true
has_packet_id pubcomp = true
has_packet_id subscribe = true
has_packet_id suback = true
has_packet_id unsubscribe = true
has_packet_id unsuback = true
has_packet_id _ = false

unfoldable pub is_control : PacketType → Bool
is_control publish = false
is_control _ = true

pub qos_from-to : (q : Qos) → qos_from_u8 (qos_to_u8 q) ≡ some q
unfolding qos_from_u8 qos_to_u8
qos_from-to at_most_once = refl
qos_from-to at_least_once = refl
qos_from-to exactly_once = refl
