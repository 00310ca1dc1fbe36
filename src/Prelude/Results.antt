-- ===== src/Prelude/Results.antt =====
-- `MqttError` and `MqttResult` of mqtt-core/src/common.rs, with the `?` operator as bind.
use Prim.Native.Nat.{ℕ}
use Prim.Native.String.{String}
use mathlib.Core.Path.{◌≡◌, refl}
use mathlib.Core.Option.{Option, none, some}

-- The text of an error: a literal, or a literal with a byte formatted into it.
pub data Message : Type 0 where
  text : String → Message
  unknown_packet_type : ℕ → Message
  unknown_connack_code : ℕ → Message
  unknown_reason_code : ℕ → Message
  unknown_auth_reason_code : ℕ → Message
  unknown_property_id : ℕ → Message

pub data MqttError : Type 0 where
  invalid_packet : Message → MqttError
  protocol_violation : Message → MqttError
  io : Message → MqttError
  unsupported_version : ℕ → MqttError
  malformed_remaining_length : MqttError
  packet_too_large : ℕ → MqttError
  invalid_utf8 : MqttError
  codec : Message → MqttError
  auth_failed : Message → MqttError

pub data MqttResult {ℓ} (A : Type ℓ) : Type ℓ where
  ok : A → MqttResult A
  err : MqttError → MqttResult A

infixl 5 ◌>>=◌
abbrev pub ◌>>=◌ {ℓ κ} :
    {A : Type ℓ} {B : Type κ} → MqttResult A → (A → MqttResult B) → MqttResult B
err failure >>= next = err failure
ok value >>= next = next value

-- `o.ok_or_else(|| e)?`
abbrev pub ok_or {ℓ} : {A : Type ℓ} → Option A → MqttError → MqttResult A
ok_or none e = err e
ok_or (some a) e = ok a

-- `InvalidPacket("…".into())`
abbrev pub invalid {ℓ} : {A : Type ℓ} → String → MqttResult A
invalid s = err (invalid_packet (text s))

-- A chain that succeeds had a first step that did, and went on from its value.
pub >>=-eq-ok {ℓ κ} :
    {A : Type ℓ} {B : Type κ} {last : B} (first : MqttResult A) (next : A → MqttResult B)
    → (first >>= next) ≡ ok last
    → (value : A) × (first ≡ ok value) × (next value ≡ ok last)
>>=-eq-ok (err failure) next h = cc
>>=-eq-ok (ok value) next h = (value, refl, h)

pub ok_or-eq-ok {ℓ} :
    {A : Type ℓ} (o : Option A) (e : MqttError) {a : A} → ok_or o e ≡ ok a → o ≡ some a
ok_or-eq-ok none e h = cc
ok_or-eq-ok (some a) e h = cc
