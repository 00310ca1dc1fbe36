-- ===== src/Wire/Flags.antt =====
-- The flags of a CONNECT read back.
use atom_mqtt.Prelude.{ℕ, ◌/◌, ◌%◌, ◌≡◌, Bool, false, Option, none, some, arith}
use atom_mqtt.Common.{Qos, at_most_once, at_least_once, exactly_once, qos_to_u8, qos_from_u8}
use atom_mqtt.Wire.Read.{has_flag, unwrap_or}
use atom_mqtt.Wire.Write.{is_some, will_flags, flag_byte}

abbrev pub will_qos : Option (Qos × Bool) → Qos
will_qos none = at_most_once
will_qos (some w) = w.0

abbrev pub will_retain : Option (Qos × Bool) → Bool
will_retain none = false
will_retain (some w) = w.1

-- What a decoder reads off the flags.
pub record ReadsFlags (flags : ℕ) (username password clean : Bool) (will : Option (Qos × Bool))
    : Type 0 where
  pub clean_flag : has_flag flags 0x02 ≡ clean
  pub will_flag : has_flag flags 0x04 ≡ is_some will
  pub qos_flag : unwrap_or (qos_from_u8 (flags / 8 % 4)) at_most_once ≡ will_qos will
  pub retain_flag : has_flag flags 0x20 ≡ will_retain will
  pub password_flag : has_flag flags 0x40 ≡ password
  pub username_flag : has_flag flags 0x80 ≡ username

pub flag_byte-ReadsFlags :
    (u p c : Bool) (w : Option (Qos × Bool)) → ReadsFlags (flag_byte u p c w) u p c w
unfolding flag_byte will_flags qos_to_u8 unwrap_or qos_from_u8
flag_byte-ReadsFlags u p c none = ground arith
flag_byte-ReadsFlags u p c (some (at_most_once, retain)) = ground arith
flag_byte-ReadsFlags u p c (some (at_least_once, retain)) = ground arith
flag_byte-ReadsFlags u p c (some (exactly_once, retain)) = ground arith
