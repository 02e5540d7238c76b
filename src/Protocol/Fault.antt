-- ===== src/Protocol/Fault.antt =====
-- The exceptions of packages/protocol-teltonika, and the result of code that may throw one.
use fleet_tracking_system.Common.{◌≡◌, refl}

-- What the message of an error says.
pub data Reason : Type 0 where
  too_short bad_preamble incomplete crc_mismatch : Reason
  codec_16 unsupported_codec unknown_codec count_mismatch not_codec_12 : Reason
  bad_length not_digits not_logged_in : Reason

-- `range_error` is what `Buffer` throws on a read or a write out of range, and what `Date` throws
-- on an invalid date; `sink_error` is what a failing sink rejects with; the others are the classes of
-- the package, and `plain_error` its `Error`.
pub data Fault : Type 0 where
  range_error sink_error : Fault
  plain_error decode_error codec12_error udp_error : Reason → Fault

pub data Result {ℓ} (A : Type ℓ) : Type ℓ where
  ok : A → Result A
  err : Fault → Result A

infixl 5 ◌>>=◌
abbrev pub ◌>>=◌ {ℓ κ} : {A : Type ℓ} {B : Type κ} → Result A → (A → Result B) → Result B
◌>>=◌ (ok value) next = next value
◌>>=◌ (err fault) next = err fault

-- What a successful bind has gone through.
pub >>=-eq-ok {κ ℓ} :
    {B : Type κ} {A : Type ℓ} (first : Result A) (next : A → Result B) {result : B}
    → (first >>= next) ≡ ok result
    → (value : A) × (first ≡ ok value) × (next value ≡ ok result)
>>=-eq-ok (ok value) next h = (value, refl, h)
>>=-eq-ok (err fault) next h = cc
