-- ===== src/Protocol/Imei.antt =====
-- packages/protocol-teltonika/src/imei.ts: the login frame, two bytes of length and 15 digits.
pub mod Laws
use fleet_tracking_system.Common.{
  ℕ, ◌+◌, List, [], ◌∷◌, ◌++◌, ◌≡◌, refl, arith, Bool, ◌&&◌, not, Option, none, some, Text, length,
  take, drop, ltb, nat_beq, if◌then◌else◌, length-append, take-append_eq,
}
use fleet_tracking_system.Protocol.Fault.{
  Result, ok, err, plain_error, bad_length, not_digits, ◌>>=◌,
}
use fleet_tracking_system.Protocol.Reader.{u16}
use fleet_tracking_system.Protocol.Ascii.{ascii_bytes, ascii_text, all_digits}

pub record ImeiParseResult : Type 0 where
  pub imei : Text
  pub bytes_consumed : ℕ

abbrev pub accept : List ℕ
accept = 1 ∷ []

abbrev pub reject : List ℕ
reject = 0 ∷ []

-- The test `/^\d{15}$/`.
unfoldable pub is_imei : Text → Bool
is_imei s = nat_beq (length s) 15 && all_digits s

-- `none` is the `null` of a frame that has not arrived whole.
unfoldable pub parse_imei : List ℕ → Result (Option ImeiParseResult)
parse_imei buf = if ltb (length buf) 2 then ok none else do
  (len, rest) ← u16 buf
  let imei = ascii_text (take len (drop 2 buf))
  if not (nat_beq len 15)
      then err (plain_error bad_length)
      else if ltb (length buf) (2 + len)
      then ok none
      else if not (is_imei imei)
      then err (plain_error not_digits)
      else ok (some (record { imei = imei; bytes_consumed = 2 + len }))

unfoldable pub encode_imei : Text → Result (List ℕ)
encode_imei imei =
    if not (is_imei imei) then err (plain_error not_digits) else ok (0 ∷ 15 ∷ ascii_bytes imei)
