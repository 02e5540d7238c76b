-- ===== src/Protocol/Imei/Laws.antt =====
-- The login frame of imei.ts is read back, and bytes that arrive later do not change the answer.
use fleet_tracking_system.Common.{
  ℕ, ◌≤◌, List, [], ◌∷◌, ◌++◌, ◌≡◌, arith, true, some, Text, Bool-cases, inl, inr, length,
  if◌then◌else◌, length-append, ◌∙◌, take-append_le, take-append_eq, drop_two,
}
use fleet_tracking_system.Protocol.Fault.{ok, err, plain_error, not_digits}
use fleet_tracking_system.Protocol.Reader.{u16}
use fleet_tracking_system.Protocol.Imei.{ImeiParseResult, is_imei, parse_imei, encode_imei}
use fleet_tracking_system.Protocol.Ascii.{
  ascii_bytes, ascii_text, all_digits, ascii_text-ascii_bytes, length-ascii_bytes,
  all_digits-IsAscii,
}

-- The test on a whole login frame: what follows the two bytes of length decides.
login_frame :
    (body rest : List ℕ)
    → length body ≡ 15
    → parse_imei (0 ∷ 15 ∷ (body ++ rest)) ≡ (
        if is_imei (ascii_text body)
        then ok (some (record { imei = ascii_text body; bytes_consumed = 17 }))
        else err (plain_error not_digits))
unfolding parse_imei u16
login_frame body rest h =
    ground
      (arith, drop_two 0 15 (body ++ rest), length-append body rest, take-append_eq 15 body rest h)

pub is_imei-length : (s : Text) → is_imei s ≡ true → length s ≡ 15
unfolding is_imei
is_imei-length s h = ground arith

pub is_imei-all_digits : (s : Text) → is_imei s ≡ true → all_digits s ≡ true
unfolding is_imei
is_imei-all_digits s h = ground arith

-- A login frame that `encodeImei` makes is parsed back to its IMEI and to its 17 bytes, whatever
-- bytes follow it in the buffer.
pub parse_imei-encode_imei :
    (imei : Text) (rest frame : List ℕ)
    → encode_imei imei ≡ ok frame
    → parse_imei (frame ++ rest) ≡ ok (some (record { imei = imei; bytes_consumed = 17 }))
unfolding encode_imei
parse_imei-encode_imei imei rest frame h = elim (Bool-cases (is_imei imei)) [
  | inl e ↦ ground (
    arith,
    login_frame (ascii_bytes imei) rest (length-ascii_bytes imei ∙ is_imei-length imei e),
    ascii_text-ascii_bytes imei (all_digits-IsAscii imei (is_imei-all_digits imei e)),
  )
  | inr e ↦ ground arith
]

-- An accepted login is 15 digits and takes 17 bytes, which have arrived.
pub parse_imei_sound :
    (buf : List ℕ) {r : ImeiParseResult}
    → parse_imei buf ≡ ok (some r)
    → (is_imei r.imei ≡ true) × (r.bytes_consumed ≡ 17) × (17 ≤ length buf)
unfolding parse_imei u16
parse_imei_sound [] h = ground arith
parse_imei_sound (a ∷ []) h = ground arith
parse_imei_sound (a ∷ b ∷ r) h = ground arith

-- Once the login is parsed, bytes that arrive later do not change the result.
pub parse_imei-append :
    (buf more : List ℕ) {r : ImeiParseResult}
    → parse_imei buf ≡ ok (some r)
    → parse_imei (buf ++ more) ≡ ok (some r)
unfolding parse_imei u16
parse_imei-append [] more h = ground arith
parse_imei-append (a ∷ []) more h = ground arith
parse_imei-append (a ∷ b ∷ r) more h = ground (
  arith,
  drop_two a b r,
  drop_two a b (r ++ more),
  length-append r more,
  take-append_le 15 r more,
)
