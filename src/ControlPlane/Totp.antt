-- ===== src/ControlPlane/Totp.antt =====
-- services/control-plane/src/engine/totp.ts: the second factor. HMAC-SHA1 is a parameter. Times are whole
-- milliseconds. A secret is upper-cased as ASCII.
pub mod Window
use fleet_tracking_system.Common.{
  text_eq, ℕ, zero, suc, ◌+◌, ◌^◌, ◌-◌, ◌*◌, ◌/◌, ◌%◌, ◌≤◌, ◌<◌, List, [], ◌∷◌, ◌++◌, ◌≡◌, ◌≢◌,
  refl, sym, ap, ◌∙◌, arith, Bool, ◌&&◌, ◌||◌, not, true, false, Option, none, some, Text, length,
  take, drop, ltb, leb, nat_beq, ◌==◌, nat_eq, if◌then◌else◌, Bool-cases, Option-cases, ◌⊎◌, inl,
  inr, All, map, length-append, length-take, length-drop, append-nil, append_assoc, take-append_le,
  drop-append_le, take-append_eq, drop-append_eq, drop_two, take-append-drop,
}
use fleet_tracking_system.Common.Decimal.{codes, decimal}
use fleet_tracking_system.Protocol.Params.Replies.{is_space}

abbrev alphabet : Text
alphabet = codes "ABCDEFGHIJKLMNOPQRSTUVWXYZ234567"

-- A character of a text at a place, 0 where there is none.
unfoldable pub char_at : ℕ → List ℕ → ℕ
char_at i [] = 0
char_at zero (c ∷ s) = c
char_at (suc i) (c ∷ s) = char_at i s

-- The 5-bit groups of a value of so many bits, from the top; the fuel is the number of bits.
unfoldable pub groups : ℕ → ℕ → ℕ → Text × ℕ
groups zero value bits = ([], bits)
groups (suc fuel) value bits =
    let (out, left) = groups fuel value (bits - 5) in
    if leb 5 bits then (char_at (value / 2 ^ (bits - 5) % 32) alphabet ∷ out, left) else ([], bits)

-- `value` keeps its low 32 bits.
unfoldable pub encode_from : ℕ → ℕ → List ℕ → Text
encode_from value bits [] =
    if ltb 0 bits then char_at (value * 2 ^ (5 - bits) % 32) alphabet ∷ [] else []
encode_from value bits (byte ∷ buf) =
    let next = (value * 256 + byte) % 2 ^ 32 in
    let (out, left) = groups (bits + 8) next (bits + 8) in out ++ encode_from next left buf

unfoldable pub base32_encode : List ℕ → Text
base32_encode buf = encode_from 0 0 buf

unfoldable pub index_of : ℕ → Text → Option ℕ
index_of c [] = none
index_of c (a ∷ s) = elim (index_of c s) [
  | none ↦ if nat_beq a c then some 0 else none
  | some i ↦ if nat_beq a c then some 0 else some (suc i)
]

unfoldable pub to_upper : ℕ → ℕ
to_upper c = if leb 97 c && leb c 122 then c - 32 else c

-- `replace(/=+$/, '')`
unfoldable pub strip_padding : Text → Text
strip_padding [] = []
strip_padding (c ∷ s) = elim (strip_padding s) [
  | [] ↦ if nat_beq c 61 then [] else c ∷ []
  | d ∷ rest ↦ c ∷ d ∷ rest
]

unfoldable pub without_spaces : Text → Text
without_spaces [] = []
without_spaces (c ∷ s) = let rest = without_spaces s in if is_space c then rest else c ∷ rest

unfoldable pub decode_from : ℕ → ℕ → Text → List ℕ
decode_from value bits [] = []
decode_from value bits (c ∷ s) = elim (index_of c alphabet) [
  | none ↦ decode_from value bits s
  | some i ↦
      let next = (value * 32 + i) % 2 ^ 32 in
      let more = decode_from next (bits - 3) s in
      let fewer = decode_from next (bits + 5) s in
      if leb 8 (bits + 5) then next / 2 ^ (bits - 3) % 256 ∷ more else fewer
]

unfoldable pub base32_decode : Text → List ℕ
base32_decode secret = decode_from 0 0 (without_spaces (strip_padding (map to_upper secret)))

-- `writeBigUInt64BE`
unfoldable pub big_endian : ℕ → ℕ → List ℕ
big_endian zero n = []
big_endian (suc k) n = n / 256 ^ k % 256 ∷ big_endian k n

unfoldable pub pad_start : ℕ → Text → Text
pad_start zero s = s
pad_start (suc missing) s = b'0' ∷ pad_start missing s

unfoldable pub six_digits : Text → Text
six_digits s = pad_start (6 - length s) s

-- The 31 bits of a digest that its last four bits point at.
unfoldable pub truncate : List ℕ → ℕ
truncate hmac =
    let offset = char_at (length hmac - 1) hmac % 16 in
    (char_at offset hmac % 128) * 2 ^ 24
    + char_at (offset + 1) hmac * 2 ^ 16
    + char_at (offset + 2) hmac * 2 ^ 8
    + char_at (offset + 3) hmac

unfoldable pub step_ms : ℕ
step_ms = 30000

module _ (hmac_sha1 : List ℕ → List ℕ → List ℕ) where
  unfoldable pub code_of : Text → ℕ → Text
  code_of secret counter =
      six_digits
        (decimal (truncate (hmac_sha1 (base32_decode secret) (big_endian 8 counter)) % 1000000))

  unfoldable pub totp : Text → ℕ → Text
  totp secret time = code_of secret (time / step_ms)

  unfoldable pub tries : Text → Text → ℕ → ℕ → Bool
  tries secret target zero time = false
  tries secret target (suc more) time =
      let rest = tries secret target more (time + step_ms) in
      if totp secret time == target then true else rest

  -- A time before 1970 is refused by `writeBigUInt64BE`: `none`.
  unfoldable pub verify_totp : Text → Text → ℕ → ℕ → Option Bool
  verify_totp secret code time window =
      if ltb time (window * step_ms)
      then none
      else some (tries secret (six_digits code) (2 * window + 1) (time - window * step_ms))
