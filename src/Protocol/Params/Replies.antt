-- ===== src/Protocol/Params/Replies.antt =====
-- The readers of a device's replies of packages/protocol-teltonika/src/params.ts. The regular expressions are
-- scanners: each of their repetitions is greedy, and what follows it cannot start inside it. The number of
-- a text of digits is exact here.
use fleet_tracking_system.Common.{
  ℕ, zero, suc, ◌+◌, ◌-◌, ◌*◌, List, [], ◌∷◌, Bool, ◌&&◌, ◌||◌, not, true, false, Option, none,
  some, Text, length, ltb, leb, nat_beq, if◌then◌else◌,
}
use fleet_tracking_system.Common.Int.{ℤ, pos, negsuc}
use fleet_tracking_system.Common.Decimal.{codes}
use fleet_tracking_system.Protocol.Ascii.{is_digit}
use fleet_tracking_system.Protocol.Params.{
  NetworkMode, MotionMode, Field, field_offset, param_id, profile_fields,
}

-- `\s`
unfoldable pub is_space : ℕ → Bool
is_space c =
    (leb 9 c && leb c 13)
    || nat_beq c 32
    || nat_beq c 160
    || nat_beq c 5760
    || (leb 8192 c && leb c 8202)
    || nat_beq c 8232
    || nat_beq c 8233
    || nat_beq c 8239
    || nat_beq c 8287
    || nat_beq c 12288
    || nat_beq c 65279

unfoldable pub skip_spaces : Text → Text
skip_spaces [] = []
skip_spaces (c ∷ s) = let rest = skip_spaces s in if is_space c then rest else c ∷ s

-- What follows a literal.
unfoldable pub after : Text → Text → Option Text
after [] s = some s
after (p ∷ literal) [] = none
after (p ∷ literal) (c ∷ s) = let rest = after literal s in if nat_beq c p then rest else none

-- The value of at most so many digits after those read before, how many they are, and the rest.
unfoldable pub digits : ℕ → ℕ → Text → ℕ × ℕ × Text
digits zero value s = (value, 0, s)
digits (suc most) value [] = (value, 0, [])
digits (suc most) value (c ∷ s) =
    let (total, count, rest) = digits most (value * 10 + (c - 48)) s in
    if is_digit c then (total, suc count, rest) else (value, 0, c ∷ s)

unfoldable pub negative : ℕ → ℤ
negative zero = pos 0
negative (suc n) = negsuc n

-- `(-?\d+)`
unfoldable pub signed_value : Text → Option (ℤ × Text)
signed_value s =
    let minus = after (b'-' ∷ []) s in
    let body : Text = elim minus [ none ↦ s | some t ↦ t ] in
    let (total, count, rest) = digits (length body) 0 body in
    if nat_beq count 0
    then none
    else some (elim minus [ none ↦ (pos total, rest) | some t ↦ (negative total, rest) ])

-- `(?::|Val:)`
unfoldable pub separator : Text → Option Text
separator s = elim (after (b':' ∷ []) s) [ none ↦ after (codes "Val:") s | some t ↦ some t ]

-- `(\d{4,5})\s*(?::|Val:)\s*(-?\d+)`
unfoldable pub pair_at : Text → Option (ℕ × ℤ × Text)
pair_at s =
    let (id, count, rest) = digits 5 0 s in
    if ltb count 4 then none else elim (separator (skip_spaces rest)) [
      | none ↦ none
      | some t ↦ elim (signed_value (skip_spaces t)) [
        | none ↦ none
        | some (v, after_value) ↦ some (id, v, after_value)
      ]
    ]

-- With `(?:Param ID:\s*)?` before it.
unfoldable pub token_at : Text → Option (ℕ × ℤ × Text)
token_at s = elim (after (codes "Param ID:") s) [
  | none ↦ pair_at s
  | some t ↦ elim (pair_at (skip_spaces t)) [ none ↦ pair_at s | some token ↦ some token ]
]

-- The matches from left to right. A match is not empty, so the length of the text is enough fuel.
unfoldable pub tokens : ℕ → Text → List (ℕ × ℤ)
tokens zero s = []
tokens (suc fuel) [] = []
tokens (suc fuel) (c ∷ s) = elim (token_at (c ∷ s)) [
  | none ↦ tokens fuel s
  | some (id, v, rest) ↦ (id, v) ∷ tokens fuel rest
]

unfoldable pub is_id : ℕ → Option ℕ → Bool
is_id id none = false
is_id id (some other) = nat_beq other id

unfoldable pub field_of : NetworkMode → MotionMode → ℕ → List Field → Option Field
field_of net motion id [] = none
field_of net motion id (field ∷ fields) =
    let rest = field_of net motion id fields in
    if is_id id (param_id net motion field) then some field else rest

-- `out[field] = value`
unfoldable pub put : Field → ℤ → List (Field × ℤ) → List (Field × ℤ)
put field v [] = (field, v) ∷ []
put field v ((other, w) ∷ out) =
    let rest = put field v out in
    if nat_beq (field_offset other) (field_offset field)
    then (other, v) ∷ out
    else (other, w) ∷ rest

unfoldable pub collect :
    NetworkMode → MotionMode → List (ℕ × ℤ) → List (Field × ℤ) → List (Field × ℤ)
collect net motion [] out = out
collect net motion ((id, v) ∷ found) out = elim (field_of net motion id (profile_fields motion)) [
  | none ↦ collect net motion found out
  | some field ↦ collect net motion found (put field v out)
]

unfoldable pub parse_get_param_response : NetworkMode → MotionMode → Text → List (Field × ℤ)
parse_get_param_response net motion text = collect net motion (tokens (length text) text) []

-- The flag `i` on the letters of the literals.
unfoldable pub lower : ℕ → ℕ
lower c = if leb 65 c && leb c 90 then c + 32 else c

unfoldable pub starts_lower : Text → Text → Bool
starts_lower [] s = true
starts_lower (p ∷ literal) [] = false
starts_lower (p ∷ literal) (c ∷ s) = nat_beq (lower c) p && starts_lower literal s

unfoldable pub contains_lower : Text → Text → Bool
contains_lower literal [] = starts_lower literal []
contains_lower literal (c ∷ s) = starts_lower literal (c ∷ s) || contains_lower literal s

unfoldable pub set_param_accepted : Text → Bool
set_param_accepted reply = not (
    contains_lower (codes "error") reply
    || contains_lower (codes "fail") reply
    || contains_lower (codes "invalid") reply
    || contains_lower (codes "unknown") reply)
