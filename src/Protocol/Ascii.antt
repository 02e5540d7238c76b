-- ===== src/Protocol/Ascii.antt =====
-- The `ascii` encoding of `Buffer`: writing keeps the low byte of a character code, reading drops
-- the high bit of a byte.
use fleet_tracking_system.Common.{
  ℕ, ◌%◌, ◌<◌, List, [], ◌∷◌, ◌≡◌, refl, arith, Bool, true, ◌&&◌, leb, map, All, Text, length,
}

unfoldable pub ascii_bytes : Text → List ℕ
ascii_bytes = map (λ c. c % 256)

unfoldable pub ascii_text : List ℕ → Text
ascii_text = map (λ b. b % 128)

unfoldable pub is_digit : ℕ → Bool
is_digit c = leb 48 c && leb c 57

unfoldable pub all_digits : Text → Bool
unfolding is_digit
all_digits [] = true
all_digits (c ∷ s) = is_digit c && all_digits s

abbrev pub IsAscii : Text → Type 0
IsAscii = All (λ c. c < 128)

pub ascii_text-ascii_bytes : (s : Text) → IsAscii s → ascii_text (ascii_bytes s) ≡ s
unfolding ascii_text ascii_bytes
ascii_text-ascii_bytes [] h = refl
ascii_text-ascii_bytes (c ∷ s) (hc, hs) = ground (arith, ascii_text-ascii_bytes s hs)

pub length-ascii_bytes : (s : Text) → length (ascii_bytes s) ≡ length s
unfolding ascii_bytes
length-ascii_bytes [] = refl
length-ascii_bytes (c ∷ s) = omega (arith, length-ascii_bytes s)

pub all_digits-IsAscii : (s : Text) → all_digits s ≡ true → IsAscii s
unfolding all_digits
all_digits-IsAscii [] h = tt
all_digits-IsAscii (c ∷ s) h = ground (arith, all_digits-IsAscii s)
