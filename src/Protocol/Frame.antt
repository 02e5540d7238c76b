-- ===== src/Protocol/Frame.antt =====
-- The layout that the TCP packets of codec8.ts and codec12.ts share: four zero bytes, the length of
-- the data field, the field, and the CRC in four bytes. Both decoders read it by these lemmas.
use fleet_tracking_system.Common.{
  ℕ, suc, ◌+◌, ◌<◌, List, ◌∷◌, ◌++◌, ◌≡◌, refl, ap, arith, length, take, drop, length-append,
  append_assoc,
}
use fleet_tracking_system.Protocol.Fault.{ok}
use fleet_tracking_system.Protocol.Reader.{u32, be16, be32}

-- The preamble and the length `n`, before the rest `y`.
unfoldable pub header : ℕ → List ℕ → List ℕ
header n y = 0 ∷ 0 ∷ 0 ∷ 0 ∷ (be32 n ++ y)

-- A whole packet with the CRC `c`.
unfoldable pub framed : ℕ → List ℕ → ℕ → List ℕ
unfolding header
framed n field c = header n (field ++ (0 ∷ 0 ∷ be16 c))

pub drop_eight :
    (k a b c d e f g h : ℕ) (y : List ℕ)
    → drop (8 + k) (a ∷ b ∷ c ∷ d ∷ e ∷ f ∷ g ∷ h ∷ y) ≡ drop k y
unfolding drop
drop_eight k a b c d e f g h y =
    let eq : 8 + k ≡ suc (suc (suc (suc (suc (suc (suc (suc k))))))) = omega arith in rw eq

pub take_eight :
    (k a b c d e f g h : ℕ) (y : List ℕ)
    → take (8 + k) (a ∷ b ∷ c ∷ d ∷ e ∷ f ∷ g ∷ h ∷ y) ≡ a ∷ b ∷ c ∷ d ∷ e ∷ f ∷ g ∷ h ∷ take k y
unfolding take
take_eight k a b c d e f g h y =
    let eq : 8 + k ≡ suc (suc (suc (suc (suc (suc (suc (suc k))))))) = omega arith in rw eq

pub length-header : (n : ℕ) (y : List ℕ) → length (header n y) ≡ 8 + length y
unfolding header be32
length-header n y = omega arith

pub preamble-header : (n : ℕ) (y : List ℕ) → u32 (header n y) ≡ ok (0, be32 n ++ y)
unfolding header u32
preamble-header n y = refl

pub size-header : (n : ℕ) (y : List ℕ) → n < 4294967296 → u32 (drop 4 (header n y)) ≡ ok (n, y)
unfolding header u32 be32 drop
size-header n y h = ground arith

pub drop-header : (n k : ℕ) (y : List ℕ) → drop (8 + k) (header n y) ≡ drop k y
unfolding header be32
drop-header n k y = drop_eight k _ _ _ _ _ _ _ _ y

pub drop_eight-header : (n : ℕ) (y : List ℕ) → drop 8 (header n y) ≡ y
unfolding header be32 drop
drop_eight-header n y = refl

pub take-header : (n k : ℕ) (y : List ℕ) → take (8 + k) (header n y) ≡ header n (take k y)
unfolding header be32
take-header n k y = take_eight k _ _ _ _ _ _ _ _ y

pub crc-tail : (c : ℕ) (r : List ℕ) → c < 65536 → u32 (0 ∷ 0 ∷ (be16 c ++ r)) ≡ ok (c, r)
unfolding u32 be16
crc-tail c r h = ground arith

pub length-framed : (n : ℕ) (field : List ℕ) (c : ℕ) → length (framed n field c) ≡ length field + 12
unfolding framed be16
length-framed n field c =
    omega (arith, length-header n (field ++ (0 ∷ 0 ∷ be16 c)), length-append field (0 ∷ 0 ∷ be16 c))

-- A packet in front of other bytes, bracketed to the right.
pub framed-append :
    (n : ℕ) (field : List ℕ) (c : ℕ) (rest : List ℕ)
    → framed n field c ++ rest ≡ header n (field ++ (0 ∷ 0 ∷ (be16 c ++ rest)))
unfolding framed header be32
framed-append n field c rest = ap (λ y. 0 ∷ 0 ∷ 0 ∷ 0 ∷ (be32 n ++ y)) (append_assoc field _ rest)
