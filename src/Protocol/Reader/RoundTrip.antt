-- ===== src/Protocol/Reader/RoundTrip.antt =====
-- What is written big-endian is read back, and a read does not look past what it takes.
use fleet_tracking_system.Common.{
  ℕ, zero, suc, ◌+◌, ◌*◌, ◌<◌, ◌≤◌, List, [], ◌∷◌, ◌++◌, ◌≡◌, refl, arith, length,
}
use fleet_tracking_system.Protocol.Fault.{ok}
use fleet_tracking_system.Protocol.Reader.{
  Reader, read_be, u8, u16, u32, be16, be32, write_u16, write_u32,
}

pub u8_cons : (v : ℕ) (r : Reader) → u8 (v ∷ r) ≡ ok (v, r)
unfolding u8
u8_cons v r = ground arith

pub u16-be16 : (v : ℕ) (r : Reader) → v < 65536 → u16 (be16 v ++ r) ≡ ok (v, r)
unfolding u16 be16
u16-be16 v r h = ground arith

pub u32-be32 : (v : ℕ) (r : Reader) → v < 4294967296 → u32 (be32 v ++ r) ≡ ok (v, r)
unfolding u32 be32
u32-be32 v r h = ground arith

pub write_u32-eq : (v : ℕ) {w : List ℕ} → write_u32 v ≡ ok w → (v < 4294967296) × (w ≡ be32 v)
unfolding write_u32
write_u32-eq v h = ground arith

pub write_u16-eq : (v : ℕ) {w : List ℕ} → write_u16 v ≡ ok w → (v < 65536) × (w ≡ be16 v)
unfolding write_u16
write_u16-eq v h = ground arith

-- A read fails exactly where the bytes do not reach.
pub read_be-total :
    (n acc : ℕ) (r : Reader) → n ≤ length r → (v : ℕ) × (s : Reader) × (read_be n acc r ≡ ok (v, s))
unfolding read_be
read_be-total zero acc r h = (acc, r, refl)
read_be-total (suc n) acc [] h = absurd (omega arith)
read_be-total (suc n) acc (b ∷ r) h = read_be-total n (acc * 256 + b) r (omega arith)

pub read_be-append :
    (n acc : ℕ) (r more : Reader) {v : ℕ} {s : Reader}
    → read_be n acc r ≡ ok (v, s)
    → read_be n acc (r ++ more) ≡ ok (v, s ++ more)
unfolding read_be
read_be-append zero acc r more h = ground arith
read_be-append (suc n) acc [] more h = cc
read_be-append (suc n) acc (b ∷ r) more h = read_be-append n (acc * 256 + b) r more h
