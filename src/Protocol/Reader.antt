-- ===== src/Protocol/Reader.antt =====
-- packages/protocol-teltonika/src/reader.ts, and the big-endian reads and writes of `Buffer`.
-- A reader is the list of the bytes from its offset on: a read takes from the front, and throws
-- where the bytes do not reach. `bytes` stops at the end, as `subarray` does.
pub mod RoundTrip
use fleet_tracking_system.Common.{
  ℕ, zero, suc, ◌+◌, ◌-◌, ◌*◌, ◌/◌, ◌%◌, ◌^◌, ◌<◌, List, [], ◌∷◌, ltb, if◌then◌else◌, take, drop,
}
use fleet_tracking_system.Common.Int.{ℤ, pos, negsuc}
use fleet_tracking_system.Protocol.Fault.{Result, ok, err, range_error, ◌>>=◌}

abbrev pub IsByte : ℕ → Type 0
IsByte b = b < 256

abbrev pub Reader : Type 0
Reader = List ℕ

-- The next `n` bytes behind `acc`, most significant first.
unfoldable pub read_be : ℕ → ℕ → Reader → Result (ℕ × Reader)
read_be zero acc r = ok (acc, r)
read_be (suc n) acc [] = err range_error
read_be (suc n) acc (b ∷ r) = read_be n (acc * 256 + b) r

unfoldable pub u8 : Reader → Result (ℕ × Reader)
unfolding read_be
u8 r = read_be 1 0 r

unfoldable pub u16 : Reader → Result (ℕ × Reader)
unfolding read_be
u16 r = read_be 2 0 r

unfoldable pub u32 : Reader → Result (ℕ × Reader)
unfolding read_be
u32 r = read_be 4 0 r

unfoldable pub u64 : Reader → Result (ℕ × Reader)
unfolding read_be
u64 r = read_be 8 0 r

-- The number that a two's complement pattern of `w` bits stands for.
unfoldable pub signed : ℕ → ℕ → ℤ
signed w v = if ltb v (2 ^ w / 2) then pos v else negsuc (2 ^ w - 1 - v)

unfoldable pub i16 : Reader → Result (ℤ × Reader)
unfolding u16 signed
i16 r = do (v, r') ← u16 r; ok (signed 16 v, r')

unfoldable pub i32 : Reader → Result (ℤ × Reader)
unfolding u32 signed
i32 r = do (v, r') ← u32 r; ok (signed 32 v, r')

unfoldable pub bytes : ℕ → Reader → Result (List ℕ × Reader)
bytes n r = ok (take n r, drop n r)

-- The bytes of a number, most significant first.
unfoldable pub be16 : ℕ → List ℕ
be16 v = v / 256 % 256 ∷ v % 256 ∷ []

unfoldable pub be32 : ℕ → List ℕ
be32 v = v / 16777216 % 256 ∷ v / 65536 % 256 ∷ v / 256 % 256 ∷ v % 256 ∷ []

-- `writeUInt16BE`, `writeUInt32BE`: a value that does not fit is refused.
unfoldable pub write_u8 : ℕ → Result (List ℕ)
write_u8 v = if ltb v 256 then ok (v ∷ []) else err range_error

unfoldable pub write_u16 : ℕ → Result (List ℕ)
unfolding be16
write_u16 v = if ltb v 65536 then ok (be16 v) else err range_error

unfoldable pub write_u32 : ℕ → Result (List ℕ)
unfolding be32
write_u32 v = if ltb v 4294967296 then ok (be32 v) else err range_error
