-- ===== src/Protocol/Crc16.antt =====
-- packages/protocol-teltonika/src/crc16.ts. `crc & 1` is `crc % 2`, `crc >>> 1` is `crc / 2` and
-- `crc & 0xffff` is `crc % 65536`.
use fleet_tracking_system.Common.{
  ℕ, zero, suc, ◌/◌, ◌%◌, ◌<◌, List, [], ◌∷◌, ◌≡◌, refl, arith, bit_xor, ◌==◌, nat_eq,
  if◌then◌else◌,
}

unfoldable pub crc_bit : ℕ → ℕ
crc_bit crc = if crc % 2 == 1 then bit_xor (crc / 2) 0xa001 else crc / 2

-- The inner loop over the bits of one byte.
unfoldable pub crc_bits : ℕ → ℕ → ℕ
unfolding crc_bit
crc_bits zero crc = crc
crc_bits (suc n) crc = crc_bits n (crc_bit crc)

unfoldable pub crc_loop : ℕ → List ℕ → ℕ
unfolding crc_bits
crc_loop crc [] = crc
crc_loop crc (b ∷ bs) = crc_loop (crc_bits 8 (bit_xor crc b)) bs

unfoldable pub crc16_ibm : List ℕ → ℕ
unfolding crc_loop
crc16_ibm bytes = crc_loop 0 bytes % 65536

pub crc16_ibm-lt : (bytes : List ℕ) → crc16_ibm bytes < 65536
unfolding crc16_ibm
crc16_ibm-lt bytes = omega arith

-- The check value of CRC-16/ARC: the digits 1 to 9.
crc16_ibm_check : crc16_ibm (49 ∷ 50 ∷ 51 ∷ 52 ∷ 53 ∷ 54 ∷ 55 ∷ 56 ∷ 57 ∷ []) ≡ 0xbb3d
unfolding crc16_ibm
crc16_ibm_check = refl
