-- ===== src/Rtu/Crc.antt =====
-- `modbusmq_rtu_crc16`.
pub mod Residue
pub mod Injective
use Prim.Native.Nat.{bit_xor}
use modbusmq.Base.{ℕ, zero, suc, ◌+◌, ◌/◌, ◌%◌, ◌==◌, if◌then◌else◌}

-- One round of the bit loop: shift right, and fold the polynomial in where a 1 fell out.
unfoldable pub crc_bit : ℕ → ℕ
crc_bit crc = if crc % 2 == 1 then bit_xor (crc / 2) 0xa001 else crc / 2

-- The eight rounds.
unfoldable pub crc_bits : ℕ → ℕ → ℕ
crc_bits zero crc = crc
crc_bits (suc left) crc = crc_bits left (crc_bit crc)

unfoldable pub crc_byte : ℕ → ℕ → ℕ
crc_byte crc b = crc_bits 8 (bit_xor crc b)

-- `while (buflen-- > 0)`, with `buf` at index `i`.
unfoldable pub crc_loop : (ℕ → ℕ) → ℕ → ℕ → ℕ → ℕ
crc_loop buf zero i crc = crc
crc_loop buf (suc left) i crc = crc_loop buf left (i + 1) (crc_byte crc (buf i))

unfoldable pub crc16 : (ℕ → ℕ) → ℕ → ℕ
crc16 buf buflen = crc_loop buf buflen 0 0xffff
