-- ===== src/Rtu/Crc/Residue.antt =====
-- The checksum of a frame with its own checksum appended, low byte first.
use Prim.Native.Nat.{bit_xor}
use modbusmq.Base.{ℕ, zero, suc, ◌+◌, ◌*◌, ◌/◌, ◌%◌, ◌^◌, ◌≡◌, ap, ◌∙◌, arith}
use native.Mathlib.Nat.{pow-suc, zero-add, add-zero}
use modbusmq.Base.Xor.{bit_xor_low, bit_xor_self}
use modbusmq.Rtu.Crc.{crc_bit, crc_bits, crc_byte, crc_loop, crc16}

crc_bit_even : (h k : ℕ) → crc_bit (h * 2 ^ suc k) ≡ h * 2 ^ k
unfolding crc_bit
crc_bit_even h k =
    let double : h * 2 ^ suc k ≡ 2 * (h * 2 ^ k) =
      omega (arith, ap (λ (t : ℕ). h * t) (pow-suc 2 k)) in
    rw double (ground arith)

-- No 1 falls out of a word whose low digits are 0.
crc_bits_even : (n h : ℕ) → crc_bits n (h * 2 ^ n) ≡ h
unfolding crc_bits
crc_bits_even zero h = omega arith
crc_bits_even (suc n) h = rw (crc_bit_even h n) (crc_bits_even n h)

crc_byte_low : (crc : ℕ) → crc_byte crc (crc % 256) ≡ crc / 256
unfolding crc_byte
crc_byte_low crc =
    let split : crc ≡ crc / 256 * 2 ^ 8 + crc % 256 = omega arith in
    let high : bit_xor crc (crc % 256) ≡ crc / 256 * 2 ^ 8 =
      ap (λ t. bit_xor t (crc % 256)) split ∙ bit_xor_low 8 (crc / 256) (crc % 256) (omega arith) in
    rw high (crc_bits_even 8 (crc / 256))

crc_byte_self : (crc : ℕ) → crc_byte crc crc ≡ 0
unfolding crc_byte
crc_byte_self crc = rw (bit_xor_self crc) (crc_bits_even 8 0)

crc_loop-add :
    (buf : ℕ → ℕ) (n m i crc : ℕ)
    → crc_loop buf (n + m) i crc ≡ crc_loop buf m (i + n) (crc_loop buf n i crc)
unfolding crc_loop
crc_loop-add buf zero m i crc = rw (zero-add, add-zero)
crc_loop-add buf (suc n) m i crc =
    let more : suc n + m ≡ suc (n + m) = omega arith in
    let there : i + suc n ≡ i + 1 + n = omega arith in
    rw (more, there) (crc_loop-add buf n m (i + 1) (crc_byte crc (buf i)))

-- Summing a frame together with its own checksum leaves 0.
pub crc16_residue :
    (buf : ℕ → ℕ) (n : ℕ)
    → buf n ≡ crc16 buf n % 256
    → buf (n + 1) ≡ crc16 buf n / 256
    → crc16 buf (n + 2) ≡ 0
unfolding crc16
crc16_residue buf n low high =
    rw (crc_loop-add buf n 2 0 0xffff, zero-add)
      (unfold crc_loop in
        rw (low, crc_byte_low, high) (crc_byte_self (crc_loop buf n 0 0xffff / 256)))
