-- ===== src/Rtu/Crc/Injective.antt =====
-- The checksum tells apart any two frames that differ in one byte.
use Prim.Native.Nat.{bit_xor}
use modbusmq.Base.{
  ℕ, zero, suc, ◌+◌, ◌/◌, ◌^◌, ◌≤◌, ◌<◌, ◌≡◌, sym, ap, ◌∙◌, ◌≢◌, inl, inr, arith, Bool-cases, ◌==◌,
  ==→eq,
}
use modbusmq.Base.Xor.{
  bit_xor-lt, bit_xor_cancel_left, bit_xor_cancel_right, bit_xor_cancel, bit_xor_comm,
}
use modbusmq.Frame.{IsBytes}
use modbusmq.Rtu.Crc.{crc_bit, crc_bits, crc_byte, crc_loop, crc16}

-- The polynomial has its top bit set, and a shifted word does not.
le-polynomial : (x : ℕ) → x < 2 ^ 15 → 2 ^ 15 ≤ bit_xor x 0xa001
le-polynomial x h = grind (
  arith,
  bit_xor-lt 15 (bit_xor x 0xa001) x,
  ap (λ t. bit_xor t x) (bit_xor_comm x 0xa001),
  bit_xor_cancel 0xa001 x,
)

pub crc_bit-lt : (crc : ℕ) → crc < 2 ^ 16 → crc_bit crc < 2 ^ 16
unfolding crc_bit
crc_bit-lt crc h = ground (arith, bit_xor-lt 16 (crc / 2) 0xa001)

crc_bit_injective : (x y : ℕ) → x < 2 ^ 16 → y < 2 ^ 16 → crc_bit x ≡ crc_bit y → x ≡ y
unfolding crc_bit
crc_bit_injective x y hx hy e = ground (
  arith,
  le-polynomial (x / 2),
  le-polynomial (y / 2),
  bit_xor_cancel (x / 2) 0xa001,
  bit_xor_cancel (y / 2) 0xa001,
)

crc_bits-lt : (n crc : ℕ) → crc < 2 ^ 16 → crc_bits n crc < 2 ^ 16
unfolding crc_bits
crc_bits-lt zero crc h = h
crc_bits-lt (suc n) crc h = crc_bits-lt n (crc_bit crc) (crc_bit-lt crc h)

crc_bits_injective : (n x y : ℕ) → x < 2 ^ 16 → y < 2 ^ 16 → crc_bits n x ≡ crc_bits n y → x ≡ y
unfolding crc_bits
crc_bits_injective zero x y hx hy e = e
crc_bits_injective (suc n) x y hx hy e =
    crc_bit_injective x y hx hy
      (crc_bits_injective n (crc_bit x) (crc_bit y) (crc_bit-lt x hx) (crc_bit-lt y hy) e)

xor_byte-lt : (crc b : ℕ) → crc < 2 ^ 16 → b < 256 → bit_xor crc b < 2 ^ 16
xor_byte-lt crc b h k = bit_xor-lt 16 crc b h (omega arith)

crc_byte-lt : (crc b : ℕ) → crc < 2 ^ 16 → b < 256 → crc_byte crc b < 2 ^ 16
unfolding crc_byte
crc_byte-lt crc b h k = crc_bits-lt 8 (bit_xor crc b) (xor_byte-lt crc b h k)

-- One byte into two registers.
crc_byte_injective :
    (x y b : ℕ) → x < 2 ^ 16 → y < 2 ^ 16 → b < 256 → crc_byte x b ≡ crc_byte y b → x ≡ y
unfolding crc_byte
crc_byte_injective x y b hx hy hb e = bit_xor_cancel_right b (
    crc_bits_injective 8 (bit_xor x b) (bit_xor y b) (xor_byte-lt x b hx hb) (xor_byte-lt y b hy hb)
      e)

-- Two bytes into one register.
crc_byte_tells :
    (crc a b : ℕ) → crc < 2 ^ 16 → a < 256 → b < 256 → crc_byte crc a ≡ crc_byte crc b → a ≡ b
unfolding crc_byte
crc_byte_tells crc a b h ha hb e = bit_xor_cancel_left crc (
    crc_bits_injective 8 (bit_xor crc a) (bit_xor crc b) (xor_byte-lt crc a h ha)
      (xor_byte-lt crc b h hb) e)

crc_loop-lt :
    (buf : ℕ → ℕ) (n i crc : ℕ) → IsBytes buf → crc < 2 ^ 16 → crc_loop buf n i crc < 2 ^ 16
unfolding crc_loop
crc_loop-lt buf zero i crc bytes h = h
crc_loop-lt buf (suc n) i crc bytes h =
    crc_loop-lt buf n (i + 1) (crc_byte crc (buf i)) bytes (crc_byte-lt crc (buf i) h (bytes i))

-- The checksum fits the two bytes that carry it.
pub crc16-lt : (buf : ℕ → ℕ) (n : ℕ) → IsBytes buf → crc16 buf n < 2 ^ 16
unfolding crc16
crc16-lt buf n bytes = crc_loop-lt buf n 0 0xffff bytes (omega arith)

-- `a` and `b` hold the same bytes but at index `k`.
abbrev pub AgreeBut : ℕ → (ℕ → ℕ) → (ℕ → ℕ) → Type 0
AgreeBut k a b = (i : ℕ) → i ≢ k → a i ≡ b i

module _ (a b : ℕ → ℕ) (k : ℕ) (a_bytes : IsBytes a) (b_bytes : IsBytes b)
    (agree : AgreeBut k a b) where
  -- Behind the changed byte the registers stay apart.
  crc_loop_injective :
      (n i x y : ℕ) → k < i → x < 2 ^ 16 → y < 2 ^ 16 → crc_loop a n i x ≡ crc_loop b n i y → x ≡ y
  unfolding crc_loop
  crc_loop_injective zero i x y past hx hy e = e
  crc_loop_injective (suc n) i x y past hx hy e =
      let rest : crc_byte x (a i) ≡ crc_byte y (b i) =
        crc_loop_injective n (i + 1) (crc_byte x (a i)) (crc_byte y (b i)) (omega arith)
          (crc_byte-lt x (a i) hx (a_bytes i)) (crc_byte-lt y (b i) hy (b_bytes i)) e in
      crc_byte_injective x y (a i) hx hy (a_bytes i)
        (rest ∙ ap (crc_byte y) (sym (agree i (omega arith))))

  crc_loop_tells :
      (n i crc : ℕ)
      → i ≤ k
      → k < i + n
      → crc < 2 ^ 16
      → crc_loop a n i crc ≡ crc_loop b n i crc
      → a k ≡ b k
  unfolding crc_loop
  crc_loop_tells zero i crc before inside h e = absurd (omega arith)
  crc_loop_tells (suc n) i crc before inside h e = elim (Bool-cases (i == k)) [
    | inl here ↦
        let same : i ≡ k = ==→eq i k here in
        let step : crc_byte crc (a i) ≡ crc_byte crc (b i) =
          crc_loop_injective n (i + 1) (crc_byte crc (a i)) (crc_byte crc (b i)) (omega arith)
            (crc_byte-lt crc (a i) h (a_bytes i)) (crc_byte-lt crc (b i) h (b_bytes i)) e in
        rw (← same) (crc_byte_tells crc (a i) (b i) h (a_bytes i) (b_bytes i) step)
    | inr later ↦
        let ne : i ≢ k = ground arith in
        crc_loop_tells n (i + 1) (crc_byte crc (a i)) (ground arith) (omega arith)
          (crc_byte-lt crc (a i) h (a_bytes i))
          (e ∙ ap (λ t. crc_loop b n (i + 1) (crc_byte crc t)) (sym (agree i ne)))
  ]

  -- Frames that differ in one of the bytes summed have different checksums.
  pub crc16_tells : (n : ℕ) → k < n → crc16 a n ≡ crc16 b n → a k ≡ b k
  unfolding crc16
  crc16_tells n inside e = crc_loop_tells n 0 0xffff (omega arith) (omega arith) (omega arith) e
