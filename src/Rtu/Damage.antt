-- ===== src/Rtu/Damage.antt =====
-- An accepted answer with one byte changed on the wire.
use modbusmq.Base.{
  ℕ, zero, suc, ◌+◌, ◌-◌, ◌<◌, ◌≡◌, ◌≢◌, inl, inr, refl, arith, false, pos, sym, ◌∙◌, Bool-cases,
  ltb,
}
use modbusmq.Frame.{Msg, Context, IsExchange, IsBytes, put}
use modbusmq.Rtu.Crc.{crc16, crc_loop, crc_byte}
use modbusmq.Rtu.Crc.Injective.{crc16_tells, AgreeBut}
use modbusmq.Rtu.Check.{crc_at, msg_check, msg_broadcast}
use modbusmq.Rtu.Accept.{broadcast_of_first, msg_check_accepts_iff}

-- The exchange with byte `k` of what was received replaced by `v`.
abbrev pub damaged : ℕ → ℕ → Msg → Msg
damaged k v m = record m { second = record m.second { buf = put m.second.buf k v } }

crc_loop_ext :
    (a b : ℕ → ℕ) (n i crc : ℕ)
    → ((j : ℕ) → j < i + n → a j ≡ b j)
    → crc_loop a n i crc ≡ crc_loop b n i crc
unfolding crc_loop
crc_loop_ext a b zero i crc h = refl
crc_loop_ext a b (suc n) i crc h =
    rw (h i (omega arith))
      (crc_loop_ext a b n (i + 1) (crc_byte crc (b i)) (λ j p. h j (omega arith)))

-- The checksum reads only the bytes that it sums.
pub crc16_ext : (a b : ℕ → ℕ) (n : ℕ) → ((j : ℕ) → j < n → a j ≡ b j) → crc16 a n ≡ crc16 b n
unfolding crc16
crc16_ext a b n h = crc_loop_ext a b n 0 0xffff (λ j p. h j (omega arith))

module _ (buf : ℕ → ℕ) (k v n : ℕ) (bytes : IsBytes buf) (small : v < 256) where
  put-IsBytes : IsBytes (put buf k v)
  put-IsBytes i = ground (arith, bytes i)

  put_agrees : AgreeBut k buf (put buf k v)
  put_agrees i ne = ground arith

  -- Both buffers cannot carry the checksum of what stands before it.
  checksum_tells :
      k < n + 2
      → crc_at buf n ≡ crc16 buf n
      → crc_at (put buf k v) n ≡ crc16 (put buf k v) n
      → buf k ≡ v
  checksum_tells inside before after = elim (Bool-cases (ltb k n)) [
    | inl summed ↦ ground (arith, crc16_tells buf (put buf k v) k bytes put-IsBytes put_agrees n)
    | inr carried ↦ ground (
      arith,
      bytes n,
      bytes (n + 1),
      crc16_ext buf (put buf k v) n (λ j p. put_agrees j (ground arith)),
    )
  ]

-- No answer to a request other than a broadcast, received as bytes and accepted, is accepted with
-- one of its bytes replaced by another, be it in the header, in the data or in the checksum.
pub msg_check_damaged :
    (c : Context) (m : Msg) (k v : ℕ)
    → IsExchange m
    → msg_broadcast m ≡ false
    → IsBytes m.second.buf
    → (msg_check c m).0 ≡ pos 0
    → k < m.second.xmit
    → v < 256
    → v ≢ m.second.buf k
    → (msg_check c (damaged k v m)).0 ≢ pos 0
msg_check_damaged c m k v x nb bytes accepted inside small differs again =
    let nb' : msg_broadcast (damaged k v m) ≡ false =
      broadcast_of_first c m x (damaged k v m).second ∙ nb in
    let x' : IsExchange (damaged k v m) = record {
      first_writes = x.first_writes;
      second_reads = x.second_reads;
    } in
    let a = (msg_check_accepts_iff c m x nb).0 accepted in
    let a' = (msg_check_accepts_iff c (damaged k v m) x' nb').0 again in
    differs (
      sym (
        checksum_tells m.second.buf k v (m.second.xmit - 2) bytes small
          (omega (arith, a.1.at_least)) a.1.checksum a'.1.checksum))
