-- ===== src/Publish/Hash.antt =====
-- FNV-1a tells texts apart that differ in one character.
use modbusmq.Base.{ℕ, ◌*◌, ◌%◌, ◌^◌, ◌<◌, ◌≡◌, sym, ap, ◌∙◌, List, [], ◌∷◌, ◌++◌, arith, All}
use Prim.Native.Nat.{bit_xor}
use modbusmq.Base.Xor.{bit_xor_cancel_right, bit_xor_cancel_left, bit_xor-lt}
use modbusmq.Publish.{hash_step, hash_loop, text_hash}

-- The factor is odd, so that it has an inverse.
times_prime_back : (a : ℕ) → a < 2 ^ 32 → a * 16777619 % 2 ^ 32 * 899433627 % 2 ^ 32 ≡ a
times_prime_back a p = omega arith

times_prime_cancel :
    (a b : ℕ) → a < 2 ^ 32 → b < 2 ^ 32 → a * 16777619 % 2 ^ 32 ≡ b * 16777619 % 2 ^ 32 → a ≡ b
times_prime_cancel a b p q e =
    sym (times_prime_back a p) ∙ ap (λ x. x * 899433627 % 2 ^ 32) e ∙ times_prime_back b q

hash_step-lt : (h c : ℕ) → hash_step h c < 2 ^ 32
unfolding hash_step
hash_step-lt h c = omega arith

hash_step_cancel :
    (h k : ℕ) (c : ℕ) → h < 2 ^ 32 → k < 2 ^ 32 → c < 256 → hash_step h c ≡ hash_step k c → h ≡ k
unfolding hash_step
hash_step_cancel h k c p q r e = bit_xor_cancel_right c (
    times_prime_cancel (bit_xor h c) (bit_xor k c) (bit_xor-lt 32 h c p (omega arith))
      (bit_xor-lt 32 k c q (omega arith)) e)

hash_step_char :
    (h : ℕ) (a b : ℕ) → h < 2 ^ 32 → a < 256 → b < 256 → hash_step h a ≡ hash_step h b → a ≡ b
unfolding hash_step
hash_step_char h a b p q r e = bit_xor_cancel_left h (
    times_prime_cancel (bit_xor h a) (bit_xor h b) (bit_xor-lt 32 h a p (omega arith))
      (bit_xor-lt 32 h b p (omega arith)) e)

hash_loop_cancel :
    (h k : ℕ) (text : List ℕ)
    → h < 2 ^ 32
    → k < 2 ^ 32
    → All (λ c. c < 256) text
    → hash_loop h text ≡ hash_loop k text
    → h ≡ k
unfolding hash_loop
hash_loop_cancel h k [] p q r e = e
hash_loop_cancel h k (c ∷ text) p q r e = hash_step_cancel h k c p q r.0 (
    hash_loop_cancel (hash_step h c) (hash_step k c) text (hash_step-lt h c) (hash_step-lt k c) r.1
      e)

hash_loop_char :
    (h : ℕ) (before : List ℕ) (a b : ℕ) (behind : List ℕ)
    → h < 2 ^ 32
    → a < 256
    → b < 256
    → All (λ c. c < 256) behind
    → hash_loop h (before ++ a ∷ behind) ≡ hash_loop h (before ++ b ∷ behind)
    → a ≡ b
unfolding hash_loop
hash_loop_char h [] a b behind p q r s e = hash_step_char h a b p q r (
    hash_loop_cancel (hash_step h a) (hash_step h b) behind (hash_step-lt h a) (hash_step-lt h b) s
      e)
hash_loop_char h (c ∷ before) a b behind p q r s e =
    hash_loop_char (hash_step h c) before a b behind (hash_step-lt h c) q r s e

pub text_hash_char :
    (before : List ℕ) (a b : ℕ) (behind : List ℕ)
    → a < 256
    → b < 256
    → All (λ c. c < 256) behind
    → text_hash (before ++ a ∷ behind) ≡ text_hash (before ++ b ∷ behind)
    → a ≡ b
unfolding text_hash
text_hash_char before a b behind p q r e =
    hash_loop_char 2166136261 before a b behind (omega arith) p q r e
