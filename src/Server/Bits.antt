-- ===== src/Server/Bits.antt =====
-- The bits of the payload of coils.
use modbusmq.Frame.{put, IsBytes}
use mathlib.Core.Path.{subst, ap}
use modbusmq.Base.{
  ℕ, ◌+◌, ◌/◌, ◌%◌, ◌^◌, ◌<◌, ◌≡◌, inl, inr, refl, sym, arith, Bool, true, false, Bool-cases, ◌==◌,
  if◌then◌else◌, ◌||◌, ◌&&◌, not, suc, zero, ==→eq, ◌∙◌, ap,
}
use modbusmq.Server.{set_bit, put}

-- Is coil `k` of the payload on?
abbrev pub coil_on : (ℕ → ℕ) → ℕ → Bool
coil_on buf k = buf (9 + k / 8) / 2 ^ (k % 8) % 2 == 1

-- A test of every number below `n`.
unfoldable pub all_below : ℕ → (ℕ → Bool) → Bool
all_below zero test = true
all_below (suc n) test = test n && all_below n test

pub all_below_lem :
    (n : ℕ) (test : ℕ → Bool) → all_below n test ≡ true → (k : ℕ) → k < n → test k ≡ true
unfolding all_below
all_below_lem zero test all k h = absurd (omega (arith, h))
all_below_lem (suc n) test all k h = elim (Bool-cases (k == n)) [
  | inl last ↦ subst (λ j. test j ≡ true) (sym (==→eq k n last)) (ground (arith, all))
  | inr before ↦ all_below_lem n test (ground (arith, all)) k (ground (arith, h, before))
]

-- A byte with one bit more, at every bit.
abbrev bit_set_right : ℕ → ℕ → ℕ → Bool
bit_set_right bit k v =
    not (v / 2 ^ bit % 2 == 0)
    || ((v + 2 ^ bit) % 256 / 2 ^ k % 2 == (if k == bit then 1 else v / 2 ^ k % 2))

every_bit_set : all_below 8 (λ bit. all_below 8 (λ k. all_below 256 (bit_set_right bit k))) ≡ true
unfolding all_below
every_bit_set = refl

bit_set_byte : (v bit k : ℕ) → v < 256 → bit < 8 → k < 8 → bit_set_right bit k v ≡ true
bit_set_byte v bit k small b8 k8 =
    let at_bit =
      all_below_lem 8 (λ b. all_below 8 (λ j. all_below 256 (bit_set_right b j))) every_bit_set bit
        b8 in
    let at_k = all_below_lem 8 (λ j. all_below 256 (bit_set_right bit j)) at_bit k k8 in
    all_below_lem 256 (bit_set_right bit k) at_k v small

put_at : (buf : ℕ → ℕ) (i v j : ℕ) → put buf i v j ≡ (if j == i then v % 256 else buf j)
put_at buf i v j = refl

already_on :
    (buf : ℕ → ℕ) (i k : ℕ) → coil_on buf i ≡ true → coil_on buf k ≡ ((i == k) || coil_on buf k)
already_on buf i k set = elim (Bool-cases (i == k)) [
  | inl same ↦ rw same (subst (λ j. coil_on buf j ≡ true) (==→eq i k same) set)
  | inr other ↦ rw other refl
]

bit_or :
    (test : Bool) (new old at : ℕ)
    → (not (at == 0) || (new == (if test then 1 else old))) ≡ true
    → at < 2
    → (at == 1) ≡ false
    → (new == 1) ≡ (test || (old == 1))
bit_or true new old at right small clear = ground (arith, right, small, clear)
bit_or false new old at right small clear = ground (arith, right, small, clear)

same_coil : (i k : ℕ) → (9 + k / 8 == 9 + i / 8) ≡ true → (k % 8 == i % 8) ≡ (i == k)
same_coil i k byte_same = ground (arith, byte_same)

other_coil : (i k : ℕ) → (9 + k / 8 == 9 + i / 8) ≡ false → (i == k) ≡ false
other_coil i k byte_other = ground (arith, byte_other)

newly_on :
    (buf : ℕ → ℕ) (i k : ℕ)
    → IsBytes buf
    → (buf (9 + i / 8) / 2 ^ (i % 8) % 2 == 1) ≡ false
    → coil_on (put buf (9 + i / 8) (buf (9 + i / 8) + 2 ^ (i % 8))) k ≡ ((i == k) || coil_on buf k)
newly_on buf i k bytes clear =
    let v = buf (9 + i / 8) in
    elim (Bool-cases (9 + k / 8 == 9 + i / 8)) [
      | inl here ↦
          let there : 9 + k / 8 ≡ 9 + i / 8 = ==→eq (9 + k / 8) (9 + i / 8) here in
          rw here (
            bit_or (k % 8 == i % 8) ((v + 2 ^ (i % 8)) % 256 / 2 ^ (k % 8) % 2)
              (v / 2 ^ (k % 8) % 2) (v / 2 ^ (i % 8) % 2)
              (bit_set_byte v (i % 8) (k % 8) (bytes (9 + i / 8)) (omega arith) (omega arith))
              (omega arith) clear
            ∙ ap (λ b. b || (v / 2 ^ (k % 8) % 2 == 1)) (same_coil i k here)
            ∙ ap (λ j. (i == k) || (buf j / 2 ^ (k % 8) % 2 == 1)) (sym there))
      | inr away ↦ rw (away, other_coil i k away) refl
    ]

pub set_bit_on :
    (buf : ℕ → ℕ) (i k : ℕ)
    → IsBytes buf
    → coil_on (set_bit buf (9 + i / 8) (i % 8)) k ≡ ((i == k) || coil_on buf k)
unfolding set_bit
set_bit_on buf i k bytes = elim (Bool-cases (buf (9 + i / 8) / 2 ^ (i % 8) % 2 == 1)) [
  | inl set ↦ rw set (already_on buf i k set)
  | inr clear ↦ rw clear (newly_on buf i k bytes clear)
]
