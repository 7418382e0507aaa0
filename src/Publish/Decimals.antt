-- ===== src/Publish/Decimals.antt =====
-- The decimals that `modbusmq_channel_decimals` finds in a divisor.
use mathlib.Core.Path.{subst}
use native.Mathlib.Nat.{pow-suc}
use modbusmq.Base.{
  ℕ, zero, suc, ◌+◌, ◌*◌, ◌/◌, ◌%◌, ◌^◌, ◌≤◌, ◌<◌, ◌≡◌, ◌≢◌, refl, sym, ap, ◌∙◌, Bool, true, false,
  ◌==◌, ltb, if◌then◌else◌, negsuc, none, arith, ◌&&◌, inl, inr, not, ◌⊎◌, Bool-cases, ==→eq, List,
  ◌∷◌, get_or, [],
}
use modbusmq.Publish.{
  peel_tens, mod_decimals, channel_decimals, Channel, is_float_format, strip_sign, all_zero,
  channel_format_value, Floats,
}

-- No factor of 10 is left to take off.
abbrev pub is_peeled : ℕ → Bool
is_peeled n = not (ltb 1 n && n % 10 == 0)

divides : (n : ℕ) → (ltb 1 n && n % 10 == 0) ≡ true → n ≡ n / 10 * 10
divides n e = ground arith

over_ten : (n p : ℕ) → n ≡ p * 10 → 1 ≤ p → (ltb 1 n && n % 10 == 0) ≡ true
over_ten n p e h = ground arith

mul_assoc_swap : (q p : ℕ) → q * (p * 10) ≡ q * 10 * p
mul_assoc_swap q p = omega arith

scaled : (n tens : ℕ) → n ≡ n / 10 * 10 → n / 10 * 10 ^ (tens + 1) ≡ n * 10 ^ tens
scaled n tens e =
    let ten : 10 ^ (tens + 1) ≡ 10 ^ tens * 10 = ap (λ k. 10 ^ k) (omega arith) ∙ pow-suc 10 tens in
    rw ten (mul_assoc_swap (n / 10) (10 ^ tens) ∙ ap (λ m. m * 10 ^ tens) (sym e))

peel_step :
    (test : Bool) (fuel n tens : ℕ) (rest : ℕ × ℕ)
    → (ltb 1 n && n % 10 == 0) ≡ test
    → (test ≡ true → (is_peeled rest.0 ≡ true) × (rest.0 * 10 ^ rest.1 ≡ n / 10 * 10 ^ (tens + 1)))
    → (is_peeled (if test then rest else (n, tens)).0 ≡ true)
      × ((if test then rest else (n, tens)).0 * 10 ^ (if test then rest else (n, tens)).1
          ≡ n * 10 ^ tens)
peel_step true fuel n tens rest e h =
    let ended = h refl in
    let split : n ≡ n / 10 * 10 = divides n e in (ended.0, ended.1 ∙ scaled n tens split)
peel_step false fuel n tens rest e h = (ap not e, refl)

-- The loop takes off factors of 10 until none is left, and each counts as one place: with the divisor itself as a bound on its turns it always ends so.
pub peel_tens_ends :
    (fuel n tens : ℕ)
    → n ≤ fuel
    → (is_peeled (peel_tens fuel n tens).0 ≡ true)
      × ((peel_tens fuel n tens).0 * 10 ^ (peel_tens fuel n tens).1 ≡ n * 10 ^ tens)
unfolding peel_tens
peel_tens_ends zero n tens enough = (ground arith, refl)
peel_tens_ends (suc fuel) n tens enough =
    peel_step (ltb 1 n && n % 10 == 0) fuel n tens (peel_tens fuel (n / 10) (tens + 1)) refl
      (λ e. peel_tens_ends fuel (n / 10) (tens + 1) (omega (arith, divides n e)))

power_positive : (k : ℕ) → 1 ≤ 10 ^ k
power_positive zero = omega arith
power_positive (suc k) = omega (arith, pow-suc 10 k, power_positive k)

peel_tens-power : (fuel k tens : ℕ) → k ≤ fuel → peel_tens fuel (10 ^ k) tens ≡ (1, tens + k)
unfolding peel_tens
peel_tens-power zero zero tens enough = ap (λ t. (1, t)) (omega arith)
peel_tens-power zero (suc k) tens enough = absurd (omega arith)
peel_tens-power (suc fuel) zero tens enough = ap (λ t. (1, t)) (omega arith)
peel_tens-power (suc fuel) (suc k) tens enough =
    let ten : 10 ^ suc k ≡ 10 ^ k * 10 = pow-suc 10 k in
    let test : (ltb 1 (10 ^ suc k) && 10 ^ suc k % 10 == 0) ≡ true =
      over_ten (10 ^ suc k) (10 ^ k) ten (power_positive k) in
    let less : 10 ^ suc k / 10 ≡ 10 ^ k = omega (arith, ten) in
    rw (test, less)
      (peel_tens-power fuel k (tens + 1) (omega arith) ∙ ap (λ t. (1, t)) (omega arith))

power_over : (k : ℕ) → k < 10 ^ k
power_over zero = omega arith
power_over (suc k) = omega (arith, pow-suc 10 k, power_over k)

peeled_power : (m k : ℕ) → m ≡ 10 ^ k → peel_tens m m 0 ≡ (1, k)
peeled_power m k e =
    rw e
      (peel_tens-power (10 ^ k) k 0 (omega (arith, power_over k)) ∙ ap (λ t. (1, t)) (omega arith))

product_one : (m r t : ℕ) → r ≡ 1 → r * 10 ^ t ≡ m * 10 ^ 0 → m ≡ 10 ^ t
product_one m r t e product =
    let one : 1 * 10 ^ t ≡ m * 10 ^ 0 = sym (ap (λ x. x * 10 ^ t) e) ∙ product in omega (arith, one)

not_one : (r : ℕ) → (r == 1) ≡ false → r ≢ 1
not_one r e h = ground arith

-- What the loop finds, or 3.
abbrev places : ℕ × ℕ → ℕ
places found = if found.0 == 1 then found.1 else 3

places_found :
    (m : ℕ) (found : ℕ × ℕ)
    → peel_tens m m 0 ≡ found
    → ((k : ℕ) × (m ≡ 10 ^ k) × (places found ≡ k)) ⊎ (((j : ℕ) → m ≢ 10 ^ j) × (places found ≡ 3))
places_found m (remaining, tens) e = elim (Bool-cases (remaining == 1)) [
  | inl one ↦ inl (
    tens,
    product_one m remaining tens (==→eq remaining 1 one)
        (sym (ap (λ f. f.0 * 10 ^ f.1) e) ∙ (peel_tens_ends m m 0 (omega arith)).1),
    rw one refl,
  )
  | inr more ↦ inr (
    λ j power.
        not_one remaining more (sym (ap (λ f. f.0) e) ∙ ap (λ f. f.0) (peeled_power m j power)),
    rw more refl,
  )
]

-- Without an explicit number of decimals, an integer register with a negative divisor is printed to as many places as the divisor has zeros when it is a power of ten, and to 3 places when it is none.
pub channel_decimals_of_divisor :
    {F : Type 0} (channel : Channel F) (n : ℕ)
    → channel.decimals ≡ none
    → is_float_format channel.format ≡ false
    → channel.mod_by ≡ negsuc n
    → ((k : ℕ) × (suc n ≡ 10 ^ k) × (channel_decimals false channel ≡ k))
      ⊎ (((j : ℕ) → suc n ≢ 10 ^ j) × (channel_decimals false channel ≡ 3))
unfolding channel_decimals mod_decimals
channel_decimals_of_divisor channel n unset integral divisor =
    rw (unset, integral, divisor) (places_found (suc n) (peel_tens (suc n) (suc n) 0) refl)

abbrev tail_of : List ℕ → List ℕ
tail_of [] = []
tail_of (x ∷ xs) = xs

no_sign_ahead : (rest : List ℕ) → all_zero (45 ∷ rest) ≢ true
unfolding all_zero
no_sign_ahead rest h = ground arith

zeros_unsigned : (text rest : List ℕ) → all_zero text ≡ true → text ≢ 45 ∷ rest
zeros_unsigned text rest zeros e = no_sign_ahead rest (sym (ap all_zero e) ∙ zeros)

sign_stays :
    (test : Bool) (c : ℕ) (text rest : List ℕ)
    → (c == 45 && all_zero text) ≡ test
    → (if test then text else c ∷ text) ≡ 45 ∷ rest
    → (all_zero rest ≡ false) × (c ∷ text ≡ 45 ∷ rest)
sign_stays true c text rest t e = absurd (zeros_unsigned text rest (ground arith) e)
sign_stays false c text rest t e =
    let tail : text ≡ rest = ap (λ l. tail_of l) e in
    let head : c ≡ 45 = ap (λ l. get_or l 0 0) e in
    (subst (λ l. all_zero l ≡ false) tail (ground (arith, t, head)), e)

stripped :
    (text rest : List ℕ)
    → strip_sign text ≡ 45 ∷ rest
    → (all_zero rest ≡ false) × (text ≡ 45 ∷ rest)
unfolding strip_sign
stripped [] rest e = absurd (cc e)
stripped (c ∷ text) rest e = sign_stays (c == 45 && all_zero text) c text rest refl e

null_unsigned : (rest : List ℕ) → (110 ∷ 117 ∷ 108 ∷ 108 ∷ []) ≢ 45 ∷ rest
null_unsigned rest e = let head : 110 ≡ 45 = ap (λ l. get_or l 0 0) e in omega (arith, head)

-- A printed value begins with a minus sign only when one of its digits is not 0, and then it is the text that C prints.
pub no_negative_zero :
    {F : Type 0} (fl : Floats F) (is_bit : Bool) (channel : Channel F) (value : F) (rest : List ℕ)
    → channel_format_value fl is_bit channel value ≡ 45 ∷ rest
    → (all_zero rest ≡ false) × (fl.print (channel_decimals is_bit channel) value ≡ 45 ∷ rest)
unfolding channel_format_value
no_negative_zero fl is_bit channel value rest e = elim (Bool-cases (fl.is_nan value)) [
  | inl nan ↦ absurd (
      null_unsigned rest (
        sym (
          ap
            (λ b.
              if b
              then 110 ∷ 117 ∷ 108 ∷ 108 ∷ []
              else strip_sign (fl.print (channel_decimals is_bit channel) value))
            nan)
        ∙ e))
  | inr number ↦ stripped (fl.print (channel_decimals is_bit channel) value) rest (
      sym (
        ap
          (λ b.
            if b
            then 110 ∷ 117 ∷ 108 ∷ 108 ∷ []
            else strip_sign (fl.print (channel_decimals is_bit channel) value))
          number)
      ∙ e)
]
