-- ===== src/Base/Xor.antt =====
-- `^` on words at every width: its digits, its bound, and that it undoes itself.
use Prim.Native.Nat.{
  ℕ, zero, suc, ◌+◌, ◌*◌, ◌/◌, ◌%◌, ◌^◌, ◌≤◌, ◌<◌, digits, differ, bit_xor, bit_xor-bitwise,
}
use mathlib.Core.Path.{◌≡◌, refl, sym, ◌∙◌, ap}
use native.Mathlib.Nat.{pow-suc}
use native.Mathlib.Omega.{arith}

abbrev xor_digits : ℕ → ℕ → ℕ → ℕ
xor_digits n a b = digits (λ b. b) differ n a b

-- Any fuel that is not below the first word gives the same digits.
enough_fuel :
    (left right x y : ℕ) → x ≤ left → x ≤ right → xor_digits left x y ≡ xor_digits right x y
enough_fuel zero zero x y l r = refl
enough_fuel zero (suc right) zero y l r = refl
enough_fuel zero (suc right) (suc x) y l r = absurd (omega arith)
enough_fuel (suc left) zero zero y l r = refl
enough_fuel (suc left) zero (suc x) y l r = absurd (omega arith)
enough_fuel (suc left) (suc right) zero y l r = refl
enough_fuel (suc left) (suc right) (suc x) y l r =
    omega (arith, enough_fuel left right (suc x / 2) (y / 2) (omega arith) (omega arith))

zero-bit_xor : (b : ℕ) → bit_xor 0 b ≡ b
zero-bit_xor b = bit_xor-bitwise 0 b

-- The lowest digit of an exclusive or, and the rest.
pub bit_xor_step : (a b : ℕ) → bit_xor a b ≡ bit_xor (a / 2) (b / 2) * 2 + differ (a % 2) (b % 2)
bit_xor_step zero b = omega (arith, zero-bit_xor b, zero-bit_xor (b / 2))
bit_xor_step (suc a) b = omega (
  arith,
  bit_xor-bitwise (suc a) b,
  bit_xor-bitwise (suc a / 2) (b / 2),
  enough_fuel a (suc a / 2) (suc a / 2) (b / 2) (omega arith) (omega arith),
)

differ-lt : (a b : ℕ) → a < 2 → b < 2 → differ a b < 2
differ-lt zero b h k = k
differ-lt (suc a) zero h k = h
differ-lt (suc a) (suc b) h k = differ-lt a b (omega arith) (omega arith)

differ_cancel : (a b : ℕ) → a < 2 → b < 2 → differ (differ a b) b ≡ a
differ_cancel zero zero h k = refl
differ_cancel zero (suc zero) h k = refl
differ_cancel (suc zero) zero h k = refl
differ_cancel (suc zero) (suc zero) h k = refl
differ_cancel (suc (suc a)) b h k = absurd (omega arith)
differ_cancel zero (suc (suc b)) h k = absurd (omega arith)
differ_cancel (suc zero) (suc (suc b)) h k = absurd (omega arith)

differ_self : (a : ℕ) → differ a a ≡ 0
differ_self zero = refl
differ_self (suc a) = differ_self a

differ_comm : (a b : ℕ) → differ a b ≡ differ b a
differ_comm zero zero = refl
differ_comm zero (suc b) = refl
differ_comm (suc a) zero = refl
differ_comm (suc a) (suc b) = differ_comm a b

pub bit_xor_half : (a b : ℕ) → bit_xor a b / 2 ≡ bit_xor (a / 2) (b / 2)
bit_xor_half a b =
    omega (arith, bit_xor_step a b, differ-lt (a % 2) (b % 2) (omega arith) (omega arith))

pub bit_xor_odd : (a b : ℕ) → bit_xor a b % 2 ≡ differ (a % 2) (b % 2)
bit_xor_odd a b =
    omega (arith, bit_xor_step a b, differ-lt (a % 2) (b % 2) (omega arith) (omega arith))

cancel_fuel : (n a b : ℕ) → a ≤ n → b ≤ n → bit_xor (bit_xor a b) b ≡ a
cancel_fuel zero zero zero p q = refl
cancel_fuel zero zero (suc b) p q = absurd (omega arith)
cancel_fuel zero (suc a) b p q = absurd (omega arith)
cancel_fuel (suc n) a b p q =
    rw (bit_xor_step (bit_xor a b) b, bit_xor_half a b, bit_xor_odd a b)
      (omega (
        arith,
        cancel_fuel n (a / 2) (b / 2) (omega arith) (omega arith),
        differ_cancel (a % 2) (b % 2) (omega arith) (omega arith),
      ))

-- The same word twice changes nothing.
pub bit_xor_cancel : (a b : ℕ) → bit_xor (bit_xor a b) b ≡ a
bit_xor_cancel a b = cancel_fuel (a + b) a b (omega arith) (omega arith)

comm_fuel : (n a b : ℕ) → a ≤ n → b ≤ n → bit_xor a b ≡ bit_xor b a
comm_fuel zero zero zero p q = refl
comm_fuel zero zero (suc b) p q = absurd (omega arith)
comm_fuel zero (suc a) b p q = absurd (omega arith)
comm_fuel (suc n) a b p q = omega (
  arith,
  bit_xor_step a b,
  bit_xor_step b a,
  comm_fuel n (a / 2) (b / 2) (omega arith) (omega arith),
  differ_comm (a % 2) (b % 2),
)

pub bit_xor_comm : (a b : ℕ) → bit_xor a b ≡ bit_xor b a
bit_xor_comm a b = comm_fuel (a + b) a b (omega arith) (omega arith)

pub bit_xor_self : (a : ℕ) → bit_xor a a ≡ 0
bit_xor_self a = ap (λ x. bit_xor x a) (sym (zero-bit_xor a)) ∙ bit_xor_cancel 0 a

pub bit_xor-zero : (a : ℕ) → bit_xor a 0 ≡ a
bit_xor-zero a = bit_xor_comm a 0 ∙ zero-bit_xor a

pub bit_xor_cancel_right : {a b : ℕ} (k : ℕ) → bit_xor a k ≡ bit_xor b k → a ≡ b
bit_xor_cancel_right {a} {b} k e =
    sym (bit_xor_cancel a k) ∙ ap (λ x. bit_xor x k) e ∙ bit_xor_cancel b k

pub bit_xor_cancel_left : {a b : ℕ} (k : ℕ) → bit_xor k a ≡ bit_xor k b → a ≡ b
bit_xor_cancel_left {a} {b} k e = bit_xor_cancel_right k (bit_xor_comm a k ∙ e ∙ bit_xor_comm k b)

-- A word of `k` digits stays one.
pub bit_xor-lt : (k a b : ℕ) → a < 2 ^ k → b < 2 ^ k → bit_xor a b < 2 ^ k
bit_xor-lt zero a b p q =
    let za : a ≡ 0 = omega arith in let zb : b ≡ 0 = omega arith in rw (za, zb) (omega arith)
bit_xor-lt (suc k) a b p q = omega (
  arith,
  pow-suc 2 k,
  bit_xor_half a b,
  bit_xor-lt k (a / 2) (b / 2) (omega (arith, pow-suc 2 k)) (omega (arith, pow-suc 2 k)),
)

one_place_up : (k h : ℕ) → 2 * (h * 2 ^ k) ≡ h * 2 ^ suc k
one_place_up k h =
    let e : h * 2 ^ suc k ≡ h * (2 ^ k * 2) = ap (λ p. h * p) (pow-suc 2 k) in omega (arith, e)

-- Taking out the low `k` digits of a word leaves the high ones.
pub bit_xor_low : (k h l : ℕ) → l < 2 ^ k → bit_xor (h * 2 ^ k + l) l ≡ h * 2 ^ k
bit_xor_low zero h l fits =
    let zl : l ≡ 0 = omega arith in rw zl (bit_xor-zero (h * 2 ^ 0 + 0) ∙ omega arith)
bit_xor_low (suc k) h l fits =
    let two : 2 ^ suc k ≡ 2 * 2 ^ k = pow-suc 2 k ∙ omega arith in
    let low : l / 2 < 2 ^ k = omega arith in
    let shifted : h * 2 ^ suc k + l ≡ 2 * (h * 2 ^ k) + l = omega (arith, one_place_up k h) in
    let halved : (2 * (h * 2 ^ k) + l) / 2 ≡ h * 2 ^ k + l / 2 = omega arith in
    let same : differ ((2 * (h * 2 ^ k) + l) % 2) (l % 2) ≡ 0 =
      let e : (2 * (h * 2 ^ k) + l) % 2 ≡ l % 2 = omega arith in rw e (differ_self (l % 2)) in
    rw shifted (
      omega (
        arith,
        bit_xor_step (2 * (h * 2 ^ k) + l) l,
        ap (λ x. bit_xor x (l / 2)) halved,
        same,
        bit_xor_low k h (l / 2) low,
        one_place_up k h,
      ))
