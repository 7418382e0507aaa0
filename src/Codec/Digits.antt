-- ===== src/Codec/Digits.antt =====
-- Digits that are encoded are read back, right-aligned.
use modbusmq.Frame.{put}
use modbusmq.Codec.Text.{
  text_index, is_digit, digit_at, encode_bcd_loop, bcd_loop, text_byte_put, text_byte, two_chars,
  encode_bcd, text_bcd, cleared_field,
}
use modbusmq.Base.{
  ℕ, ◌≡◌, arith, Bool, ◌<◌, List, true, ◌*◌, ◌-◌, ◌+◌, some, if◌then◌else◌, length, ltb, get_or,
  suc, [], ◌∷◌, zero, refl, ap, Option, ◌/◌, ◌≤◌, Bool-cases, ◌==◌, ◌||◌, ◌∙◌, ◌%◌, none, inl, inr,
  sym, false,
}

pub index_injective :
    (swap : Bool) (size i k : ℕ)
    → i < size
    → k < size
    → text_index swap size k ≡ text_index swap size i
    → k ≡ i
unfolding text_index
index_injective true size i k hi hk same = ground (arith, hi, hk, same)
index_injective false size i k hi hk same = ground (arith, hi, hk, same)

pub index_bound : (swap : Bool) (size i : ℕ) → i < size → text_index swap size i < size
unfolding text_index
index_bound true size i h = ground (arith, h)
index_bound false size i h = ground (arith, h)

pub put_same : (buf : ℕ → ℕ) (i v : ℕ) → v < 256 → put buf i v i ≡ v
put_same buf i v h = ground (arith, h)

pub put_other : (buf : ℕ → ℕ) (i v j : ℕ) → (j ≡ i → ⊥) → put buf i v j ≡ buf j
put_other buf i v j other = elim (Bool-cases (j == i)) [
  | inl at ↦ absurd (other (ground (arith, at)))
  | inr away ↦ rw away refl
]

-- Two characters, and those behind them.
spelled_from :
    (f : ℕ → ℕ) (start : ℕ) (chars : List ℕ) (room : ℕ)
    → ((n : ℕ) → n < room → get_or chars n 0 ≡ f (start + 2 + n))
    → (n : ℕ) → n < 2 + room
    → get_or (f start ∷ f (start + 1) ∷ chars) n 0 ≡ f (start + n)
spelled_from f start chars room spelled zero h = ap f (omega arith)
spelled_from f start chars room spelled (suc zero) h = refl
spelled_from f start chars room spelled (suc (suc n)) h =
    spelled n (omega (arith, h)) ∙ ap f (omega arith)

-- The byte of two digits.
abbrev packed_byte : List ℕ → ℕ → ℕ → ℕ
packed_byte text pad i =
    (digit_at text pad (i * 2) - 48) * 16 + (digit_at text pad (i * 2 + 1) - 48)

digit_bounds_of : (c : ℕ) → is_digit c ≡ true → (48 ≤ c) × (c ≤ 57)
digit_bounds_of c e = (ground (arith, e), ground (arith, e))

bcd_step :
    (high low d0 d1 : ℕ) (chars : List ℕ) (rest : Option (List ℕ))
    → high ≡ d0 - 48
    → low ≡ d1 - 48
    → (48 ≤ d0) × (d0 ≤ 57)
    → (48 ≤ d1) × (d1 ≤ 57)
    → rest ≡ some chars
    → (if ltb 9 high || ltb 9 low then none else two_chars (48 + high) (48 + low) rest)
      ≡ some (d0 ∷ d1 ∷ chars)
unfolding two_chars
bcd_step high low d0 d1 chars rest h l b0 b1 e =
    let small : (ltb 9 high || ltb 9 low) ≡ false = ground (arith, h, l, b0, b1) in
    let first : 48 + high ≡ d0 = omega (arith, h, b0) in
    let second : 48 + low ≡ d1 = omega (arith, l, b1) in rw (small, first, second, e) refl

module _ (swap : Bool) (text : List ℕ) (pad size : ℕ)
    (digits : (n : ℕ) → n < size * 2 → is_digit (digit_at text pad n) ≡ true) where
  abbrev packed : ℕ → ℕ
  packed i = packed_byte text pad i

  digit_bounds : (n : ℕ) → n < size * 2 → (48 ≤ digit_at text pad n) × (digit_at text pad n ≤ 57)
  digit_bounds n h = digit_bounds_of (digit_at text pad n) (digits n h)

  packed-lt : (i : ℕ) → i < size → packed i < 256
  packed-lt i h =
      omega (
        arith,
        digit_bounds (i * 2) (omega (arith, h)),
        digit_bounds (i * 2 + 1) (omega (arith, h)),
      )

  encoded :
      (left i : ℕ) (out : ℕ → ℕ)
      → i + left ≡ size
      → (out' : ℕ → ℕ) × (encode_bcd_loop swap text pad size left i out ≡ (true, out'))
        × ((k : ℕ)
            → k < size
            → out' (text_index swap size k)
              ≡ (if ltb k i then out (text_index swap size k) else packed k))
        × ((j : ℕ) → size ≤ j → out' j ≡ out j)
  unfolding encode_bcd_loop text_byte_put
  encoded zero i out e = (out, refl, λ k h. ground (arith, e, h), λ j h. refl)
  encoded (suc left) i out e =
      let there = text_index swap size i in
      let (out', goes, holds, apart) =
        encoded left (i + 1) (put out there (packed i)) (omega (arith, e)) in
      (
        out',
        rw (digits (i * 2) (omega (arith, e)), digits (i * 2 + 1) (omega (arith, e))) goes,
        λ k h. elim (Bool-cases (k == i)) [
          | inl at ↦
              (let k_is_i : k ≡ i = ground (arith, at) in
                let stored : put out there (packed i) (text_index swap size k) ≡ packed k =
                  ap (λ j. put out there (packed i) (text_index swap size j)) k_is_i
                  ∙ put_same out there (packed i) (packed-lt i (omega (arith, e)))
                  ∙ ap packed (sym k_is_i) in
                ground (arith, holds k h, stored, k_is_i))
          | inr away ↦
              let kept : put out there (packed i) (text_index swap size k)
                  ≡ out (text_index swap size k) =
                put_other out there (packed i) (text_index swap size k) (λ same.
                  ground (arith, index_injective swap size i k (omega (arith, e)) h same, away)) in
              ground (arith, holds k h, kept, away)
        ],
        λ j h.
            apart j h
            ∙ put_other out there (packed i) j
                (λ same. omega (arith, same, h, index_bound swap size i (omega (arith, e)))),
      )

  decoded :
      (bytes : ℕ → ℕ)
      → ((k : ℕ) → k < size → bytes (text_index swap size k) ≡ packed k)
      → (left i : ℕ) → i + left ≡ size
      → (chars : List ℕ) × (bcd_loop swap bytes size left i ≡ some chars)
        × (length chars ≡ left * 2)
        × ((n : ℕ) → n < left * 2 → get_or chars n 0 ≡ digit_at text pad (i * 2 + n))
  unfolding bcd_loop text_byte two_chars
  decoded bytes holds zero i e = ([], refl, refl, λ n h. absurd (omega (arith, h)))
  decoded bytes holds (suc left) i e =
      let (chars, goes, long, spelled) = decoded bytes holds left (i + 1) (omega (arith, e)) in
      let c = bytes (text_index swap size i) in
      let d0 = digit_at text pad (i * 2) in
      let d1 = digit_at text pad (i * 2 + 1) in
      let here = holds i (omega (arith, e)) in
      let b0 = digit_bounds (i * 2) (omega (arith, e)) in
      let b1 = digit_bounds (i * 2 + 1) (omega (arith, e)) in
      let high : c / 16 % 16 ≡ d0 - 48 = omega (arith, here, b0, b1) in
      let low : c % 16 ≡ d1 - 48 = omega (arith, here, b0, b1) in
      (
        d0 ∷ d1 ∷ chars,
        bcd_step (c / 16 % 16) (c % 16) d0 d1 chars (bcd_loop swap bytes size left (i + 1)) high low
            b0 b1 goes,
        omega (arith, long),
        λ n h.
            spelled_from (digit_at text pad) (i * 2) chars (left * 2)
              (λ k g. spelled k g ∙ ap (digit_at text pad) (omega arith)) n (omega (arith, h)),
      )

behind_field : (size v j : ℕ) → size ≤ j → (if ltb j size then 0 else v) ≡ v
behind_field size v j h = ground (arith, h)

from_zero : (k a b : ℕ) → (if ltb k 0 then a else b) ≡ b
from_zero k a b = ground arith

padded_digit :
    (text : List ℕ) (pad n : ℕ)
    → (pad ≤ n → is_digit (get_or text (n - pad) 0) ≡ true)
    → is_digit (digit_at text pad n) ≡ true
padded_digit text pad n behind = elim (Bool-cases (ltb n pad)) [
  | inl before ↦ rw before refl
  | inr later ↦ rw later (behind (ground (arith, later)))
]

-- A text of digits that the field has room for is encoded, and what is decoded again is the text
-- with the character 0 in front of it up to twice as many characters as the field has bytes: with
-- the bytes of each register swapped or not, and also where the field has an odd number of bytes.
-- Nothing behind the field is written.
pub encode_bcd_reads_back :
    (swap : Bool) (text : List ℕ) (size room : ℕ) (out : ℕ → ℕ)
    → ((n : ℕ) → n < length text → is_digit (get_or text n 0) ≡ true)
    → length text ≤ size * 2
    → size * 2 < room
    → (out' : ℕ → ℕ) × (chars : List ℕ) × (encode_bcd swap text size (cleared_field size out)
        ≡ (true, out'))
      × (text_bcd out' size swap room ≡ some chars)
      × (length chars ≡ size * 2)
      × ((j : ℕ) → size ≤ j → out' j ≡ out j)
      × ((n : ℕ)
          → n < size * 2
          → get_or chars n 0 ≡ (
              if ltb n (size * 2 - length text)
              then 48
              else get_or text (n - (size * 2 - length text)) 0))
unfolding encode_bcd text_bcd
encode_bcd_reads_back swap text size room out digits short roomy =
    let pad = size * 2 - length text in
    let cleared : ℕ → ℕ = cleared_field size out in
    let all : (n : ℕ) → n < size * 2 → is_digit (digit_at text pad n) ≡ true =
      λ n h. padded_digit text pad n (λ later. digits (n - pad) (omega (arith, h, later, short))) in
    let (out', goes, holds, apart) = encoded swap text pad size all size 0 cleared (omega arith) in
    let (chars, comes, long, spelled) =
      decoded swap text pad size all out'
        (λ k h. holds k h ∙ from_zero k (cleared (text_index swap size k)) (packed_byte text pad k))
        size 0 (omega arith) in
    let small : ltb (size * 2) (length text) ≡ false = ground (arith, short) in
    let enough : ltb room (size * 2 + 1) ≡ false = ground (arith, roomy) in
    (
      out',
      chars,
      rw small goes,
      rw enough comes,
      long,
      λ j h. apart j h ∙ behind_field size (out j) j h,
      λ n h. spelled n h ∙ ap (digit_at text pad) (omega arith),
    )
