-- ===== src/Codec/Bounds.antt =====
-- No encoding writes behind its field, and what it writes are bytes.
pub mod Text
use modbusmq.Codec.Digits.{index_bound}
use modbusmq.Codec.Text.{
  encode_bcd_loop, text_byte_put, text_index, cleared_field, digit_at, encode_bcd, is_digit,
}
use modbusmq.Codec.Encode.{
  encode_version, version_field, put_words, ascii_loop, TextLibrary, encode_date, encode_datetime,
  version_end, encode_text, encode_ascii, encode_digits, encode_epoch, encode_format,
}
use modbusmq.Base.{
  ℕ, ◌^◌, ◌≤◌, ◌<◌, ◌≡◌, refl, ◌∙◌, arith, Bool-cases, Option, none, some, ◌==◌, if◌then◌else◌, ℤ,
  negsuc, inl, inr, List, ◌+◌, suc, Bool, ◌/◌, ◌*◌, zero, ltb, length, ◌∷◌, [], ◌-◌, false, true,
  ◌&&◌,
}
use modbusmq.Frame.{put, IsBytes}
use modbusmq.Codec.{
  format_ascii_ab, format_ascii_ba, format_bcd_ab, format_bcd_ba, format_version_ab,
  format_version_abcd, format_version_regs, format_date_ymd_abcd, format_datetime_regs,
  format_epoch32_abcd, format_epoch32_badc, format_ab, format_ba, format_int16_ab, format_int16_ba,
  format_abcd, format_badc, format_uint32_abcd, format_uint32_badc, format_float_abcd,
  format_float_badc, format_float_dcba, format_float_cdab,
}
use modbusmq.Codec.{
  Format, Double, encode_value, encode_pair, encode_bytes, format_size, store2, store4, wrap,
  encode_bits,
}

-- Only places below `n` are changed, and to bytes.
pub record Stays (n : ℕ) (out out' : ℕ → ℕ) : Type 0 where
  pub same_behind : (j : ℕ) → n ≤ j → out' j ≡ out j
  pub bytes_stay : IsBytes out → IsBytes out'

pub Stays-refl : (n : ℕ) (out : ℕ → ℕ) → Stays n out out
Stays-refl n out = record { same_behind = λ j h. refl; bytes_stay = λ b. b }

pub Stays-trans : {n : ℕ} {a b c : ℕ → ℕ} → Stays n a b → Stays n b c → Stays n a c
Stays-trans p q = record {
  same_behind = λ j h. q.same_behind j h ∙ p.same_behind j h;
  bytes_stay = λ b. q.bytes_stay (p.bytes_stay b);
}

pub Stays-mono : {n m : ℕ} {a b : ℕ → ℕ} → n ≤ m → Stays n a b → Stays m a b
Stays-mono le p = record {
  same_behind = λ j h. p.same_behind j (omega (arith, le, h));
  bytes_stay = p.bytes_stay;
}

pub put-Stays : (n : ℕ) (out : ℕ → ℕ) (i v : ℕ) → i < n → Stays n out (put out i v)
put-Stays n out i v h = record {
  same_behind = λ j behind. ground (arith, h, behind);
  bytes_stay = λ b j. ground (arith, b j);
}

store2-Stays : (n : ℕ) (out : ℕ → ℕ) (x y : ℕ) → 2 ≤ n → Stays n out (store2 out x y)
unfolding store2
store2-Stays n out x y h =
    Stays-trans (put-Stays n out 0 x (omega arith)) (put-Stays n (put out 0 x) 1 y (omega arith))

store4-Stays : (n : ℕ) (out : ℕ → ℕ) (x y z w : ℕ) → 4 ≤ n → Stays n out (store4 out x y z w)
unfolding store4
store4-Stays n out x y z w h = Stays-trans (put-Stays n out 0 x (omega arith)) (
    Stays-trans (put-Stays n (put out 0 x) 1 y (omega arith)) (
      Stays-trans (put-Stays n (put (put out 0 x) 1 y) 2 z (omega arith))
        (put-Stays n (put (put (put out 0 x) 1 y) 2 z) 3 w (omega arith))))

abbrev IsKept : ℕ → (ℕ → ℕ) → ℤ × (ℕ → ℕ) → Type 0
IsKept n out res = Stays n out res.1

bytes-IsKept : (f : Format) (i : ℕ) (out : ℕ → ℕ) → IsKept 4 out (encode_bytes f i out)
unfolding encode_bytes
bytes-IsKept f i out = elim f as (λ k. IsKept 4 out (encode_bytes k i out)) [
  | format_float_abcd ↦ store4-Stays 4 out _ _ _ _ (omega arith)
  | format_abcd ↦ store4-Stays 4 out _ _ _ _ (omega arith)
  | format_uint32_abcd ↦ store4-Stays 4 out _ _ _ _ (omega arith)
  | format_float_badc ↦ store4-Stays 4 out _ _ _ _ (omega arith)
  | format_badc ↦ store4-Stays 4 out _ _ _ _ (omega arith)
  | format_uint32_badc ↦ store4-Stays 4 out _ _ _ _ (omega arith)
  | format_float_dcba ↦ store4-Stays 4 out _ _ _ _ (omega arith)
  | format_float_cdab ↦ store4-Stays 4 out _ _ _ _ (omega arith)
  | _ ↦ Stays-refl 4 out
]

pair-IsKept : (f : Format) (i : ℕ) (out : ℕ → ℕ) → IsKept 2 out (encode_pair f i out)
unfolding encode_pair
pair-IsKept format_ab i out = store2-Stays 2 out _ _ (omega arith)
pair-IsKept format_int16_ab i out = store2-Stays 2 out _ _ (omega arith)
pair-IsKept format_ba i out = store2-Stays 2 out _ _ (omega arith)
pair-IsKept format_int16_ba i out = store2-Stays 2 out _ _ (omega arith)
pair-IsKept _ i out = Stays-refl 2 out

word-IsKept :
    (f : Format) (bits : Option ℕ) (out : ℕ → ℕ)
    → IsKept 4 out (elim bits [ none ↦ (negsuc 0, out) | some i ↦ encode_bytes f i out ])
word-IsKept f none out = Stays-refl 4 out
word-IsKept f (some i) out = bytes-IsKept f i out

sized-IsKept :
    (size n : ℕ) (one two four : ℤ × (ℕ → ℕ)) (out : ℕ → ℕ)
    → size ≤ n
    → IsKept 1 out one
    → IsKept 2 out two
    → IsKept 4 out four
    → IsKept n out (
        if size == 1
        then one
        else if size == 2
        then two
        else if size == 4
        then four
        else (negsuc 0, out))
sized-IsKept size n one two four out h p q r = elim (Bool-cases (size == 1)) [
  | inl is_one ↦ rw is_one (Stays-mono (ground (arith, is_one)) p)
  | inr not_one ↦ rw not_one (elim (Bool-cases (size == 2)) [
    | inl is_two ↦ rw is_two (Stays-mono (ground (arith, is_two)) q)
    | inr not_two ↦ rw not_two (elim (Bool-cases (size == 4)) [
      | inl is_four ↦ rw is_four (Stays-mono (ground (arith, is_four)) r)
      | inr not_four ↦ rw not_four (Stays-refl n out)
    ])
  ])
]

-- `modbusmq_encode_value` writes within the size of its format.
pub encode_value-Stays :
    (f : Format) (v : Double) (n : ℕ) (out : ℕ → ℕ)
    → format_size f ≤ n
    → Stays n out (encode_value f v out).1
unfolding encode_value
encode_value-Stays f v n out h =
    sized-IsKept (format_size f) n _ _ _ out h
      (put-Stays 1 out 0 (wrap (2 ^ 32) v.truncated) (omega arith))
      (pair-IsKept f (wrap (2 ^ 32) v.truncated) out) (word-IsKept f (encode_bits f v) out)
