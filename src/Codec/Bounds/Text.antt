-- ===== src/Codec/Bounds/Text.antt =====
-- No encoding of a text writes behind its field.
use modbusmq.Codec.Digits.{index_bound}
use modbusmq.Codec.Text.{
  encode_bcd_loop, text_byte_put, text_index, cleared_field, digit_at, encode_bcd, is_digit,
}
use modbusmq.Codec.Encode.{
  encode_version, version_field, put_words, ascii_loop, TextLibrary, encode_date, encode_datetime,
  version_end, encode_text, encode_ascii, encode_digits, encode_epoch, encode_format,
}
use modbusmq.Base.{
  ℕ, ◌^◌, ◌≤◌, ◌≡◌, refl, arith, Bool-cases, Option, none, some, ◌==◌, ℤ, negsuc, inl, inr, List,
  ◌+◌, suc, Bool, ◌/◌, ◌*◌, zero, ltb, length, ◌∷◌, [], ◌-◌, false, true, ◌&&◌,
}
use modbusmq.Frame.{put}
use modbusmq.Codec.{
  format_ascii_ab, format_ascii_ba, format_bcd_ab, format_bcd_ba, format_version_ab,
  format_version_abcd, format_version_regs, format_date_ymd_abcd, format_datetime_regs,
  format_epoch32_abcd, format_epoch32_badc, format_uint32_abcd, format_uint32_badc,
}
use modbusmq.Codec.{Format, format_size, wrap}
use modbusmq.Codec.Bounds.{Stays, Stays-refl, Stays-trans, put-Stays, encode_value-Stays}

ascii-Stays :
    (swap : Bool) (text : List ℕ) (size i : ℕ) (out : ℕ → ℕ)
    → i + length text ≤ size
    → Stays size out (ascii_loop swap text size i out)
unfolding ascii_loop text_byte_put
ascii-Stays swap [] size i out h = Stays-refl size out
ascii-Stays swap (c ∷ text) size i out h =
    let there = text_index swap size i in
    Stays-trans (put-Stays size out there c (index_bound swap size i (omega (arith, h))))
      (ascii-Stays swap text size (i + 1) (put out there c) (omega (arith, h)))

digits-Stays :
    (swap : Bool) (text : List ℕ) (pad size left i : ℕ) (out : ℕ → ℕ)
    → i + left ≤ size
    → Stays size out (encode_bcd_loop swap text pad size left i out).1
unfolding encode_bcd_loop text_byte_put
digits-Stays swap text pad size zero i out h = Stays-refl size out
digits-Stays swap text pad size (suc left) i out h =
    let v = (digit_at text pad (i * 2) - 48) * 16 + (digit_at text pad (i * 2 + 1) - 48) in
    let there = text_index swap size i in
    let stored =
      Stays-trans (put-Stays size out there v (index_bound swap size i (omega (arith, h))))
        (digits-Stays swap text pad size left (i + 1) (put out there v) (omega (arith, h))) in
    elim (Bool-cases
      (is_digit (digit_at text pad (i * 2)) && is_digit (digit_at text pad (i * 2 + 1)))) [
        | inl good ↦ rw good stored
        | inr bad ↦ rw bad (Stays-refl size out)
      ]

put_words-Stays :
    (vs : List ℤ) (i n : ℕ) (out : ℕ → ℕ) → i + 2 * length vs ≤ n → Stays n out (put_words vs i out)
unfolding put_words
put_words-Stays [] i n out h = Stays-refl n out
put_words-Stays (v ∷ vs) i n out h =
    let w = wrap (2 ^ 16) v in
    Stays-trans (put-Stays n out i (w / 2 ^ 8) (omega (arith, h))) (
      Stays-trans (put-Stays n (put out i (w / 2 ^ 8)) (i + 1) w (omega (arith, h)))
        (put_words-Stays vs (i + 2) n (put (put out i (w / 2 ^ 8)) (i + 1) w) (omega (arith, h))))

field-Stays :
    (stride i size : ℕ) (out : ℕ → ℕ) (found : Option (ℕ × List ℕ))
    → i + stride ≤ size
    → 1 ≤ stride
    → Stays size out (version_field stride i out found).1
unfolding version_field
field-Stays stride i size out none h k = Stays-refl size out
field-Stays stride i size out (some (v, rest)) h k = elim (Bool-cases (stride == 2)) [
  | inl two ↦ rw two (
      Stays-trans (put-Stays size out i (v / 2 ^ 8) (omega (arith, h, k)))
        (put-Stays size (put out i (v / 2 ^ 8)) (i + 1) v (ground (arith, h, two))))
  | inr one ↦ rw one (elim (Bool-cases (ltb 255 v)) [
    | inl big ↦ rw big (Stays-refl size out)
    | inr small ↦ rw small (put-Stays size out i v (omega (arith, h, k)))
  ])
]

version_end-Stays :
    (text : List ℕ) (size : ℕ) (out : ℕ → ℕ) → Stays size out (version_end text size out).1
version_end-Stays [] size out = Stays-refl size out
version_end-Stays (c ∷ text) size out = Stays-refl size out

version_went :
    (lib : TextLibrary) (stride size left i : ℕ) (out : ℕ → ℕ) (next : Option (List ℕ))
    (out' : ℕ → ℕ)
    → Stays size out out'
    → ((rest : List ℕ) (buf : ℕ → ℕ)
        → Stays size buf (encode_version lib stride rest size left (i + stride) buf).1)
    → Stays size out
        (elim next as (λ _. ℤ × (ℕ → ℕ)) [
          | none ↦ (negsuc 0, out')
          | some rest ↦ encode_version lib stride rest size left (i + stride) out'
        ]).1
version_went lib stride size left i out none out' s again = s
version_went lib stride size left i out (some rest) out' s again = Stays-trans s (again rest out')

version-Stays :
    (lib : TextLibrary) (stride : ℕ) (text : List ℕ) (size left i : ℕ) (out : ℕ → ℕ)
    → 1 ≤ stride
    → Stays size out (encode_version lib stride text size left i out).1
unfolding encode_version
version-Stays lib stride text size zero i out k = version_end-Stays text size out
version-Stays lib stride [] size (suc left) i out k = version_end-Stays [] size out
version-Stays lib stride (c ∷ text) size (suc left) i out k =
    let found = version_field stride i out (lib.strtoul (c ∷ text)) in
    elim (Bool-cases (ltb size (i + stride))) [
      | inl full ↦ rw full (Stays-refl size out)
      | inr room ↦ rw room (
          version_went lib stride size left i out found.0 found.1
            (field-Stays stride i size out (lib.strtoul (c ∷ text)) (ground (arith, room)) k)
            (λ rest out'. version-Stays lib stride rest size left (i + stride) out' k))
    ]

bcd-Stays :
    (swap : Bool) (text : List ℕ) (size : ℕ) (out : ℕ → ℕ)
    → Stays size out (encode_digits swap text size out).1
unfolding encode_digits encode_bcd
bcd-Stays swap text size out = elim (Bool-cases (ltb (size * 2) (length text))) [
  | inl long ↦ rw long (Stays-refl size out)
  | inr fits ↦
      rw fits (digits-Stays swap text (size * 2 - length text) size size 0 out (omega arith))
]

text-Stays :
    (swap : Bool) (text : List ℕ) (size : ℕ) (out : ℕ → ℕ)
    → Stays size out (encode_ascii swap text size out).1
unfolding encode_ascii
text-Stays swap text size out = elim (Bool-cases (ltb size (length text))) [
  | inl long ↦ rw long (Stays-refl size out)
  | inr fits ↦ rw fits (ascii-Stays swap text size 0 out (ground (arith, fits)))
]

date-Stays :
    (found : Option (ℤ × ℤ × ℤ)) (size : ℕ) (out : ℕ → ℕ)
    → 4 ≤ size
    → Stays size out (encode_date found out).1
unfolding encode_date
date-Stays none size out h = Stays-refl size out
date-Stays (some (y, m, d)) size out h =
    let year = put_words (y ∷ []) 0 out in
    Stays-trans (put_words-Stays (y ∷ []) 0 size out (omega (arith, h))) (
      Stays-trans (put-Stays size year 2 (wrap (2 ^ 8) m) (omega (arith, h)))
        (put-Stays size (put year 2 (wrap (2 ^ 8) m)) 3 (wrap (2 ^ 8) d) (omega (arith, h))))

datetime-Stays :
    (found : Option (List ℤ)) (size : ℕ) (out : ℕ → ℕ)
    → 12 ≤ size
    → ((fields : List ℤ) → found ≡ some fields → length fields ≡ 6)
    → Stays size out (encode_datetime found out).1
unfolding encode_datetime
datetime-Stays none size out h six = Stays-refl size out
datetime-Stays (some fields) size out h six =
    put_words-Stays fields 0 size out (omega (arith, h, six fields refl))

epoch-Stays :
    (lib : TextLibrary) (f : Format) (found : Option (ℕ × List ℕ)) (size : ℕ) (out : ℕ → ℕ)
    → format_size f ≤ size
    → Stays size out (encode_epoch lib f found out).1
unfolding encode_epoch
epoch-Stays lib f none size out h = Stays-refl size out
epoch-Stays lib f (some (v, [])) size out h = encode_value-Stays f (lib.to_double v) size out h
epoch-Stays lib f (some (v, c ∷ rest)) size out h = Stays-refl size out

-- `sscanf` fills as many numbers as it says.
abbrev pub ReadsSix : TextLibrary → Type 0
ReadsSix lib =
    (text : List ℕ) (fields : List ℤ) → lib.datetime text ≡ some fields → length fields ≡ 6

format-Stays :
    (lib : TextLibrary) (six : ReadsSix lib) (f : Format) (size : ℕ) (text : List ℕ) (out : ℕ → ℕ)
    → format_size f ≤ size
    → Stays size out (encode_format lib f size text out).1
unfolding encode_format format_size
format-Stays lib six format_ascii_ab size text out h = text-Stays false text size out
format-Stays lib six format_ascii_ba size text out h = text-Stays true text size out
format-Stays lib six format_bcd_ab size text out h = bcd-Stays false text size out
format-Stays lib six format_bcd_ba size text out h = bcd-Stays true text size out
format-Stays lib six format_version_ab size text out h =
    version-Stays lib 1 text size size 0 out (omega arith)
format-Stays lib six format_version_abcd size text out h =
    version-Stays lib 1 text size size 0 out (omega arith)
format-Stays lib six format_version_regs size text out h =
    version-Stays lib 2 text size size 0 out (omega arith)
format-Stays lib six format_date_ymd_abcd size text out h = date-Stays (lib.date text) size out h
format-Stays lib six format_datetime_regs size text out h =
    datetime-Stays (lib.datetime text) size out h (six text)
format-Stays lib six format_epoch32_abcd size text out h =
    epoch-Stays lib format_uint32_abcd (lib.strtoull text) size out h
format-Stays lib six format_epoch32_badc size text out h =
    epoch-Stays lib format_uint32_badc (lib.strtoull text) size out h
format-Stays lib six _ size text out h = Stays-refl size out

cleared-Stays : (size : ℕ) (out : ℕ → ℕ) → Stays size out (cleared_field size out)
cleared-Stays size out = record {
  same_behind = λ j h. ground (arith, h);
  bytes_stay = λ b j. ground (arith, b j);
}

-- `modbusmq_encode_text` writes within the length of the channel, whatever the text.
pub encode_text-Stays :
    (lib : TextLibrary) (six : ReadsSix lib) (f : Format) (size : ℕ) (text : List ℕ) (room : ℕ)
    (out : ℕ → ℕ)
    → format_size f ≤ size
    → Stays size out (encode_text lib f size text room out).1
unfolding encode_text
encode_text-Stays lib six f size text room out h = elim (Bool-cases (size == 0)) [
  | inl empty ↦ rw empty (Stays-refl size out)
  | inr some_bytes ↦ rw some_bytes (elim (Bool-cases (ltb room size)) [
    | inl short ↦ rw short (Stays-refl size out)
    | inr fits ↦ rw fits (
        Stays-trans (cleared-Stays size out)
          (format-Stays lib six f size text (cleared_field size out) h))
  ])
]
