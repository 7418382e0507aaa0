-- ===== src/Codec/Encode.antt =====
-- `modbusmq_encode_text` of lib/modbusmq.c, with its formats and `modbusmq_encode_version`. What it
-- asks of the C library is an argument. The result is the count or -1, with the bytes at `out`, also
-- where it is -1.
use modbusmq.Base.{
  ℕ, zero, suc, ◌+◌, ◌/◌, ◌^◌, Bool, true, false, List, [], ◌∷◌, length, Option, none, some, ◌==◌,
  ltb, if◌then◌else◌, ℤ, pos, negsuc,
}
use modbusmq.Frame.{put}
use modbusmq.Codec.{
  Format, Double, encode_value, wrap, format_uint32_abcd, format_uint32_badc, format_ascii_ab,
  format_ascii_ba, format_bcd_ab, format_bcd_ba, format_version_ab, format_version_abcd,
  format_version_regs, format_date_ymd_abcd, format_datetime_regs, format_epoch32_abcd,
  format_epoch32_badc,
}
use modbusmq.Codec.Text.{text_byte_put, cleared_field, encode_bcd}

-- `strtoul` of base 10 and `strtoull` give the number and what stands behind it, or `none` where
-- they read nothing; `date` and `datetime` are the calls of `sscanf`, which give all of their numbers
-- or `none`; and `to_double` is the conversion.
pub record TextLibrary : Type 0 where
  pub strtoul : List ℕ → Option (ℕ × List ℕ)
  pub strtoull : List ℕ → Option (ℕ × List ℕ)
  pub date : List ℕ → Option (ℤ × ℤ × ℤ)
  pub datetime : List ℕ → Option (List ℤ)
  pub to_double : ℕ → Double

-- The loop of the formats ascii: a character to each byte from `i` on.
unfoldable pub ascii_loop : Bool → List ℕ → ℕ → ℕ → (ℕ → ℕ) → ℕ → ℕ
ascii_loop swap [] size i out = out
ascii_loop swap (c ∷ text) size i out =
    ascii_loop swap text size (i + 1) (text_byte_put out size i swap c)

-- `return (*p == 0) ? length : -1`
abbrev pub version_end : List ℕ → ℕ → (ℕ → ℕ) → ℤ × (ℕ → ℕ)
version_end [] size out = (pos size, out)
version_end (c ∷ text) size out = (negsuc 0, out)

-- The bytes of one field, or `none` where it does not fit a byte.
abbrev pub version_put : ℕ → ℕ → ℕ → (ℕ → ℕ) → Option (ℕ → ℕ)
version_put stride v i out =
    if stride == 2
    then some (put (put out i (v / 2 ^ 8)) (i + 1) v)
    else if ltb 255 v
    then none
    else some (put out i v)

-- What follows a field is a point, or nothing.
abbrev pub version_rest : List ℕ → Option (List ℕ)
version_rest [] = some []
version_rest (c ∷ rest) = if c == 46 then some rest else none

abbrev pub version_stored : List ℕ → (ℕ → ℕ) → Option (ℕ → ℕ) → Option (List ℕ) × (ℕ → ℕ)
version_stored rest out none = (none, out)
version_stored rest out (some out') = (version_rest rest, out')

-- A turn of the loop, by what `strtoul` read: what is left of the text, or `none`.
unfoldable pub version_field : ℕ → ℕ → (ℕ → ℕ) → Option (ℕ × List ℕ) → Option (List ℕ) × (ℕ → ℕ)
version_field stride i out none = (none, out)
version_field stride i out (some (v, rest)) = version_stored rest out (version_put stride v i out)

-- `modbusmq_encode_version` from the place `i` on, which is behind the field after at most as many
-- turns as it has bytes.
unfoldable pub encode_version : TextLibrary → ℕ → List ℕ → ℕ → ℕ → ℕ → (ℕ → ℕ) → ℤ × (ℕ → ℕ)
encode_version lib stride text size zero i out = version_end text size out
encode_version lib stride [] size (suc left) i out = version_end [] size out
encode_version lib stride (c ∷ text) size (suc left) i out =
    let (next, out') = version_field stride i out (lib.strtoul (c ∷ text)) in
    if ltb size (i + stride) then version_end (c ∷ text) size out else elim next [
      | none ↦ (negsuc 0, out')
      | some rest ↦ encode_version lib stride rest size left (i + stride) out'
    ]

-- The low 16 bits of the numbers, high byte first.
unfoldable pub put_words : List ℤ → ℕ → (ℕ → ℕ) → ℕ → ℕ
put_words [] i out = out
put_words (v ∷ vs) i out =
    put_words vs (i + 2) (put (put out i (wrap (2 ^ 16) v / 2 ^ 8)) (i + 1) (wrap (2 ^ 16) v))

unfoldable pub encode_date : Option (ℤ × ℤ × ℤ) → (ℕ → ℕ) → ℤ × (ℕ → ℕ)
encode_date none out = (negsuc 0, out)
encode_date (some (y, m, d)) out =
    (pos 4, put (put (put_words (y ∷ []) 0 out) 2 (wrap (2 ^ 8) m)) 3 (wrap (2 ^ 8) d))

unfoldable pub encode_datetime : Option (List ℤ) → (ℕ → ℕ) → ℤ × (ℕ → ℕ)
encode_datetime none out = (negsuc 0, out)
encode_datetime (some fields) out = (pos 12, put_words fields 0 out)

unfoldable pub encode_epoch : TextLibrary → Format → Option (ℕ × List ℕ) → (ℕ → ℕ) → ℤ × (ℕ → ℕ)
encode_epoch lib kind none out = (negsuc 0, out)
encode_epoch lib kind (some (v, [])) out = encode_value kind (lib.to_double v) out
encode_epoch lib kind (some (v, c ∷ rest)) out = (negsuc 0, out)

unfoldable pub encode_ascii : Bool → List ℕ → ℕ → (ℕ → ℕ) → ℤ × (ℕ → ℕ)
encode_ascii swap text size out =
    if ltb size (length text) then (negsuc 0, out) else (pos size, ascii_loop swap text size 0 out)

unfoldable pub encode_digits : Bool → List ℕ → ℕ → (ℕ → ℕ) → ℤ × (ℕ → ℕ)
encode_digits swap text size out =
    let (good, out') = encode_bcd swap text size out in (if good then pos size else negsuc 0, out')

-- The `switch`, over a field that is cleared.
unfoldable pub encode_format : TextLibrary → Format → ℕ → List ℕ → (ℕ → ℕ) → ℤ × (ℕ → ℕ)
encode_format lib format_ascii_ab size text out = encode_ascii false text size out
encode_format lib format_ascii_ba size text out = encode_ascii true text size out
encode_format lib format_bcd_ab size text out = encode_digits false text size out
encode_format lib format_bcd_ba size text out = encode_digits true text size out
encode_format lib format_version_ab size text out = encode_version lib 1 text size size 0 out
encode_format lib format_version_abcd size text out = encode_version lib 1 text size size 0 out
encode_format lib format_version_regs size text out = encode_version lib 2 text size size 0 out
encode_format lib format_date_ymd_abcd size text out = encode_date (lib.date text) out
encode_format lib format_datetime_regs size text out = encode_datetime (lib.datetime text) out
encode_format lib format_epoch32_abcd size text out =
    encode_epoch lib format_uint32_abcd (lib.strtoull text) out
encode_format lib format_epoch32_badc size text out =
    encode_epoch lib format_uint32_badc (lib.strtoull text) out
encode_format lib _ size text out = (negsuc 0, out)

-- `modbusmq_encode_text` of a channel with this format and length, with `room` at `out`.
unfoldable pub encode_text : TextLibrary → Format → ℕ → List ℕ → ℕ → (ℕ → ℕ) → ℤ × (ℕ → ℕ)
encode_text lib format size text room out =
    if size == 0
    then (negsuc 0, out)
    else if ltb room size
    then (negsuc 0, out)
    else encode_format lib format size text (cleared_field size out)
