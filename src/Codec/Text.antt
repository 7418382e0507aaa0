-- ===== src/Codec/Text.antt =====
-- The packed decimal text formats of lib/modbusmq.c: `modbusmq_text_byte`, `modbusmq_text_byte_put`,
-- `modbusmq_text_bcd` and the branch of `modbusmq_encode_text` for them. A text is the list of its
-- characters.
use modbusmq.Base.{
  ℕ, zero, suc, ◌+◌, ◌-◌, ◌*◌, ◌/◌, ◌%◌, Bool, ◌&&◌, ◌||◌, List, [], ◌∷◌, length, get_or, Option,
  none, some, ◌==◌, ltb, leb, if◌then◌else◌, false, true,
}
use modbusmq.Frame.{put}

-- `j = swap ? (i ^ 1) : i`, and `(j < length) ? j : i`.
unfoldable pub text_index : Bool → ℕ → ℕ → ℕ
text_index swap size i =
    let j = if swap then (if i % 2 == 0 then i + 1 else i - 1) else i in if ltb j size then j else i

-- `modbusmq_text_byte`
unfoldable pub text_byte : (ℕ → ℕ) → ℕ → ℕ → Bool → ℕ
text_byte bytes size i swap = bytes (text_index swap size i)

-- `modbusmq_text_byte_put`
unfoldable pub text_byte_put : (ℕ → ℕ) → ℕ → ℕ → Bool → ℕ → ℕ → ℕ
text_byte_put out size i swap c = put out (text_index swap size i) c

unfoldable pub two_chars : ℕ → ℕ → Option (List ℕ) → Option (List ℕ)
two_chars high low none = none
two_chars high low (some rest) = some (high ∷ low ∷ rest)

-- The loop of `modbusmq_text_bcd`; `none` is its -1.
unfoldable pub bcd_loop : Bool → (ℕ → ℕ) → ℕ → ℕ → ℕ → Option (List ℕ)
bcd_loop swap bytes size zero i = some []
bcd_loop swap bytes size (suc left) i =
    let c = text_byte bytes size i swap in
    let high = c / 16 % 16 in
    let low = c % 16 in
    let rest = bcd_loop swap bytes size left (i + 1) in
    if ltb 9 high || ltb 9 low then none else two_chars (48 + high) (48 + low) rest

-- `modbusmq_text_bcd`, with `room` for the text and the NUL behind it.
unfoldable pub text_bcd : (ℕ → ℕ) → ℕ → Bool → ℕ → Option (List ℕ)
text_bcd bytes size swap room =
    if ltb room (size * 2 + 1) then none else bcd_loop swap bytes size size 0

-- `(pos < pad) ? '0' : text[pos - pad]`
abbrev pub digit_at : List ℕ → ℕ → ℕ → ℕ
digit_at text pad n = if ltb n pad then 48 else get_or text (n - pad) 0

abbrev pub is_digit : ℕ → Bool
is_digit c = leb 48 c && leb c 57

-- The loop of `modbusmq_encode_text` over the bytes; `false` is its -1.
unfoldable pub encode_bcd_loop : Bool → List ℕ → ℕ → ℕ → ℕ → ℕ → (ℕ → ℕ) → Bool × (ℕ → ℕ)
encode_bcd_loop swap text pad size zero i out = (true, out)
encode_bcd_loop swap text pad size (suc left) i out =
    let high = digit_at text pad (i * 2) in
    let low = digit_at text pad (i * 2 + 1) in
    let rest =
      encode_bcd_loop swap text pad size left (i + 1)
        (text_byte_put out size i swap ((high - 48) * 16 + (low - 48))) in
    if is_digit high && is_digit low then rest else (false, out)

-- memset(out, 0, length)
abbrev pub cleared_field : ℕ → (ℕ → ℕ) → ℕ → ℕ
cleared_field size out j = if ltb j size then 0 else out j

-- `modbusmq_encode_text` for these formats, of a field that has bytes and that `out` has room for.
unfoldable pub encode_bcd : Bool → List ℕ → ℕ → (ℕ → ℕ) → Bool × (ℕ → ℕ)
encode_bcd swap text size out =
    if ltb (size * 2) (length text)
    then (false, out)
    else encode_bcd_loop swap text (size * 2 - length text) size size 0 out
