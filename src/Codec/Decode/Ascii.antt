-- ===== src/Codec/Decode/Ascii.antt =====
-- Characters that are encoded are read back.
use modbusmq.Codec.{Format, format_ascii_ab, format_ascii_ba}
use modbusmq.Base.{
  true, false, ℕ, zero, suc, ◌+◌, ◌-◌, ◌≤◌, ◌<◌, ◌≡◌, refl, sym, ap, ◌∙◌, arith, Bool, List, [],
  ◌∷◌, length, get_or, All, none, some, ◌==◌, ltb, leb, if◌then◌else◌, Bool-cases, inl, inr, ◌⊎◌,
  pos, ==→eq, false, ◌||◌, Option,
}
use modbusmq.Frame.{put}
use modbusmq.Codec.Text.{text_index, text_byte, text_byte_put, cleared_field}
use modbusmq.Codec.Digits.{index_injective, index_bound, put_same, put_other}
use modbusmq.Codec.Encode.{ascii_loop, encode_ascii, encode_text, encode_format, TextLibrary}
use modbusmq.Codec.Decode.{
  ascii_chars, text_ascii, text_trim, map_trim, cons_char, printable, Format, text_of, ClockLibrary,
  TextChannel,
}

-- The characters that are passed on as they are.
abbrev pub IsPrintable : ℕ → Type 0
IsPrintable c = (0x20 ≤ c) × (c ≤ 0x7e)

at_front : (c : ℕ) (text : List ℕ) (i k : ℕ) → k ≡ i → c ≡ get_or (c ∷ text) (k - i) 0
at_front c text i k e =
    let first : 0 ≡ k - i = omega (arith, e) in ap (λ j. get_or (c ∷ text) j 0) first

in_tail :
    (c : ℕ) (text : List ℕ) (i k : ℕ)
    → i + 1 ≤ k
    → get_or (c ∷ text) (k - i) 0 ≡ get_or text (k - (i + 1)) 0
in_tail c text i k h =
    let later : k - i ≡ suc (k - (i + 1)) = omega (arith, h) in
    ap (λ j. get_or (c ∷ text) j 0) later

char_read :
    (c : ℕ) (text : List ℕ) (room n : ℕ) (skipped : Option (List ℕ))
    → IsPrintable c
    → n + 1 < room
    → (if c == 0
        then skipped
        else if leb room (n + 1)
        then none
        else cons_char (printable c) (some text))
      ≡ some (c ∷ text)
char_read c text room n skipped good fits =
    let some_char : (c == 0) ≡ false = ground (arith, good) in
    let roomy : leb room (n + 1) ≡ false = ground (arith, fits) in
    let kept : (ltb c 0x20 || ltb 0x7e c) ≡ false = ground (arith, good) in
    rw (some_char, roomy, kept) refl

behind_text : (text : List ℕ) (k : ℕ) → length text ≤ k → get_or text k 0 ≡ 0
behind_text [] k h = refl
behind_text (c ∷ text) zero h = absurd (omega (arith, h))
behind_text (c ∷ text) (suc k) h = behind_text text k (omega (arith, h))

module _ (swap : Bool) (size : ℕ) where
  -- What the loop leaves alone, and what it stores.
  loop_keeps :
      (text : List ℕ) (i k : ℕ) (out : ℕ → ℕ)
      → i + length text ≤ size
      → k < size
      → (k < i) ⊎ (i + length text ≤ k)
      → ascii_loop swap text size i out (text_index swap size k) ≡ out (text_index swap size k)
  unfolding ascii_loop text_byte_put
  loop_keeps [] i k out fits h away = refl
  loop_keeps (c ∷ text) i k out fits h away =
      loop_keeps text (i + 1) k (put out (text_index swap size i) c) (omega (arith, fits)) h
        (ground (arith, away, fits))
      ∙ put_other out (text_index swap size i) c (text_index swap size k)
          (λ same. ground (arith, index_injective swap size i k (omega (arith, fits)) h same, away))

  loop_stores :
      (text : List ℕ) (i k : ℕ) (out : ℕ → ℕ)
      → i + length text ≤ size
      → All IsPrintable text
      → i ≤ k
      → k < i + length text
      → ascii_loop swap text size i out (text_index swap size k) ≡ get_or text (k - i) 0
  unfolding ascii_loop text_byte_put
  loop_stores [] i k out fits good h below = absurd (omega (arith, h, below))
  loop_stores (c ∷ text) i k out fits good h below = elim (Bool-cases (k == i)) [
    | inl here ↦
        let k_is_i : k ≡ i = ==→eq k i here in
        let there = text_index swap size i in
        ap (λ j. ascii_loop swap text size (i + 1) (put out there c) (text_index swap size j))
          k_is_i
        ∙ loop_keeps text (i + 1) i (put out there c) (omega (arith, fits)) (omega (arith, fits))
            (inl (omega arith))
        ∙ put_same out there c (omega (arith, good.0))
        ∙ at_front c text i k k_is_i
    | inr behind ↦
        loop_stores text (i + 1) k (put out (text_index swap size i) c) (omega (arith, fits)) good.1
          (ground (arith, h, behind)) (omega (arith, below))
        ∙ sym (in_tail c text i k (ground (arith, h, behind)))
  ]

  -- The loop over a field that holds a text, and 0 behind it.
  chars_read :
      (bytes : ℕ → ℕ) (room left i n : ℕ) (text : List ℕ)
      → i + left ≡ size
      → length text ≤ left
      → n + length text < room
      → All IsPrintable text
      → ((k : ℕ) → i ≤ k → k < size → bytes (text_index swap size k) ≡ get_or text (k - i) 0)
      → ascii_chars swap bytes size room left i n ≡ some text
  unfolding ascii_chars text_byte
  chars_read bytes room zero i n [] e short fits good holds = refl
  chars_read bytes room zero i n (c ∷ text) e short fits good holds = absurd (omega (arith, short))
  chars_read bytes room (suc left) i n [] e short fits good holds =
      rw (holds i (omega arith) (omega (arith, e))) (
        chars_read bytes room left (i + 1) n [] (omega (arith, e)) (omega arith) fits tt
          (λ k h below. holds k (omega (arith, h)) below))
  chars_read bytes room (suc left) i n (c ∷ text) e short fits good holds =
      let byte : bytes (text_index swap size i) ≡ c =
        holds i (omega arith) (omega (arith, e)) ∙ sym (at_front c text i i refl) in
      let rest =
        chars_read bytes room left (i + 1) (n + 1) text (omega (arith, e)) (omega (arith, short))
          (omega (arith, fits)) good.1
          (λ k h below. holds k (omega (arith, h)) below ∙ in_tail c text i k h) in
      rw (byte, rest)
        (char_read c text room n (ascii_chars swap bytes size room left (i + 1) n) good.0
          (omega (arith, fits)))

cleared_at : (size : ℕ) (out : ℕ → ℕ) (j : ℕ) → j < size → cleared_field size out j ≡ 0
cleared_at size out j h = ground (arith, h)

ascii_reads_back :
    (swap : Bool) (text : List ℕ) (size room : ℕ) (out : ℕ → ℕ)
    → All IsPrintable text
    → text_trim text ≡ text
    → length text ≤ size
    → length text < room
    → ((encode_ascii swap text size (cleared_field size out)).0 ≡ pos size)
      × (text_ascii (encode_ascii swap text size (cleared_field size out)).1 size swap room
          ≡ some text)
unfolding encode_ascii text_ascii
ascii_reads_back swap text size room out good trimmed short fits =
    let cleared = cleared_field size out in
    let small : ltb size (length text) ≡ false = ground (arith, short) in
    let written = ascii_loop swap text size 0 cleared in
    let holds : (k : ℕ)
        → 0 ≤ k
        → k < size
        → written (text_index swap size k) ≡ get_or text (k - 0) 0 =
      λ k _ below. elim (Bool-cases (ltb k (length text))) [
        | inl inner ↦
            loop_stores swap size text 0 k cleared (omega (arith, short)) good (omega arith)
              (ground (arith, inner))
        | inr behind ↦
            loop_keeps swap size text 0 k cleared (omega (arith, short)) below
              (inr (ground (arith, behind)))
            ∙ cleared_at size out (text_index swap size k) (index_bound swap size k below)
            ∙ sym (behind_text text (k - 0) (ground (arith, behind)))
      ] in
    rw small (
      refl,
      ap map_trim (
            chars_read swap size written room size 0 0 text (omega arith) short
              (omega (arith, fits)) good holds)
          ∙ ap some trimmed,
    )

abbrev pub ascii_format : Bool → Format
ascii_format false = format_ascii_ab
ascii_format true = format_ascii_ba

-- A text of printable characters with no space before or behind it is encoded in a field that is long enough, and is read back as it was: with the bytes of each register swapped or not, and also where the field has an odd number of bytes.
pub encode_text_reads_back :
    (lib : TextLibrary) (clock : ClockLibrary) (swap : Bool) (text : List ℕ) (c : TextChannel)
    (space room : ℕ) (out : ℕ → ℕ)
    → All IsPrintable text
    → text_trim text ≡ text
    → length text ≤ c.channel.length
    → 0 < c.channel.length
    → c.channel.length ≤ space
    → length text < room
    → let encoded = encode_text lib (ascii_format swap) c.channel.length text space out in
      (encoded.0 ≡ pos c.channel.length)
      × (text_of clock (ascii_format swap) c encoded.1 room ≡ some text)
unfolding encode_text encode_format text_of
encode_text_reads_back lib clock false text c space room out good trimmed short some_bytes fits
      roomy =
    let not_empty : (c.channel.length == 0) ≡ false = ground (arith, some_bytes) in
    let there : ltb space c.channel.length ≡ false = ground (arith, fits) in
    rw (not_empty, there)
      (ascii_reads_back false text c.channel.length room out good trimmed short roomy)
encode_text_reads_back lib clock true text c space room out good trimmed short some_bytes fits
      roomy =
    let not_empty : (c.channel.length == 0) ≡ false = ground (arith, some_bytes) in
    let there : ltb space c.channel.length ≡ false = ground (arith, fits) in
    rw (not_empty, there)
      (ascii_reads_back true text c.channel.length room out good trimmed short roomy)
