-- ===== src/Codec/Window.antt =====
-- What a value is read from.
use mathlib.Core.Path.{subst}
use modbusmq.Codec.{
  format_a, format_ab, format_ba, format_int8, format_int16_ab, format_int16_ba, format_abcd,
  format_badc, format_uint32_abcd, format_uint32_badc, format_float_abcd, format_float_badc,
  format_float_dcba, format_float_cdab, format_unknown, format_float_ba, format_ascii_ab,
  format_ascii_ba, format_bcd_ab, format_bcd_ba, format_version_ab, format_version_abcd,
  format_version_regs, format_date_ymd_abcd, format_datetime_regs, format_epoch32_abcd,
  format_epoch32_badc, read_int16_ab, read_value, read_int32_badc, read_float_cdab, read_int16_ba,
  channel_is_na, read_int32_dcba, Channel, read_int32_abcd, read_channel, format_size, Config,
  read_int16_ab_signed, Block, read_int16_ba_signed, Format, integer, signed, float_bits, is_marker,
  channel_in_range, within, bit, channel_byte_offset,
}
use modbusmq.Base.{
  ℕ, ◌≡◌, arith, ℤ, ◌<◌, ◌⊎◌, ◌+◌, Option, ◌≤◌, pos, ap, some, ◌^◌, refl, Option-cases, Bool, inl,
  false, true, ◌==◌, Bool-cases, inr, ◌/◌, none, negsuc, ◌%◌, sub_ℤ, ltb, if◌then◌else◌, leb, sym,
  ◌∙◌,
}

-- The buffers hold the same in the first `n` bytes.
abbrev pub Agree : ℕ → (ℕ → ℕ) → (ℕ → ℕ) → Type 0
Agree n bytes bytes' = (j : ℕ) → j < n → bytes j ≡ bytes' j

-- A channel of a format of fixed width has the length of it, or none of its own.
abbrev pub IsMeasured : Channel → Type 0
IsMeasured channel = (channel.length ≡ 0) ⊎ (format_size channel.format ≤ channel.length)

within_fits :
    (place : ℤ) (n i : ℕ) (fits : ℕ → ℕ → Bool)
    → within place (pos n) fits ≡ some i
    → fits i n ≡ true
within_fits (pos place) n i fits e = elim (Bool-cases (fits place n)) [
  | inl good ↦
      let same : place ≡ i = ground (arith, e, good) in subst (λ k. fits k n ≡ true) same good
  | inr bad ↦ ground (arith, e, bad)
]
within_fits (negsuc place) n i fits e = ground (arith, e)

module _ (config : Option Config) (n i : ℕ) (input : Block) (channel : Channel)
    (found : channel_in_range config (pos n) input channel ≡ some i) where
  bit_fits : input.is_bit ≡ true → i / 8 < n
  unfolding channel_in_range
  bit_fits b =
      let place = sub_ℤ channel.offset input.address_offset in
      let fits : ℕ → ℕ → Bool = λ bit n. ltb (bit / 8) n in
      let same : channel_in_range config (pos n) input channel ≡ within place (pos n) fits =
        rw (b, channel_in_range) refl in
      ground (arith, within_fits place n i fits (sym same ∙ found))

  bytes_fit : input.is_bit ≡ false → IsMeasured channel → i + format_size channel.format ≤ n
  unfolding channel_in_range
  bytes_fit b measured =
      let place = channel_byte_offset config input channel in
      let size = if ltb 0 channel.length then channel.length else format_size channel.format in
      let fits : ℕ → ℕ → Bool = λ offset n. leb (offset + size) n in
      let same : channel_in_range config (pos n) input channel ≡ within place (pos n) fits =
        rw (b, channel_in_range) refl in
      ground (arith, within_fits place n i fits (sym same ∙ found), measured)

module _ (n : ℕ) (bytes bytes' : ℕ → ℕ) (agree : Agree n bytes bytes') where
  int16_ab_agrees : (i : ℕ) → i + 2 ≤ n → read_int16_ab bytes i ≡ read_int16_ab bytes' i
  unfolding read_int16_ab
  int16_ab_agrees i h = omega (arith, agree i (omega arith), agree (i + 1) (omega arith))

  int16_ba_agrees : (i : ℕ) → i + 2 ≤ n → read_int16_ba bytes i ≡ read_int16_ba bytes' i
  unfolding read_int16_ba
  int16_ba_agrees i h = omega (arith, agree i (omega arith), agree (i + 1) (omega arith))

  int32_abcd_agrees : (i : ℕ) → i + 4 ≤ n → read_int32_abcd bytes i ≡ read_int32_abcd bytes' i
  unfolding read_int32_abcd
  int32_abcd_agrees i h = omega (
    arith,
    agree i (omega arith),
    agree (i + 1) (omega arith),
    agree (i + 2) (omega arith),
    agree (i + 3) (omega arith),
  )

  int32_badc_agrees : (i : ℕ) → i + 4 ≤ n → read_int32_badc bytes i ≡ read_int32_badc bytes' i
  unfolding read_int32_badc
  int32_badc_agrees i h = omega (
    arith,
    agree i (omega arith),
    agree (i + 1) (omega arith),
    agree (i + 2) (omega arith),
    agree (i + 3) (omega arith),
  )

  int32_dcba_agrees : (i : ℕ) → i + 4 ≤ n → read_int32_dcba bytes i ≡ read_int32_dcba bytes' i
  unfolding read_int32_dcba
  int32_dcba_agrees i h = omega (
    arith,
    agree i (omega arith),
    agree (i + 1) (omega arith),
    agree (i + 2) (omega arith),
    agree (i + 3) (omega arith),
  )

  float_cdab_agrees : (i : ℕ) → i + 4 ≤ n → read_float_cdab bytes i ≡ read_float_cdab bytes' i
  unfolding read_float_cdab
  float_cdab_agrees i h = omega (
    arith,
    agree i (omega arith),
    agree (i + 1) (omega arith),
    agree (i + 2) (omega arith),
    agree (i + 3) (omega arith),
  )

  read_value_agrees :
      (f : Format) (i : ℕ) → i + format_size f ≤ n → read_value f bytes i ≡ read_value f bytes' i
  unfolding read_value format_size read_int16_ab_signed read_int16_ba_signed
  read_value_agrees format_a i h = ap (λ k. some (integer (pos k))) (agree i (omega (arith, h)))
  read_value_agrees format_ab i h = ap (λ k. some (integer (pos k))) (int16_ab_agrees i h)
  read_value_agrees format_ba i h = ap (λ k. some (integer (pos k))) (int16_ba_agrees i h)
  read_value_agrees format_int8 i h =
      ap (λ k. some (integer (signed (2 ^ 7) k))) (agree i (omega (arith, h)))
  read_value_agrees format_int16_ab i h =
      ap (λ k. some (integer (signed (2 ^ 15) k))) (int16_ab_agrees i h)
  read_value_agrees format_int16_ba i h =
      ap (λ k. some (integer (signed (2 ^ 15) k))) (int16_ba_agrees i h)
  read_value_agrees format_abcd i h =
      ap (λ k. some (integer (signed (2 ^ 31) k))) (int32_abcd_agrees i h)
  read_value_agrees format_badc i h =
      ap (λ k. some (integer (signed (2 ^ 31) k))) (int32_badc_agrees i h)
  read_value_agrees format_uint32_abcd i h =
      ap (λ k. some (integer (pos k))) (int32_abcd_agrees i h)
  read_value_agrees format_uint32_badc i h =
      ap (λ k. some (integer (pos k))) (int32_badc_agrees i h)
  read_value_agrees format_float_abcd i h = ap (λ k. some (float_bits k)) (int32_abcd_agrees i h)
  read_value_agrees format_float_badc i h = ap (λ k. some (float_bits k)) (int32_badc_agrees i h)
  read_value_agrees format_float_dcba i h = ap (λ k. some (float_bits k)) (int32_dcba_agrees i h)
  read_value_agrees format_float_cdab i h = ap (λ k. some (float_bits k)) (float_cdab_agrees i h)
  read_value_agrees format_unknown i h = refl
  read_value_agrees format_float_ba i h = refl
  read_value_agrees format_ascii_ab i h = refl
  read_value_agrees format_ascii_ba i h = refl
  read_value_agrees format_bcd_ab i h = refl
  read_value_agrees format_bcd_ba i h = refl
  read_value_agrees format_version_ab i h = refl
  read_value_agrees format_version_abcd i h = refl
  read_value_agrees format_version_regs i h = refl
  read_value_agrees format_date_ymd_abcd i h = refl
  read_value_agrees format_datetime_regs i h = refl
  read_value_agrees format_epoch32_abcd i h = refl
  read_value_agrees format_epoch32_badc i h = refl

  is_marker_agrees :
      (f : Format) (na i : ℕ)
      → i + format_size f ≤ n
      → is_marker f na bytes i ≡ is_marker f na bytes' i
  unfolding is_marker format_size
  is_marker_agrees format_ab na i h = ap (λ k. k == na) (int16_ab_agrees i h)
  is_marker_agrees format_ba na i h = ap (λ k. k == na) (int16_ba_agrees i h)
  is_marker_agrees format_int16_ab na i h = ap (λ k. k == na) (int16_ab_agrees i h)
  is_marker_agrees format_int16_ba na i h = ap (λ k. k == na) (int16_ba_agrees i h)
  is_marker_agrees format_unknown na i h = refl
  is_marker_agrees format_float_ba na i h = refl
  is_marker_agrees format_ascii_ab na i h = refl
  is_marker_agrees format_ascii_ba na i h = refl
  is_marker_agrees format_bcd_ab na i h = refl
  is_marker_agrees format_bcd_ba na i h = refl
  is_marker_agrees format_version_ab na i h = refl
  is_marker_agrees format_version_abcd na i h = refl
  is_marker_agrees format_version_regs na i h = refl
  is_marker_agrees format_date_ymd_abcd na i h = refl
  is_marker_agrees format_datetime_regs na i h = refl
  is_marker_agrees format_epoch32_abcd na i h = refl
  is_marker_agrees format_epoch32_badc na i h = refl
  is_marker_agrees format_a na i h = refl
  is_marker_agrees format_int8 na i h = refl
  is_marker_agrees format_abcd na i h = refl
  is_marker_agrees format_badc na i h = refl
  is_marker_agrees format_uint32_abcd na i h = refl
  is_marker_agrees format_uint32_badc na i h = refl
  is_marker_agrees format_float_abcd na i h = refl
  is_marker_agrees format_float_badc na i h = refl
  is_marker_agrees format_float_dcba na i h = refl
  is_marker_agrees format_float_cdab na i h = refl

  is_na_agrees :
      (config : Option Config) (f : Format) (i : ℕ)
      → i + format_size f ≤ n
      → channel_is_na config f bytes i ≡ channel_is_na config f bytes' i
  unfolding channel_is_na
  is_na_agrees none f i h = refl
  is_na_agrees (some c) f i h = elim (Option-cases c.na_value) [
    | inl unset ↦ rw unset refl
    | inr (na, set) ↦ rw set (is_marker_agrees f na i h)
  ]

  -- Nothing behind the payload that was received reaches a value: two buffers that hold the same in
  -- the payload give the same reading, for a channel whose length, where it has one, is at least that
  -- of its format.
  pub read_channel_window :
      (config : Option Config) (input : Block) (channel : Channel)
      → IsMeasured channel
      → read_channel config (pos n) bytes input channel
        ≡ read_channel config (pos n) bytes' input channel
  unfolding read_channel
  read_channel_window config input channel measured =
      elim (Option-cases (channel_in_range config (pos n) input channel)) [
        | inl outside ↦ rw (outside, read_channel) refl
        | inr (i, found) ↦ elim (Bool-cases input.is_bit) [
          | inl bits ↦
              rw (found, read_channel, bits)
                (ap (λ b. bit (b / 2 ^ (i % 8) % 2))
                  (agree (i / 8) (bit_fits config n i input channel found bits)))
          | inr whole ↦
              let h = bytes_fit config n i input channel found whole measured in
              rw
                (
                  found,
                  read_channel,
                  whole,
                  is_na_agrees config channel.format i h,
                  read_value_agrees channel.format i h,
                )
                refl
        ]
      ]
