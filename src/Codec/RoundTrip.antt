-- ===== src/Codec/RoundTrip.antt =====
-- What `modbusmq_encode_value` writes, `modbusmq_read_channel` reads.
use modbusmq.Codec.{
  Format, Double, Value, float_bits, integer, encode_value, format_size, read_value, encode_pair,
  encode_bytes, encode_bits,
}
use modbusmq.Codec.{
  format_a, format_ab, format_ba, format_int8, format_int16_ab, format_int16_ba, format_abcd,
  format_badc, format_uint32_abcd, format_uint32_badc, format_float_abcd, format_float_badc,
  format_float_dcba, format_float_cdab, format_unknown, format_float_ba, format_ascii_ab,
  format_ascii_ba, format_bcd_ab, format_bcd_ba, format_version_ab, format_version_abcd,
  format_version_regs, format_date_ymd_abcd, format_datetime_regs, format_epoch32_abcd,
  format_epoch32_badc,
}
use modbusmq.Base.{ℕ, ◌≡◌, arith, ℤ, ◌<◌, pos, negsuc, ◌^◌, is_negative, true, ◌↔◌, none, refl}

abbrev IsUnsigned : ℕ → ℤ → Type 0
IsUnsigned n (pos v) = v < n
IsUnsigned n (negsuc v) = ⊥

-- From `-half` up to `half - 1`.
abbrev IsSigned : ℕ → ℤ → Type 0
IsSigned half (pos v) = v < half
IsSigned half (negsuc v) = v < half

-- The value is one that the format can hold, and the format is one of numbers.
abbrev pub Fits : Format → Double → Type 0
Fits format_a v = IsUnsigned (2 ^ 8) v.truncated
Fits format_ab v = IsUnsigned (2 ^ 16) v.truncated
Fits format_ba v = IsUnsigned (2 ^ 16) v.truncated
Fits format_uint32_abcd v = IsUnsigned (2 ^ 32) v.truncated
Fits format_uint32_badc v = IsUnsigned (2 ^ 32) v.truncated
Fits format_int8 v = IsSigned (2 ^ 7) v.truncated
Fits format_int16_ab v = IsSigned (2 ^ 15) v.truncated
Fits format_int16_ba v = IsSigned (2 ^ 15) v.truncated
Fits format_abcd v = IsSigned (2 ^ 31) v.truncated
Fits format_badc v = IsSigned (2 ^ 31) v.truncated
Fits format_float_abcd v = v.bits < 2 ^ 32
Fits format_float_badc v = v.bits < 2 ^ 32
Fits format_float_dcba v = v.bits < 2 ^ 32
Fits format_float_cdab v = v.bits < 2 ^ 32
Fits _ v = ⊥

-- The value itself: a float by its bits, and else an integer.
abbrev pub value_of : Format → Double → Value
value_of format_float_abcd v = float_bits v.bits
value_of format_float_badc v = float_bits v.bits
value_of format_float_dcba v = float_bits v.bits
value_of format_float_cdab v = float_bits v.bits
value_of _ v = integer v.truncated

-- The formats that modbusmq_encode_value refuses are those that modbusmq_read_channel cannot read.
pub encode_value_refuses_iff :
    (f : Format) (v : Double) (out bytes : ℕ → ℕ) (i : ℕ)
    → (is_negative (encode_value f v out).0 ≡ true) ↔ (read_value f bytes i ≡ none)
unfolding encode_value format_size read_value encode_pair encode_bytes encode_bits
encode_value_refuses_iff format_a v out bytes i = (λ e. ground (arith, e), λ e. ground (arith, e))
encode_value_refuses_iff format_ab v out bytes i = (λ e. ground (arith, e), λ e. ground (arith, e))
encode_value_refuses_iff format_ba v out bytes i = (λ e. ground (arith, e), λ e. ground (arith, e))
encode_value_refuses_iff format_int8 v out bytes i =
    (λ e. ground (arith, e), λ e. ground (arith, e))
encode_value_refuses_iff format_int16_ab v out bytes i =
    (λ e. ground (arith, e), λ e. ground (arith, e))
encode_value_refuses_iff format_int16_ba v out bytes i =
    (λ e. ground (arith, e), λ e. ground (arith, e))
encode_value_refuses_iff format_abcd v out bytes i =
    (λ e. ground (arith, e), λ e. ground (arith, e))
encode_value_refuses_iff format_badc v out bytes i =
    (λ e. ground (arith, e), λ e. ground (arith, e))
encode_value_refuses_iff format_uint32_abcd v out bytes i =
    (λ e. ground (arith, e), λ e. ground (arith, e))
encode_value_refuses_iff format_uint32_badc v out bytes i =
    (λ e. ground (arith, e), λ e. ground (arith, e))
encode_value_refuses_iff format_float_abcd v out bytes i =
    (λ e. ground (arith, e), λ e. ground (arith, e))
encode_value_refuses_iff format_float_badc v out bytes i =
    (λ e. ground (arith, e), λ e. ground (arith, e))
encode_value_refuses_iff format_float_dcba v out bytes i =
    (λ e. ground (arith, e), λ e. ground (arith, e))
encode_value_refuses_iff format_float_cdab v out bytes i =
    (λ e. ground (arith, e), λ e. ground (arith, e))
encode_value_refuses_iff format_unknown v out bytes i = (λ e. refl, λ e. refl)
encode_value_refuses_iff format_float_ba v out bytes i = (λ e. refl, λ e. refl)
encode_value_refuses_iff format_ascii_ab v out bytes i = (λ e. refl, λ e. refl)
encode_value_refuses_iff format_ascii_ba v out bytes i = (λ e. refl, λ e. refl)
encode_value_refuses_iff format_bcd_ab v out bytes i = (λ e. refl, λ e. refl)
encode_value_refuses_iff format_bcd_ba v out bytes i = (λ e. refl, λ e. refl)
encode_value_refuses_iff format_version_ab v out bytes i = (λ e. refl, λ e. refl)
encode_value_refuses_iff format_version_abcd v out bytes i = (λ e. refl, λ e. refl)
encode_value_refuses_iff format_version_regs v out bytes i = (λ e. refl, λ e. refl)
encode_value_refuses_iff format_date_ymd_abcd v out bytes i = (λ e. refl, λ e. refl)
encode_value_refuses_iff format_datetime_regs v out bytes i = (λ e. refl, λ e. refl)
encode_value_refuses_iff format_epoch32_abcd v out bytes i = (λ e. refl, λ e. refl)
encode_value_refuses_iff format_epoch32_badc v out bytes i = (λ e. refl, λ e. refl)
