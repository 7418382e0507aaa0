-- ===== src/Codec.antt =====
-- The register formats of lib/modbusmq.c: the readers, `modbusmq_format_size`,
-- `modbusmq_channel_in_range`, `modbusmq_read_channel` up to its scaling, and
-- `modbusmq_encode_value`. A `float` is known by its 32 bits.
pub mod Bounds
pub mod Decode
pub mod Digits
pub mod Encode
pub mod RoundTrip
pub mod Text
pub mod Window
use modbusmq.Base.{
  sub_ℤ, ℕ, ◌+◌, ◌*◌, ◌-◌, ◌/◌, ◌%◌, ◌^◌, Option, none, some, ℤ, pos, negsuc, if◌then◌else◌, ◌==◌,
  ltb, Bool, sub_ℤ, scale_ℤ, false, leb,
}
use modbusmq.Frame.{put}

-- `modbusmq_data_format_e`
pub data Format : Type 0 where
  format_unknown format_a format_ab format_ba format_int8 format_int16_ab format_int16_ba : Format
  format_abcd format_badc format_uint32_abcd format_uint32_badc : Format
  format_float_ba format_float_abcd format_float_badc format_float_dcba format_float_cdab : Format
  format_ascii_ab format_ascii_ba format_bcd_ab format_bcd_ba : Format
  format_version_ab format_version_abcd format_version_regs : Format
  format_date_ymd_abcd format_datetime_regs format_epoch32_abcd format_epoch32_badc : Format

-- `modbusmq_format_size`
unfoldable pub format_size : Format → ℕ
format_size format_a = 1
format_size format_int8 = 1
format_size format_ab = 2
format_size format_ba = 2
format_size format_int16_ab = 2
format_size format_int16_ba = 2
format_size format_float_ba = 2
format_size format_version_ab = 2
format_size format_datetime_regs = 12
format_size format_ascii_ab = 0
format_size format_ascii_ba = 0
format_size format_bcd_ab = 0
format_size format_bcd_ba = 0
format_size format_version_regs = 0
format_size _ = 4

-- The readers, at an index of a buffer of bytes. A byte that is shifted into place shares no bit with
-- the others.
unfoldable pub read_int16_ab : (ℕ → ℕ) → ℕ → ℕ
read_int16_ab bytes i = bytes i * 2 ^ 8 + bytes (i + 1)

unfoldable pub read_int16_ba : (ℕ → ℕ) → ℕ → ℕ
read_int16_ba bytes i = bytes (i + 1) * 2 ^ 8 + bytes i

unfoldable pub read_int32_abcd : (ℕ → ℕ) → ℕ → ℕ
read_int32_abcd bytes i =
    bytes i * 2 ^ 24 + bytes (i + 1) * 2 ^ 16 + bytes (i + 2) * 2 ^ 8 + bytes (i + 3)

unfoldable pub read_int32_badc : (ℕ → ℕ) → ℕ → ℕ
read_int32_badc bytes i =
    bytes (i + 1) * 2 ^ 24 + bytes i * 2 ^ 16 + bytes (i + 3) * 2 ^ 8 + bytes (i + 2)

unfoldable pub read_int32_dcba : (ℕ → ℕ) → ℕ → ℕ
read_int32_dcba bytes i =
    bytes (i + 3) * 2 ^ 24 + bytes (i + 2) * 2 ^ 16 + bytes (i + 1) * 2 ^ 8 + bytes i

-- The bits that `modbusmq_read_float_cdab` copies.
unfoldable pub read_float_cdab : (ℕ → ℕ) → ℕ → ℕ
read_float_cdab bytes i =
    bytes (i + 2) * 2 ^ 24 + bytes (i + 3) * 2 ^ 16 + bytes i * 2 ^ 8 + bytes (i + 1)

-- The two's complement reading of `2 * half` values.
unfoldable pub signed : ℕ → ℕ → ℤ
signed half v = if ltb v half then pos v else negsuc (2 * half - 1 - v)

-- `modbusmq_read_int16_ab_signed` and `modbusmq_read_int16_ba_signed`
unfoldable pub read_int16_ab_signed : (ℕ → ℕ) → ℕ → ℤ
read_int16_ab_signed bytes i = signed (2 ^ 15) (read_int16_ab bytes i)

unfoldable pub read_int16_ba_signed : (ℕ → ℕ) → ℕ → ℤ
read_int16_ba_signed bytes i = signed (2 ^ 15) (read_int16_ba bytes i)

-- A raw value: an integer, or a float by its bits.
pub data Value : Type 0 where
  integer : ℤ → Value
  float_bits : ℕ → Value

-- The formats of `modbusmq_read_channel`; `none` is a format that it does not handle.
unfoldable pub read_value : Format → (ℕ → ℕ) → ℕ → Option Value
read_value format_float_abcd bytes i = some (float_bits (read_int32_abcd bytes i))
read_value format_float_badc bytes i = some (float_bits (read_int32_badc bytes i))
read_value format_float_dcba bytes i = some (float_bits (read_int32_dcba bytes i))
read_value format_float_cdab bytes i = some (float_bits (read_float_cdab bytes i))
read_value format_ab bytes i = some (integer (pos (read_int16_ab bytes i)))
read_value format_ba bytes i = some (integer (pos (read_int16_ba bytes i)))
read_value format_int16_ab bytes i = some (integer (read_int16_ab_signed bytes i))
read_value format_int16_ba bytes i = some (integer (read_int16_ba_signed bytes i))
read_value format_abcd bytes i = some (integer (signed (2 ^ 31) (read_int32_abcd bytes i)))
read_value format_badc bytes i = some (integer (signed (2 ^ 31) (read_int32_badc bytes i)))
read_value format_uint32_abcd bytes i = some (integer (pos (read_int32_abcd bytes i)))
read_value format_uint32_badc bytes i = some (integer (pos (read_int32_badc bytes i)))
read_value format_a bytes i = some (integer (pos (bytes i)))
read_value format_int8 bytes i = some (integer (signed (2 ^ 7) (bytes i)))
read_value _ bytes i = none

-- A `double`: the integer that it converts to, and the bits of the `float` that it converts to. An
-- integer beyond the type that it is converted to is undefined in C; it wraps here.
pub record Double : Type 0 where
  pub truncated : ℤ
  pub bits : ℕ

-- The lowest bits of an integer, `n` being a power of 2.
unfoldable pub wrap : ℕ → ℤ → ℕ
wrap n (pos v) = v % n
wrap n (negsuc v) = n - 1 - v % n

-- `out[0] = …; out[1] = …;`, in the order of the bytes that are given.
unfoldable pub store2 : (ℕ → ℕ) → ℕ → ℕ → ℕ → ℕ
store2 out x y = put (put out 0 x) 1 y

unfoldable pub store4 : (ℕ → ℕ) → ℕ → ℕ → ℕ → ℕ → ℕ → ℕ
store4 out x y z w = put (put (put (put out 0 x) 1 y) 2 z) 3 w

-- The bytes of the 32 bits `i`, highest first, in the order of a format of four bytes.
unfoldable pub encode_bytes : Format → ℕ → (ℕ → ℕ) → ℤ × (ℕ → ℕ)
encode_bytes format i out =
    let byte_a = i / 2 ^ 24 in
    let byte_b = i / 2 ^ 16 in
    let byte_c = i / 2 ^ 8 in
    elim format [
      | format_float_abcd ↦ (pos 4, store4 out byte_a byte_b byte_c i)
      | format_abcd ↦ (pos 4, store4 out byte_a byte_b byte_c i)
      | format_uint32_abcd ↦ (pos 4, store4 out byte_a byte_b byte_c i)
      | format_float_badc ↦ (pos 4, store4 out byte_b byte_a i byte_c)
      | format_badc ↦ (pos 4, store4 out byte_b byte_a i byte_c)
      | format_uint32_badc ↦ (pos 4, store4 out byte_b byte_a i byte_c)
      | format_float_dcba ↦ (pos 4, store4 out i byte_c byte_b byte_a)
      | format_float_cdab ↦ (pos 4, store4 out byte_c i byte_a byte_b)
      | _ ↦ (negsuc 0, out)
    ]

-- The 32 bits that a format of four bytes is made of.
unfoldable pub encode_bits : Format → Double → Option ℕ
encode_bits format_float_abcd v = some v.bits
encode_bits format_float_badc v = some v.bits
encode_bits format_float_dcba v = some v.bits
encode_bits format_float_cdab v = some v.bits
encode_bits format_abcd v = some (wrap (2 ^ 32) v.truncated)
encode_bits format_badc v = some (wrap (2 ^ 32) v.truncated)
encode_bits format_uint32_abcd v = some (wrap (2 ^ 32) v.truncated)
encode_bits format_uint32_badc v = some (wrap (2 ^ 32) v.truncated)
encode_bits _ v = none

unfoldable pub encode_pair : Format → ℕ → (ℕ → ℕ) → ℤ × (ℕ → ℕ)
encode_pair format_ab i out = (pos 2, store2 out (i / 2 ^ 8) i)
encode_pair format_int16_ab i out = (pos 2, store2 out (i / 2 ^ 8) i)
encode_pair format_ba i out = (pos 2, store2 out i (i / 2 ^ 8))
encode_pair format_int16_ba i out = (pos 2, store2 out i (i / 2 ^ 8))
encode_pair _ i out = (negsuc 0, out)

-- `modbusmq_encode_value`
unfoldable pub encode_value : Format → Double → (ℕ → ℕ) → ℤ × (ℕ → ℕ)
encode_value format v out =
    let length = format_size format in
    if length == 1
    then (pos 1, put out 0 (wrap (2 ^ 32) v.truncated))
    else if length == 2
    then encode_pair format (wrap (2 ^ 32) v.truncated) out
    else if length == 4
    then elim (encode_bits format v) [ none ↦ (negsuc 0, out) | some i ↦ encode_bytes format i out ]
    else (negsuc 0, out)

-- `modbusmq_config_t`, as far as it reads values.
pub record Config : Type 0 where
  pub offset_size : ℕ
  pub na_value : Option ℕ

-- `modbusmq_channel_t`, as far as it reads values.
pub record Channel : Type 0 where
  pub format : Format
  pub offset : ℤ
  pub length : ℕ

-- The `modbusmq_input_t` of a channel: whether it is of coils or discrete inputs
-- (MODBUSMQ_TYPE_IS_BIT), and its `address_offset`.
pub record Block : Type 0 where
  pub is_bit : Bool
  pub address_offset : ℤ

-- `modbusmq_channel_byte_offset`; without a configuration the unit is a byte.
unfoldable pub channel_byte_offset : Option Config → Block → Channel → ℤ
channel_byte_offset config input channel =
    let unit : ℕ = elim config [
      | none ↦ 1
      | some c ↦ if ltb 0 c.offset_size then c.offset_size else 1
    ] in
    sub_ℤ (scale_ℤ unit channel.offset) (scale_ℤ 2 input.address_offset)

-- `place < 0 || nbytes < 0 || …`
abbrev pub within : ℤ → ℤ → (ℕ → ℕ → Bool) → Option ℕ
within (pos place) (pos n) fits = if fits place n then some place else none
within place n fits = none

-- `modbusmq_channel_in_range`: the place that the channel is read at, a bit or a byte, or `none` where
-- it is out of range.
unfoldable pub channel_in_range : Option Config → ℤ → Block → Channel → Option ℕ
channel_in_range config nbytes input channel =
    if input.is_bit
    then within (sub_ℤ channel.offset input.address_offset) nbytes (λ bit n. ltb (bit / 8) n)
    else (let size = if ltb 0 channel.length then channel.length else format_size channel.format in
        within (channel_byte_offset config input channel) nbytes
          (λ offset n. leb (offset + size) n))

-- The `switch` of `modbusmq_channel_is_na`.
unfoldable pub is_marker : Format → ℕ → (ℕ → ℕ) → ℕ → Bool
is_marker format_ab na bytes i = read_int16_ab bytes i == na
is_marker format_int16_ab na bytes i = read_int16_ab bytes i == na
is_marker format_ba na bytes i = read_int16_ba bytes i == na
is_marker format_int16_ba na bytes i = read_int16_ba bytes i == na
is_marker _ na bytes i = false

-- `modbusmq_channel_is_na`
unfoldable pub channel_is_na : Option Config → Format → (ℕ → ℕ) → ℕ → Bool
channel_is_na none f bytes i = false
channel_is_na (some c) f bytes i = elim c.na_value [
  | none ↦ false
  | some na ↦ is_marker f na bytes i
]

-- What `modbusmq_read_channel` makes of the bytes of an answer, before `add`, `mod` and `mul`.
pub data Reading : Type 0 where
  out_of_range not_available unhandled : Reading
  bit : ℕ → Reading
  raw : Value → Reading

-- `modbusmq_read_channel`, without the scaling, over the bytes of the payload and their number.
unfoldable pub read_channel : Option Config → ℤ → (ℕ → ℕ) → Block → Channel → Reading
read_channel config nbytes bytes input channel =
    elim (channel_in_range config nbytes input channel) [
      | none ↦ out_of_range
      | some i ↦
          if input.is_bit
          then bit (bytes (i / 8) / 2 ^ (i % 8) % 2)
          else if channel_is_na config channel.format bytes i
          then not_available
          else elim (read_value channel.format bytes i) [ none ↦ unhandled | some v ↦ raw v ]
    ]
