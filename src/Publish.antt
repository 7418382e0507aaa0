-- ===== src/Publish.antt =====
-- Whether a value is worth publishing, lib/modbusmq.c: `modbusmq_channel_decimals`,
-- `modbusmq_channel_format_value`, `modbusmq_text_hash` and `modbusmq_channel_publish_decide`. The
-- operations of C on a `float` are an argument, and a text is the list of its characters. The buffers
-- of the callers hold every text that a `float` is printed as. An interval is not negative, since the
-- parser refuses that; a time is the `uint64_t` of the source.
pub mod Decimals
pub mod Hash
pub mod Interval
pub mod Unchanged
use modbusmq.Base.{
  ℕ, zero, suc, ◌+◌, ◌-◌, ◌*◌, ◌/◌, ◌%◌, ◌^◌, Bool, true, false, ◌&&◌, ◌||◌, not, List, [], ◌∷◌,
  ◌==◌, ltb, leb, if◌then◌else◌, Option, none, some, ℤ, pos, negsuc,
}
use modbusmq.Base.Xor
use Prim.Native.Nat.{bit_xor}
use modbusmq.Codec.{
  Format, format_float_ba, format_float_abcd, format_float_badc, format_float_dcba,
  format_float_cdab, format_ascii_ab, format_ascii_ba, format_bcd_ab, format_bcd_ba,
  format_version_ab, format_version_abcd, format_version_regs, format_date_ymd_abcd,
  format_datetime_regs, format_epoch32_abcd, format_epoch32_badc,
}

-- What C does with a `float`; `print` is the text of `%.*f`.
pub record Floats (F : Type 0) : Type 0 where
  pub zero_float : F
  pub one : F
  pub abs : F → F
  pub minus : F → F → F
  pub times : F → F → F
  pub less : F → F → Bool
  pub is_nan : F → Bool
  pub print : ℕ → F → List ℕ

-- `modbusmq_channel_t`, as far as it decides this; `decimals` is `none` without `has_decimals`. The
-- source keeps `last_value` and `last_text_hash` in one place, of which the format uses one.
pub record Channel (F : Type 0) : Type 0 where
  pub format : Format
  pub mod_by : ℤ
  pub decimals : Option ℕ
  pub on_change : Bool
  pub min_change : F
  pub min_change_rel : F
  pub min_interval : ℕ
  pub max_interval : ℕ
  pub published : Bool
  pub last_value : F
  pub last_text_hash : ℕ
  pub last_publish_ms : ℕ

-- `modbusmq_format_is_text`
unfoldable pub format_is_text : Format → Bool
format_is_text format_ascii_ab = true
format_is_text format_ascii_ba = true
format_is_text format_bcd_ab = true
format_is_text format_bcd_ba = true
format_is_text format_version_ab = true
format_is_text format_version_abcd = true
format_is_text format_version_regs = true
format_is_text format_date_ymd_abcd = true
format_is_text format_datetime_regs = true
format_is_text format_epoch32_abcd = true
format_is_text format_epoch32_badc = true
format_is_text _ = false

unfoldable pub is_float_format : Format → Bool
is_float_format format_float_ba = true
is_float_format format_float_abcd = true
is_float_format format_float_badc = true
is_float_format format_float_dcba = true
is_float_format format_float_cdab = true
is_float_format _ = false

-- The loop that takes the factors of 10 off: what remains, and their number.
unfoldable pub peel_tens : ℕ → ℕ → ℕ → ℕ × ℕ
peel_tens zero remaining tens = (remaining, tens)
peel_tens (suc fuel) remaining tens =
    let rest = peel_tens fuel (remaining / 10) (tens + 1) in
    if ltb 1 remaining && remaining % 10 == 0 then rest else (remaining, tens)

-- The places that a negative `mod` divides by, 3 where it is no power of ten.
unfoldable pub mod_decimals : ℤ → ℕ
mod_decimals (pos n) = 0
mod_decimals (negsuc n) =
    let (remaining, tens) = peel_tens (suc n) (suc n) 0 in if remaining == 1 then tens else 3

-- `modbusmq_channel_decimals`; the flag is MODBUSMQ_TYPE_IS_BIT of the input.
unfoldable pub channel_decimals : {F : Type 0} → Bool → Channel F → ℕ
channel_decimals is_bit channel = elim channel.decimals [
  | some n ↦ n
  | none ↦
      if is_bit
      then 0
      else if is_float_format channel.format
      then 3
      else mod_decimals channel.mod_by
]

-- The loop over the digits: is each of them a zero or the point?
unfoldable pub all_zero : List ℕ → Bool
all_zero [] = true
all_zero (c ∷ text) = (c == 48 || c == 46) && all_zero text

-- "-0.00" without its sign.
unfoldable pub strip_sign : List ℕ → List ℕ
strip_sign [] = []
strip_sign (c ∷ text) = if c == 45 && all_zero text then text else c ∷ text

-- `modbusmq_channel_format_value`
unfoldable pub channel_format_value : {F : Type 0} → Floats F → Bool → Channel F → F → List ℕ
channel_format_value fl is_bit channel value =
    if fl.is_nan value
    then 110 ∷ 117 ∷ 108 ∷ 108 ∷ []
    else strip_sign (fl.print (channel_decimals is_bit channel) value)

-- `modbusmq_text_hash`, and its loop.
unfoldable pub hash_step : ℕ → ℕ → ℕ
hash_step hash c = bit_xor hash c * 16777619 % 2 ^ 32

unfoldable pub hash_loop : ℕ → List ℕ → ℕ
hash_loop hash [] = hash
hash_loop hash (c ∷ text) = hash_loop (hash_step hash c) text

unfoldable pub text_hash : List ℕ → ℕ
text_hash text = hash_loop 2166136261 text

unfoldable pub same_text : List ℕ → List ℕ → Bool
same_text [] [] = true
same_text (a ∷ xs) (b ∷ ys) = a == b && same_text xs ys
same_text _ _ = false

-- What is read of a channel, and when.
pub record Reading (F : Type 0) : Type 0 where
  pub value : F
  pub text : List ℕ
  pub now_ms : ℕ

-- `modbusmq_channel_publish_record`
unfoldable pub publish_record : {F : Type 0} → Reading F → Channel F → Channel F
publish_record r channel =
    let is_text = format_is_text channel.format in
    record channel {
      last_text_hash = if is_text then text_hash r.text else channel.last_text_hash;
      last_value = if is_text then channel.last_value else r.value;
      last_publish_ms = r.now_ms;
      published = true;
    }

-- `modbusmq_channel_text_unchanged`
unfoldable pub text_unchanged : {F : Type 0} → Floats F → Bool → Channel F → List ℕ → Bool
text_unchanged fl is_bit channel text =
    if format_is_text channel.format
    then text_hash text == channel.last_text_hash
    else same_text text (channel_format_value fl is_bit channel channel.last_value)

-- MODBUSMQ_MAX
unfoldable pub greater : {F : Type 0} → Floats F → F → F → F
greater fl x y = if fl.less y x then x else y

-- `now_ms - channel->last_publish_ms`
unfoldable pub since_publish : {F : Type 0} → Channel F → ℕ → ℕ
since_publish channel now = (now + 2 ^ 64 - channel.last_publish_ms) % 2 ^ 64

-- `change_gated`
unfoldable pub change_gated : {F : Type 0} → Floats F → Channel F → Bool
change_gated fl channel =
    channel.on_change
    || fl.less fl.zero_float channel.min_change
    || fl.less fl.zero_float channel.min_change_rel

-- `threshold > 0 && fabsf(value - channel->last_value) < threshold`
unfoldable pub below_threshold : {F : Type 0} → Floats F → Channel F → F → Bool
below_threshold fl channel value =
    let ref = greater fl (fl.abs channel.last_value) (fl.abs value) in
    let threshold =
      greater fl channel.min_change (fl.times channel.min_change_rel (greater fl fl.one ref)) in
    fl.less fl.zero_float threshold
    && fl.less (fl.abs (fl.minus value channel.last_value)) threshold

-- The heartbeat, and the window after a publication.
unfoldable pub is_due : {F : Type 0} → Channel F → ℕ → Bool
is_due channel now =
    ltb 0 channel.max_interval && leb channel.max_interval (since_publish channel now)

unfoldable pub is_too_soon : {F : Type 0} → Channel F → ℕ → Bool
is_too_soon channel now =
    ltb 0 channel.min_interval && ltb (since_publish channel now) channel.min_interval

-- `modbusmq_channel_publish_decide`: is the reading published? with the channel behind it.
unfoldable pub publish_decide :
    {F : Type 0} → Floats F → Bool → Reading F → Channel F → Bool × Channel F
publish_decide fl is_bit r channel =
    if not channel.published
    then (true, publish_record r channel)
    else if is_due channel r.now_ms
    then (true, publish_record r channel)
    else if is_too_soon channel r.now_ms
    then (false, channel)
    else if change_gated fl channel && text_unchanged fl is_bit channel r.text
    then (false, channel)
    else if not (format_is_text channel.format) && below_threshold fl channel r.value
    then (false, channel)
    else (true, publish_record r channel)
