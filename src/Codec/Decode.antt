-- ===== src/Codec/Decode.antt =====
-- `modbusmq_read_channel_text` of lib/modbusmq.c, with the decoders of its formats. A text is the list
-- of its characters, and `none` is the -1 of the source. What it asks of the C library is an argument.
pub mod Ascii
use modbusmq.Base.{
  ℕ, zero, suc, ◌+◌, ◌-◌, ◌*◌, ◌/◌, ◌%◌, ◌^◌, Bool, true, false, ◌&&◌, ◌||◌, not, List, [], ◌∷◌,
  ◌++◌, length, Option, none, some, ◌==◌, ltb, leb, if◌then◌else◌, ℤ, pos, negsuc, sub_ℕ, plus_ℤ,
}
use modbusmq.Codec.{
  Format, Channel, Config, Block, channel_in_range, read_int32_abcd, read_int32_badc,
  format_ascii_ab, format_ascii_ba, format_bcd_ab, format_bcd_ba, format_version_ab,
  format_version_abcd, format_version_regs, format_date_ymd_abcd, format_datetime_regs,
  format_epoch32_abcd, format_epoch32_badc,
}
use modbusmq.Codec.Text.{text_byte, text_bcd}

-- The fields of `struct tm` that are set.
pub record Tm : Type 0 where
  pub tm_year : ℤ
  pub tm_mon : ℤ
  pub tm_mday : ℤ
  pub tm_hour : ℤ
  pub tm_min : ℤ
  pub tm_sec : ℤ

-- `%u` of snprintf; `strftime` by its pattern, of at most so many characters, which gives none where
-- they do not fit; `gmtime_r` and `localtime_r`.
pub record ClockLibrary : Type 0 where
  pub print_unsigned : ℕ → List ℕ
  pub strftime : List ℕ → Tm → ℕ → List ℕ
  pub gmtime : ℤ → Option Tm
  pub localtime : ℤ → Option Tm

-- `modbusmq_channel_t`, as far as it reads texts; `add` is used by the epoch formats.
pub record TextChannel : Type 0 where
  pub channel : Channel
  pub timefmt : Option (List ℕ)
  pub is_localtime : Bool
  pub add : ℤ

-- `modbusmq_format_is_epoch`
unfoldable pub format_is_epoch : Format → Bool
format_is_epoch format_epoch32_abcd = true
format_is_epoch format_epoch32_badc = true
format_is_epoch _ = false

-- `modbusmq_text_trim`: the spaces before and behind.
unfoldable pub trim_front : List ℕ → List ℕ
trim_front [] = []
trim_front (c ∷ text) = let rest = trim_front text in if c == 32 then rest else c ∷ text

abbrev pub is_empty : List ℕ → Bool
is_empty [] = true
is_empty (c ∷ text) = false

unfoldable pub trim_back : List ℕ → List ℕ
trim_back [] = []
trim_back (c ∷ text) =
    let rest = trim_back text in if is_empty rest && c == 32 then [] else c ∷ rest

unfoldable pub text_trim : List ℕ → List ℕ
text_trim text = trim_back (trim_front text)

-- A character behind which the rest of the text comes.
abbrev pub cons_char : ℕ → Option (List ℕ) → Option (List ℕ)
cons_char c none = none
cons_char c (some text) = some (c ∷ text)

-- `(c < 0x20 || c > 0x7E) ? '?' : c`
abbrev pub printable : ℕ → ℕ
printable c = if ltb c 0x20 || ltb 0x7e c then 63 else c

-- The loop of `modbusmq_text_ascii`, where `n` characters are in the text.
unfoldable pub ascii_chars : Bool → (ℕ → ℕ) → ℕ → ℕ → ℕ → ℕ → ℕ → Option (List ℕ)
ascii_chars swap bytes size room zero i n = some []
ascii_chars swap bytes size room (suc left) i n =
    let c = text_byte bytes size i swap in
    let skipped = ascii_chars swap bytes size room left (i + 1) n in
    let rest = ascii_chars swap bytes size room left (i + 1) (n + 1) in
    if c == 0 then skipped else if leb room (n + 1) then none else cons_char (printable c) rest

abbrev pub map_trim : Option (List ℕ) → Option (List ℕ)
map_trim none = none
map_trim (some text) = some (text_trim text)

-- `modbusmq_text_ascii`
unfoldable pub text_ascii : (ℕ → ℕ) → ℕ → Bool → ℕ → Option (List ℕ)
text_ascii bytes size swap room = map_trim (ascii_chars swap bytes size room size 0 0)

-- `modbusmq_text_version`, where `text` is written and the field at `i` is next; a field is a byte
-- or a register wide, so that there are no more turns than bytes.
unfoldable pub version_fields :
    ClockLibrary → (ℕ → ℕ) → ℕ → ℕ → ℕ → ℕ → ℕ → List ℕ → Option (List ℕ)
version_fields lib bytes size stride room zero i text = some text
version_fields lib bytes size stride room (suc left) i text =
    let field = if stride == 2 then bytes i * 2 ^ 8 + bytes (i + 1) else bytes i in
    let digits = lib.print_unsigned field in
    let text' = text ++ (if is_empty text then digits else 46 ∷ digits) in
    let rest = version_fields lib bytes size stride room left (i + stride) text' in
    if ltb size (i + stride) then some text else if leb room (length text') then none else rest

unfoldable pub text_version : ClockLibrary → (ℕ → ℕ) → ℕ → ℕ → ℕ → Option (List ℕ)
text_version lib bytes size stride room = version_fields lib bytes size stride room size 0 []

-- MODBUSMQ_TIMEFMT_NAIVE, MODBUSMQ_TIMEFMT_DEFAULT and MODBUSMQ_DATEFMT_DEFAULT
abbrev datefmt_default : List ℕ
datefmt_default = 37 ∷ 89 ∷ 45 ∷ 37 ∷ 109 ∷ 45 ∷ 37 ∷ 100 ∷ []

abbrev timefmt_naive : List ℕ
timefmt_naive = datefmt_default ++ 84 ∷ 37 ∷ 72 ∷ 58 ∷ 37 ∷ 77 ∷ 58 ∷ 37 ∷ 83 ∷ []

abbrev timefmt_default : List ℕ
timefmt_default = timefmt_naive ++ 90 ∷ []

abbrev is_date : Format → Bool
is_date format_date_ymd_abcd = true
is_date _ = false

-- `modbusmq_channel_timefmt`
unfoldable pub channel_timefmt : TextChannel → List ℕ
channel_timefmt c = elim c.timefmt [
  | some pattern_given ↦ pattern_given
  | none ↦
      if is_date c.channel.format
      then datefmt_default
      else if format_is_epoch c.channel.format && not c.is_localtime
      then timefmt_default
      else timefmt_naive
]

abbrev between : ℕ → ℕ → ℤ → Bool
between low high (pos n) = leb low n && leb n high
between low high (negsuc n) = false

-- `modbusmq_tm_valid`
unfoldable pub tm_valid : Tm → Bool
tm_valid tm =
    between 70 1099 tm.tm_year
    && between 0 11 tm.tm_mon
    && between 1 31 tm.tm_mday
    && between 0 23 tm.tm_hour
    && between 0 59 tm.tm_min
    && between 0 60 tm.tm_sec

-- `modbusmq_text_strftime`
unfoldable pub text_strftime : ClockLibrary → TextChannel → Tm → ℕ → Option (List ℕ)
text_strftime lib c tm room =
    let text = lib.strftime (channel_timefmt c) tm room in
    if not (tm_valid tm) then none else if is_empty text then none else some text

abbrev strftime_of : ClockLibrary → TextChannel → ℕ → Option Tm → Option (List ℕ)
strftime_of lib c room none = none
strftime_of lib c room (some tm) = text_strftime lib c tm room

-- `modbusmq_text_epoch`
unfoldable pub text_epoch : ClockLibrary → TextChannel → ℕ → ℕ → Option (List ℕ)
text_epoch lib c raw room =
    let t = plus_ℤ (pos raw) c.add in
    strftime_of lib c room (if c.is_localtime then lib.localtime t else lib.gmtime t)

-- The time of the format date.
unfoldable pub date_tm : (ℕ → ℕ) → Tm
date_tm octets = record {
  tm_year = sub_ℕ (octets 0 * 2 ^ 8 + octets 1) 1900;
  tm_mon = sub_ℕ (octets 2) 1;
  tm_mday = pos (octets 3);
  tm_hour = pos 0;
  tm_min = pos 0;
  tm_sec = pos 0;
}

-- The time of the format datetime.
unfoldable pub datetime_tm : (ℕ → ℕ) → Tm
datetime_tm octets = record {
  tm_year = sub_ℕ (octets 0 * 2 ^ 8 + octets 1) 1900;
  tm_mon = sub_ℕ (octets 2 * 2 ^ 8 + octets 3) 1;
  tm_mday = pos (octets 4 * 2 ^ 8 + octets 5);
  tm_hour = pos (octets 6 * 2 ^ 8 + octets 7);
  tm_min = pos (octets 8 * 2 ^ 8 + octets 9);
  tm_sec = pos (octets 10 * 2 ^ 8 + octets 11);
}

-- The `switch`, over the bytes of the channel.
unfoldable pub text_of : ClockLibrary → Format → TextChannel → (ℕ → ℕ) → ℕ → Option (List ℕ)
text_of lib format_ascii_ab c octets room = text_ascii octets c.channel.length false room
text_of lib format_ascii_ba c octets room = text_ascii octets c.channel.length true room
text_of lib format_bcd_ab c octets room = text_bcd octets c.channel.length false room
text_of lib format_bcd_ba c octets room = text_bcd octets c.channel.length true room
text_of lib format_version_ab c octets room = text_version lib octets c.channel.length 1 room
text_of lib format_version_abcd c octets room = text_version lib octets c.channel.length 1 room
text_of lib format_version_regs c octets room = text_version lib octets c.channel.length 2 room
text_of lib format_date_ymd_abcd c octets room = text_strftime lib c (date_tm octets) room
text_of lib format_datetime_regs c octets room = text_strftime lib c (datetime_tm octets) room
text_of lib format_epoch32_abcd c octets room = text_epoch lib c (read_int32_abcd octets 0) room
text_of lib format_epoch32_badc c octets room = text_epoch lib c (read_int32_badc octets 0) room
text_of lib _ c octets room = none

-- `modbusmq_read_channel_text`, over the bytes of the payload and their number.
unfoldable pub read_channel_text :
    ClockLibrary → Option Config → ℤ → (ℕ → ℕ) → Block → TextChannel → ℕ → Option (List ℕ)
read_channel_text lib config nbytes bytes input c room =
    if input.is_bit then none else elim (channel_in_range config nbytes input c.channel) [
      | none ↦ none
      | some place ↦ text_of lib c.channel.format c (λ j. bytes (place + j)) room
    ]
