-- ===== src/Settings.antt =====
-- The data formats of the configuration, lib/modbusmq_config.c: their names, what an older version of
-- the configuration means by them, and the defaults of the publish settings. The rest of the parser is
-- not modelled.
pub mod Names
use Prim.Native.String.{String}
use text.Mathlib.Text.{◌==◌ as str_eq}
use modbusmq.Base.{
  ℕ, zero, suc, ◌+◌, Bool, true, false, List, [], ◌∷◌, map, Option, none, some, if◌then◌else◌,
}
use modbusmq.Codec.{
  Format, format_unknown, format_int8, format_int16_ab, format_int16_ba, format_abcd, format_badc,
  format_a, format_ab, format_ba, format_uint32_abcd, format_uint32_badc, format_float_ba,
  format_float_abcd, format_float_badc, format_float_dcba, format_float_cdab, format_ascii_ab,
  format_ascii_ba, format_bcd_ab, format_bcd_ba, format_version_ab, format_version_abcd,
  format_version_regs, format_date_ymd_abcd, format_datetime_regs, format_epoch32_abcd,
  format_epoch32_badc,
}

-- The names in the order in which they are compared.
abbrev pub format_names : List (String × Format)
format_names =
    ("int_a", format_int8)
    ∷ ("int_ab", format_int16_ab)
    ∷ ("int_ba", format_int16_ba)
    ∷ ("int_abcd", format_abcd)
    ∷ ("int_badc", format_badc)
    ∷ ("uint_a", format_a)
    ∷ ("uint_ab", format_ab)
    ∷ ("uint_ba", format_ba)
    ∷ ("uint_abcd", format_uint32_abcd)
    ∷ ("uint_badc", format_uint32_badc)
    ∷ ("float_ba", format_float_ba)
    ∷ ("float_abcd", format_float_abcd)
    ∷ ("float_badc", format_float_badc)
    ∷ ("float_dcba", format_float_dcba)
    ∷ ("float_cdab", format_float_cdab)
    ∷ ("ascii_ab", format_ascii_ab)
    ∷ ("ascii_ba", format_ascii_ba)
    ∷ ("bcd_ab", format_bcd_ab)
    ∷ ("bcd_ba", format_bcd_ba)
    ∷ ("version_ab", format_version_ab)
    ∷ ("version_abcd", format_version_abcd)
    ∷ ("version_regs", format_version_regs)
    ∷ ("date_ymd_abcd", format_date_ymd_abcd)
    ∷ ("datetime_regs", format_datetime_regs)
    ∷ ("epoch32_abcd", format_epoch32_abcd)
    ∷ ("epoch32_badc", format_epoch32_badc)
    ∷ []

-- The first name that is equal.
unfoldable pub named_in : List (String × Format) → String → Format
named_in [] value = format_unknown
named_in ((name, format) ∷ names) value =
    let rest = named_in names value in if str_eq value name then format else rest

-- `modbusmq_config_dataformat`
unfoldable pub dataformat : String → Format
dataformat value = named_in format_names value

-- `modbusmq_config_dataformat_name`
unfoldable pub dataformat_name : Format → String
dataformat_name format_int8 = "int_a"
dataformat_name format_int16_ab = "int_ab"
dataformat_name format_int16_ba = "int_ba"
dataformat_name format_abcd = "int_abcd"
dataformat_name format_badc = "int_badc"
dataformat_name format_a = "uint_a"
dataformat_name format_ab = "uint_ab"
dataformat_name format_ba = "uint_ba"
dataformat_name format_uint32_abcd = "uint_abcd"
dataformat_name format_uint32_badc = "uint_badc"
dataformat_name format_float_ba = "float_ba"
dataformat_name format_float_abcd = "float_abcd"
dataformat_name format_float_badc = "float_badc"
dataformat_name format_float_dcba = "float_dcba"
dataformat_name format_float_cdab = "float_cdab"
dataformat_name format_ascii_ab = "ascii_ab"
dataformat_name format_ascii_ba = "ascii_ba"
dataformat_name format_bcd_ab = "bcd_ab"
dataformat_name format_bcd_ba = "bcd_ba"
dataformat_name format_version_ab = "version_ab"
dataformat_name format_version_abcd = "version_abcd"
dataformat_name format_version_regs = "version_regs"
dataformat_name format_date_ymd_abcd = "date_ymd_abcd"
dataformat_name format_datetime_regs = "datetime_regs"
dataformat_name format_epoch32_abcd = "epoch32_abcd"
dataformat_name format_epoch32_badc = "epoch32_badc"
dataformat_name _ = "?"

-- What the names meant before version 2.0, and whether that is another format.
unfoldable pub unsigned_format : Format → Format × ℕ
unsigned_format format_int8 = (format_a, 1)
unsigned_format format_int16_ab = (format_ab, 1)
unsigned_format format_int16_ba = (format_ba, 1)
unsigned_format kept = (kept, 0)

unfoldable pub unsigned_formats : List Format → List Format × ℕ
unsigned_formats [] = ([], 0)
unsigned_formats (f ∷ fs) =
    let (f', n) = unsigned_format f in let (fs', m) = unsigned_formats fs in (f' ∷ fs', n + m)

-- The formats of a configuration: those of the channels of each input, and those of each write with
-- its channels.
pub record Formats : Type 0 where
  pub inputs : List (List Format)
  pub writes : List (List Format)

unfoldable pub unsigned_all : List (List Format) → List (List Format) × ℕ
unsigned_all [] = ([], 0)
unsigned_all (fs ∷ rest) =
    let (fs', n) = unsigned_formats fs in let (rest', m) = unsigned_all rest in (fs' ∷ rest', n + m)

-- `modbusmq_config_apply_format_version`, by whether the version is at least 2.0, with the number of
-- formats that were changed.
unfoldable pub apply_format_version : Bool → Formats → Formats × ℕ
apply_format_version is_signed config =
    let (inputs, n) = unsigned_all config.inputs in
    let (writes, m) = unsigned_all config.writes in
    if is_signed then (config, 0) else (record { inputs = inputs; writes = writes }, n + m)

-- The publish settings of a channel, an input or the configuration; `none` where one is not set.
pub record PublishKeys (F : Type 0) : Type 0 where
  pub on_change : Option Bool
  pub min_change : Option F
  pub min_change_rel : Option F
  pub min_interval : Option ℕ
  pub max_interval : Option ℕ

-- The setting itself, or else the default.
abbrev pub or_default {ℓ} : {A : Type ℓ} → Option A → Option A → Option A
or_default none d = d
or_default (some x) d = some x

-- The body of the loop of `modbusmq_config_apply_publish_defaults`: the channel, its input, and the
-- configuration.
unfoldable pub inherit :
    {F : Type 0} → PublishKeys F → PublishKeys F → PublishKeys F → PublishKeys F
inherit config input channel = record {
  on_change = or_default channel.on_change (or_default input.on_change config.on_change);
  min_change = or_default channel.min_change (or_default input.min_change config.min_change);
  min_change_rel =
      or_default channel.min_change_rel (or_default input.min_change_rel config.min_change_rel);
  min_interval =
      or_default channel.min_interval (or_default input.min_interval config.min_interval);
  max_interval =
      or_default channel.max_interval (or_default input.max_interval config.max_interval);
}

-- `modbusmq_config_apply_publish_defaults`
unfoldable pub apply_publish_defaults :
    {F : Type 0}
    → PublishKeys F
    → List (PublishKeys F × List (PublishKeys F))
    → List (PublishKeys F × List (PublishKeys F))
apply_publish_defaults config [] = []
apply_publish_defaults config ((input, channels) ∷ inputs) =
    (input, map (inherit config input) channels) ∷ apply_publish_defaults config inputs
