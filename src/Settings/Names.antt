-- ===== src/Settings/Names.antt =====
-- The names of the data formats.
use Prim.Native.String.{String}
use text.Mathlib.Text.{◌==◌ as str_eq}
use text.Mathlib.TextEquality.{eq_iff}
use modbusmq.Base.{
  ◌≡◌, ◌≢◌, ◌↔◌, refl, sym, ◌∙◌, ap, List, [], ◌∷◌, All, Bool-cases, inl, inr, if◌then◌else◌,
}
use modbusmq.Codec.{
  Format, format_unknown, format_int8, format_int16_ab, format_int16_ba, format_abcd, format_badc,
  format_a, format_ab, format_ba, format_uint32_abcd, format_uint32_badc, format_float_ba,
  format_float_abcd, format_float_badc, format_float_dcba, format_float_cdab, format_ascii_ab,
  format_ascii_ba, format_bcd_ab, format_bcd_ba, format_version_ab, format_version_abcd,
  format_version_regs, format_date_ymd_abcd, format_datetime_regs, format_epoch32_abcd,
  format_epoch32_badc,
}
use modbusmq.Settings.{format_names, named_in, dataformat, dataformat_name}

-- Each name of the table is that of its format.
abbrev IsNamed : String × Format → Type 0
IsNamed entry = entry.0 ≡ dataformat_name entry.1

table-IsNamed : All IsNamed format_names
unfolding dataformat_name
table-IsNamed = (
  refl,
  (
    refl,
    (
      refl,
      (
        refl,
        (
          refl,
          (
            refl,
            (
              refl,
              (
                refl,
                (
                  refl,
                  (
                    refl,
                    (
                      refl,
                      (
                        refl,
                        (
                          refl,
                          (
                            refl,
                            (
                              refl,
                              (
                                refl,
                                (
                                  refl,
                                  (
                                    refl,
                                    (
                                      refl,
                                      (refl, (refl, (refl, (refl, (refl, (refl, (refl, tt))))))),
                                    ),
                                  ),
                                ),
                              ),
                            ),
                          ),
                        ),
                      ),
                    ),
                  ),
                ),
              ),
            ),
          ),
        ),
      ),
    ),
  ),
)

name_of :
    (names : List (String × Format)) (value : String) (f : Format)
    → All IsNamed names
    → f ≢ format_unknown
    → named_in names value ≡ f
    → value ≡ dataformat_name f
unfolding named_in
name_of [] value f named known e = absurd (known (sym e))
name_of ((name, g) ∷ names) value f named known e = elim (Bool-cases (str_eq value name)) [
  | inl same ↦
      let found : g ≡ f = sym (ap (λ b. if b then g else named_in names value) same) ∙ e in
      (eq_iff value name).0 same ∙ named.0 ∙ ap dataformat_name found
  | inr other ↦
      name_of names value f named.1 known
        (sym (ap (λ b. if b then g else named_in names value) other) ∙ e)
]

format_of_name : (f : Format) → dataformat (dataformat_name f) ≡ f
unfolding dataformat named_in dataformat_name
format_of_name format_int8 = refl
format_of_name format_int16_ab = refl
format_of_name format_int16_ba = refl
format_of_name format_abcd = refl
format_of_name format_badc = refl
format_of_name format_a = refl
format_of_name format_ab = refl
format_of_name format_ba = refl
format_of_name format_uint32_abcd = refl
format_of_name format_uint32_badc = refl
format_of_name format_float_ba = refl
format_of_name format_float_abcd = refl
format_of_name format_float_badc = refl
format_of_name format_float_dcba = refl
format_of_name format_float_cdab = refl
format_of_name format_ascii_ab = refl
format_of_name format_ascii_ba = refl
format_of_name format_bcd_ab = refl
format_of_name format_bcd_ba = refl
format_of_name format_version_ab = refl
format_of_name format_version_abcd = refl
format_of_name format_version_regs = refl
format_of_name format_date_ymd_abcd = refl
format_of_name format_datetime_regs = refl
format_of_name format_epoch32_abcd = refl
format_of_name format_epoch32_badc = refl
format_of_name format_unknown = refl

-- modbusmq_config_dataformat gives a data format, any but the unknown one, for a value exactly when the value is the name that modbusmq_config_dataformat_name gives for the format; so no two formats share a name. What modbusmq_config_apply_format_version makes of the formats of an old configuration comes after that.
pub dataformat_iff :
    (value : String) (f : Format)
    → f ≢ format_unknown
    → (dataformat value ≡ f) ↔ (value ≡ dataformat_name f)
unfolding dataformat
dataformat_iff value f known = (
  λ e. name_of format_names value f table-IsNamed known e,
  λ e. ap dataformat e ∙ format_of_name f,
)
