-- ===== src/Tests/Publish.antt =====
-- A channel of hundredths that is published on changes, and a text channel. A `float` stands here as
-- a number that is printed as its last digit.
use modbusmq.Base.{
  ℕ, ◌+◌, ◌-◌, ◌*◌, ◌%◌, ◌^◌, ◌≡◌, ◌≢◌, ◌⊎◌, refl, arith, true, false, List, [], ◌∷◌, none, ltb,
  negsuc, suc,
}
use modbusmq.Codec.{format_ab, format_ascii_ab}
use modbusmq.Publish.{
  Floats, Channel, Reading, publish_decide, publish_record, channel_decimals, text_hash, is_due,
  change_gated, is_too_soon, is_float_format, format_is_text, channel_format_value, mod_decimals,
  strip_sign, since_publish, peel_tens, text_unchanged, same_text, below_threshold, greater,
}
use modbusmq.Publish.Interval.{publications-IsApart, IsApart, published_times}
use modbusmq.Publish.Unchanged.{published_once, changed_text_published}
use modbusmq.Publish.Decimals.{channel_decimals_of_divisor}

abbrev floats : Floats ℕ
floats = record {
  zero_float = 0;
  one = 1;
  abs = λ x. x;
  minus = λ x y. (x - y) + (y - x);
  times = λ x y. x * y;
  less = ltb;
  is_nan = λ x. false;
  print = λ n x. (48 + x % 10) ∷ [];
}

abbrev channel : Channel ℕ
channel = record {
  format = format_ab;
  mod_by = negsuc 99;
  decimals = none;
  on_change = true;
  min_change = 0;
  min_change_rel = 0;
  min_interval = 1000;
  max_interval = 60000;
  published = true;
  last_value = 5;
  last_text_hash = 0;
  last_publish_ms = 100;
}

abbrev reading : ℕ → ℕ → Reading ℕ
reading now value = record { value = value; text = (48 + value % 10) ∷ []; now_ms = now }

abbrev readings : List (Reading ℕ)
readings = reading 500 7 ∷ reading 1500 7 ∷ reading 1600 8 ∷ reading 2600 7 ∷ reading 61500 7 ∷ []

published_at_test : published_times floats false readings channel ≡ 1500 ∷ 61500 ∷ []
unfolding published_times publish_decide is_due is_too_soon publish_record since_publish
    change_gated text_unchanged same_text channel_format_value strip_sign below_threshold greater
    format_is_text channel_decimals
published_at_test = refl

publications-IsApart_example : IsApart 1000 100 (published_times floats false readings channel)
publications-IsApart_example =
    publications-IsApart floats false readings channel 100 refl (omega arith) (ground arith)

changes : (publish_decide floats false (reading 1500 7) channel).0 ≡ true
unfolding publish_decide is_due is_too_soon publish_record since_publish change_gated text_unchanged
    same_text channel_format_value strip_sign below_threshold greater format_is_text
    channel_decimals
changes = refl

prints : (reading 1500 7).text ≡ channel_format_value floats false channel 7
unfolding channel_format_value strip_sign channel_decimals
prints = refl

gated : change_gated floats channel ≡ true
unfolding change_gated
gated = refl

not_due : is_due (publish_decide floats false (reading 1500 7) channel).1 9000 ≡ false
unfolding publish_decide is_due is_too_soon publish_record since_publish change_gated text_unchanged
    same_text channel_format_value strip_sign below_threshold greater format_is_text
    channel_decimals
not_due = refl

published_once_example :
    (publish_decide floats false
      (reading 9000 7)
      (publish_decide floats false (reading 1500 7) channel).1).0
    ≡ false
published_once_example =
    published_once floats false (reading 1500 7) channel 9000 changes (λ _. prints) gated not_due

-- "a1" was published, and "b1" is read.
abbrev texts : Channel ℕ
texts = record channel { format = format_ascii_ab; last_text_hash = text_hash (97 ∷ 49 ∷ []) }

abbrev renamed : Reading ℕ
renamed = record { value = 0; text = 98 ∷ 49 ∷ []; now_ms = 5000 }

is_text : format_is_text format_ascii_ab ≡ true
unfolding format_is_text
is_text = refl

window_over : is_too_soon texts 5000 ≡ false
unfolding is_too_soon since_publish
window_over = refl

changed_text_published_example :
    publish_decide floats false renamed texts ≡ (true, publish_record renamed texts)
changed_text_published_example =
    changed_text_published floats false texts renamed [] 97 98 (49 ∷ []) is_text (omega arith)
      (omega arith) (ground arith) (omega arith) refl refl window_over

not_float : is_float_format format_ab ≡ false
unfolding is_float_format
not_float = refl

channel_decimals_of_divisor_example :
    ((k : ℕ) × (suc 99 ≡ 10 ^ k) × (channel_decimals false channel ≡ k))
    ⊎ (((j : ℕ) → suc 99 ≢ 10 ^ j) × (channel_decimals false channel ≡ 3))
channel_decimals_of_divisor_example = channel_decimals_of_divisor channel 99 refl not_float refl

channel_decimals_test : channel_decimals false channel ≡ 2
unfolding channel_decimals mod_decimals peel_tens is_float_format
channel_decimals_test = refl
