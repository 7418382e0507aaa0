-- ===== src/Publish/Unchanged.antt =====
-- What a channel that is gated on changes publishes.
use modbusmq.Base.{
  ℕ, ◌<◌, ◌≡◌, ◌≢◌, refl, sym, ap, Bool, true, false, not, List, [], ◌∷◌, ◌++◌, arith, ◌==◌,
  ==_refl, ◌&&◌, All, Bool-cases, inl, inr, ==→eq,
}
use mathlib.Core.Path.{subst}
use modbusmq.Publish.{
  Floats, Channel, Reading, publish_decide, publish_record, is_due, is_too_soon, format_is_text,
  change_gated, text_unchanged, below_threshold, channel_format_value, text_hash, same_text,
  channel_decimals,
}
use modbusmq.Publish.Hash.{text_hash_char}
use modbusmq.Publish.Interval.{verdict}

same_text_refl : (text : List ℕ) → same_text text text ≡ true
unfolding same_text
same_text_refl [] = refl
same_text_refl (c ∷ text) = rw (==_refl c) (same_text_refl text)

-- Recorded readings print as they did.
recorded_text_unchanged :
    {F : Type 0} (fl : Floats F) (is_bit : Bool) (r : Reading F) (c : Channel F)
    → (format_is_text c.format ≡ false → r.text ≡ channel_format_value fl is_bit c r.value)
    → text_unchanged fl is_bit (publish_record r c) r.text ≡ true
unfolding text_unchanged publish_record channel_format_value channel_decimals
recorded_text_unchanged fl is_bit r c printed = elim (Bool-cases (format_is_text c.format)) [
  | inl text ↦ rw text (==_refl (text_hash r.text))
  | inr number ↦
      rw number (subst (λ t. same_text r.text t ≡ true) (printed number) (same_text_refl r.text))
]

quiet_verdict :
    {F : Type 0} (r : Reading F) (c : Channel F) (old due soon same small : Bool)
    → old ≡ true
    → due ≡ false
    → same ≡ true
    → verdict r c old due soon same small ≡ (false, c)
quiet_verdict r c false due soon same small o d s = absurd (ground arith)
quiet_verdict r c true true soon same small o d s = absurd (ground arith)
quiet_verdict r c true false soon false small o d s = absurd (ground arith)
quiet_verdict r c true false true true small o d s = refl
quiet_verdict r c true false false true small o d s = refl

loud_verdict :
    {F : Type 0} (r : Reading F) (c : Channel F) (old due soon same small : Bool)
    → soon ≡ false
    → same ≡ false
    → small ≡ false
    → verdict r c old due soon same small ≡ (true, publish_record r c)
loud_verdict r c false due soon same small o d s = refl
loud_verdict r c true true soon same small o d s = refl
loud_verdict r c true false true same small o d s = absurd (ground arith)
loud_verdict r c true false false true small o d s = absurd (ground arith)
loud_verdict r c true false false false true o d s = absurd (ground arith)
loud_verdict r c true false false false false o d s = refl

recorded_verdict :
    {F : Type 0} (r : Reading F) (c : Channel F) (old due soon same small : Bool)
    → (verdict r c old due soon same small).0 ≡ true
    → (verdict r c old due soon same small).1 ≡ publish_record r c
recorded_verdict r c false due soon same small e = refl
recorded_verdict r c true true soon same small e = refl
recorded_verdict r c true false true same small e = absurd (ground arith)
recorded_verdict r c true false false true small e = absurd (ground arith)
recorded_verdict r c true false false false true e = absurd (ground arith)
recorded_verdict r c true false false false false e = refl

published_is_recorded :
    {F : Type 0} (fl : Floats F) (is_bit : Bool) (r : Reading F) (c : Channel F)
    → (publish_decide fl is_bit r c).0 ≡ true
    → (publish_decide fl is_bit r c).1 ≡ publish_record r c
unfolding publish_decide
published_is_recorded fl is_bit r c e =
    recorded_verdict r c c.published (is_due c r.now_ms) (is_too_soon c r.now_ms)
      (change_gated fl c && text_unchanged fl is_bit c r.text)
      (not (format_is_text c.format) && below_threshold fl c r.value) e

recorded_fields :
    {F : Type 0} (fl : Floats F) (r : Reading F) (c : Channel F)
    → ((publish_record r c).published ≡ true)
      × (change_gated fl (publish_record r c) ≡ change_gated fl c)
unfolding publish_record change_gated
recorded_fields fl r c = (refl, refl)

published_again :
    {F : Type 0} (fl : Floats F) (is_bit : Bool) (r : Reading F) (c : Channel F) (later : ℕ)
    → (format_is_text c.format ≡ false → r.text ≡ channel_format_value fl is_bit c r.value)
    → change_gated fl c ≡ true
    → is_due (publish_record r c) later ≡ false
    → (publish_decide fl is_bit (record r { now_ms = later }) (publish_record r c)).0 ≡ false
unfolding publish_decide
published_again fl is_bit r c later printed gated quiet =
    ap (λ o. o.0)
      (quiet_verdict (record r { now_ms = later }) (publish_record r c)
        (publish_record r c).published (is_due (publish_record r c) later)
        (is_too_soon (publish_record r c) later)
        (change_gated fl (publish_record r c)
          && text_unchanged fl is_bit (publish_record r c) r.text)
        (not (format_is_text (publish_record r c).format)
          && below_threshold fl (publish_record r c) r.value)
        (recorded_fields fl r c).0 quiet
        (ground (
          arith,
          (recorded_fields fl r c).1,
          gated,
          recorded_text_unchanged fl is_bit r c printed,
        )))

-- A reading that has just been published, a number with the text that it prints as, is not published again before the heartbeat when the channel is gated on changes: on_change, min_change or min_change_rel.
pub published_once :
    {F : Type 0} (fl : Floats F) (is_bit : Bool) (r : Reading F) (c : Channel F) (later : ℕ)
    → (publish_decide fl is_bit r c).0 ≡ true
    → (format_is_text c.format ≡ false → r.text ≡ channel_format_value fl is_bit c r.value)
    → change_gated fl c ≡ true
    → is_due (publish_decide fl is_bit r c).1 later ≡ false
    → (publish_decide fl is_bit (record r { now_ms = later }) (publish_decide fl is_bit r c).1).0
      ≡ false
published_once fl is_bit r c later first printed gated quiet =
    let recorded : (publish_decide fl is_bit r c).1 ≡ publish_record r c =
      published_is_recorded fl is_bit r c first in
    rw recorded (
      published_again fl is_bit r c later printed gated
        (subst (λ d. is_due d later ≡ false) recorded quiet))

changed_hash :
    {F : Type 0} (fl : Floats F) (is_bit : Bool) (c : Channel F) (r : Reading F) (before : List ℕ)
    (a b : ℕ) (behind : List ℕ)
    → format_is_text c.format ≡ true
    → a < 256
    → b < 256
    → All (λ x. x < 256) behind
    → a ≢ b
    → c.last_text_hash ≡ text_hash (before ++ a ∷ behind)
    → r.text ≡ before ++ b ∷ behind
    → text_unchanged fl is_bit c r.text ≡ false
unfolding text_unchanged
changed_hash fl is_bit c r before a b behind text p q s differ last now =
    rw (text, now, last)
      (elim (Bool-cases (text_hash (before ++ b ∷ behind) == text_hash (before ++ a ∷ behind))) [
        | inl same ↦ absurd (
            differ (
              text_hash_char before a b behind p q s (
                sym (
                  ==→eq (text_hash (before ++ b ∷ behind)) (text_hash (before ++ a ∷ behind))
                    same))))
        | inr changed ↦ changed
      ])

-- A text that differs in one character from the one that was published last is published as soon as the window after that is over.
pub changed_text_published :
    {F : Type 0} (fl : Floats F) (is_bit : Bool) (c : Channel F) (r : Reading F) (before : List ℕ)
    (a b : ℕ) (behind : List ℕ)
    → format_is_text c.format ≡ true
    → a < 256
    → b < 256
    → All (λ x. x < 256) behind
    → a ≢ b
    → c.last_text_hash ≡ text_hash (before ++ a ∷ behind)
    → r.text ≡ before ++ b ∷ behind
    → is_too_soon c r.now_ms ≡ false
    → publish_decide fl is_bit r c ≡ (true, publish_record r c)
unfolding publish_decide
changed_text_published fl is_bit c r before a b behind text p q s differ last now late =
    loud_verdict r c c.published (is_due c r.now_ms) (is_too_soon c r.now_ms)
      (change_gated fl c && text_unchanged fl is_bit c r.text)
      (not (format_is_text c.format) && below_threshold fl c r.value) late
      (ground (arith, changed_hash fl is_bit c r before a b behind text p q s differ last now))
      (ground (arith, text))
