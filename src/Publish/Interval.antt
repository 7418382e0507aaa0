-- ===== src/Publish/Interval.antt =====
-- How far apart the publications of a channel are.
use mathlib.Core.Path.{subst, sym}
use modbusmq.Base.{
  ℕ, ◌+◌, ◌^◌, ◌≤◌, ◌<◌, ◌≡◌, refl, Bool, true, false, not, arith, ◌==◌, inl, inr, ◌⊎◌, ltb, leb,
  ◌&&◌, if◌then◌else◌, List, ◌∷◌, [], sym,
}
use modbusmq.Publish.{
  Floats, Channel, Reading, publish_decide, publish_record, is_due, is_too_soon, since_publish,
  format_is_text, change_gated, text_unchanged, below_threshold,
}

-- The least distance that the two intervals allow: a heartbeat comes even inside the window.
abbrev pub spacing : {F : Type 0} → Channel F → ℕ
spacing c =
    if c.max_interval == 0
    then c.min_interval
    else if ltb c.max_interval c.min_interval
    then c.max_interval
    else c.min_interval

-- The time is not before the last publication, and does not wrap.
abbrev pub IsLater : {F : Type 0} → Channel F → ℕ → Type 0
IsLater c now = (c.last_publish_ms ≤ now) × (now < 2 ^ 64)

since_later :
    {F : Type 0} (c : Channel F) (now : ℕ)
    → IsLater c now
    → since_publish c now + c.last_publish_ms ≡ now
unfolding since_publish
since_later c now h = omega (arith, h.0, h.1)

due_spacing :
    {F : Type 0} (c : Channel F) (now : ℕ)
    → IsLater c now
    → is_due c now ≡ true
    → c.last_publish_ms + spacing c ≤ now
unfolding is_due
due_spacing c now h due =
    spaced (since_publish c now) c.last_publish_ms c.min_interval c.max_interval now
      (since_later c now h) due
  where
    spaced :
        (s last least most now : ℕ)
        → s + last ≡ now
        → (ltb 0 most && leb most s) ≡ true
        → last + (if most == 0 then least else if ltb most least then most else least) ≤ now
    spaced s last least most now e due = ground arith

late_spacing :
    {F : Type 0} (c : Channel F) (now : ℕ)
    → IsLater c now
    → is_too_soon c now ≡ false
    → c.last_publish_ms + spacing c ≤ now
unfolding is_too_soon
late_spacing c now h late =
    spaced (since_publish c now) c.last_publish_ms c.min_interval c.max_interval now
      (since_later c now h) late
  where
    spaced :
        (s last least most now : ℕ)
        → s + last ≡ now
        → (ltb 0 least && ltb s least) ≡ false
        → last + (if most == 0 then least else if ltb most least then most else least) ≤ now
    spaced s last least most now e late = ground arith

-- The outcome by the tests in their order.
abbrev pub verdict :
    {F : Type 0} → Reading F → Channel F → Bool → Bool → Bool → Bool → Bool → Bool × Channel F
verdict r c old due soon same small =
    if not old
    then (true, publish_record r c)
    else if due
    then (true, publish_record r c)
    else if soon
    then (false, c)
    else if same
    then (false, c)
    else if small
    then (false, c)
    else (true, publish_record r c)

chosen :
    {F : Type 0} (r : Reading F) (c : Channel F) (old due soon same small : Bool)
    → old ≡ true
    → (due ≡ true → c.last_publish_ms + spacing c ≤ r.now_ms)
    → (soon ≡ false → c.last_publish_ms + spacing c ≤ r.now_ms)
    → ((verdict r c old due soon same small ≡ (true, publish_record r c))
        × (c.last_publish_ms + spacing c ≤ r.now_ms))
      ⊎ ((verdict r c old due soon same small ≡ (false, c)) × (due ≡ false))
chosen r c false due soon same small e p q = absurd (ground arith)
chosen r c true true soon same small e p q = inl (refl, p refl)
chosen r c true false true same small e p q = inr (refl, refl)
chosen r c true false false true small e p q = inr (refl, refl)
chosen r c true false false false true e p q = inr (refl, refl)
chosen r c true false false false false e p q = inl (refl, q refl)

-- A reading is published, in its time, or changes nothing.
pub decide_outcome :
    {F : Type 0} (fl : Floats F) (is_bit : Bool) (r : Reading F) (c : Channel F)
    → c.published ≡ true
    → IsLater c r.now_ms
    → ((publish_decide fl is_bit r c ≡ (true, publish_record r c))
        × (c.last_publish_ms + spacing c ≤ r.now_ms))
      ⊎ ((publish_decide fl is_bit r c ≡ (false, c)) × (is_due c r.now_ms ≡ false))
unfolding publish_decide
decide_outcome fl is_bit r c old later =
    chosen r c c.published (is_due c r.now_ms) (is_too_soon c r.now_ms)
      (change_gated fl c && text_unchanged fl is_bit c r.text)
      (not (format_is_text c.format) && below_threshold fl c r.value) old
      (λ e. due_spacing c r.now_ms later e) (λ e. late_spacing c r.now_ms later e)

pub first_published :
    {F : Type 0} (fl : Floats F) (is_bit : Bool) (r : Reading F) (c : Channel F)
    → c.published ≡ false
    → publish_decide fl is_bit r c ≡ (true, publish_record r c)
unfolding publish_decide
first_published fl is_bit r c fresh =
    subst
      (λ old.
        verdict r c old (is_due c r.now_ms) (is_too_soon c r.now_ms)
          (change_gated fl c && text_unchanged fl is_bit c r.text)
          (not (format_is_text c.format) && below_threshold fl c r.value)
        ≡ (true, publish_record r c))
      (sym fresh) refl

-- The times at which a sequence of readings is published.
unfoldable pub published_times :
    {F : Type 0} → Floats F → Bool → List (Reading F) → Channel F → List ℕ
published_times fl is_bit [] c = []
published_times fl is_bit (r ∷ rs) c =
    let (yes_publish, c') = publish_decide fl is_bit r c in
    let rest = published_times fl is_bit rs c' in if yes_publish then r.now_ms ∷ rest else rest

abbrev pub IsOrdered : {F : Type 0} → ℕ → List (Reading F) → Type 0
IsOrdered t [] = Unit
IsOrdered t (r ∷ rs) = (t ≤ r.now_ms) × (r.now_ms < 2 ^ 64) × IsOrdered r.now_ms rs

abbrev pub IsApart : ℕ → ℕ → List ℕ → Type 0
IsApart d last [] = Unit
IsApart d last (t ∷ ts) = (last + d ≤ t) × IsApart d t ts

-- Whatever a channel reads, its publications are at least min_interval apart, or max_interval where that is set and shorter: for readings in the order of their times, behind the last publication.
pub publications-IsApart :
    {F : Type 0} (fl : Floats F) (is_bit : Bool) (rs : List (Reading F)) (c : Channel F) (t : ℕ)
    → c.published ≡ true
    → c.last_publish_ms ≤ t
    → IsOrdered t rs
    → IsApart (spacing c) c.last_publish_ms (published_times fl is_bit rs c)
unfolding published_times publish_record
publications-IsApart fl is_bit [] c t old later ordered = tt
publications-IsApart fl is_bit (r ∷ rs) c t old later ordered =
    elim (decide_outcome fl is_bit r c old (omega (arith, ordered.0), ordered.1)) [
      | inl (e, apart) ↦ rw e (
        apart,
        publications-IsApart fl is_bit rs (publish_record r c) r.now_ms refl (omega arith)
            ordered.2,
      )
      | inr (e, _) ↦
          rw e
            (publications-IsApart fl is_bit rs c r.now_ms old (omega (arith, ordered.0)) ordered.2)
    ]
