-- ===== src/Timer.antt =====
-- `modbusmq_timer_t` of lib/modbusmq_internal.h and `modbusmq_timer_find`. The list of timers is a
-- list; `slave` is the byte that `modbusmq_subscribe` takes from the request.
use modbusmq.Base.{
  map, ℕ, Bool, true, false, List, [], ◌∷◌, Option, none, some, ◌-◌, ◌^◌, ◌==◌, if◌then◌else◌, All,
  ◌≡◌, inl, inr, ◌⊎◌, arith, Bool-cases, ◌∙◌, refl, ap,
}
use mathlib.Core.Path.{subst, ap}
use mathlib.Core.Option
use modbusmq.Frame.{Msg}

-- `modbusmq_tier_e`
pub data Tier : Type 0 where
  fast deep : Tier

abbrev pub is_deep : Tier → Bool
is_deep deep = true
is_deep fast = false

pub record Timer : Type 0 where
  pub timer_id : ℕ
  pub timer_start : ℕ
  pub timer_next_time : ℕ
  pub timer_interval : ℕ
  pub orig_interval : ℕ
  pub tier : Tier
  pub slave : ℕ
  pub is_once : Bool
  pub misses : ℕ
  pub unresponsive : Bool
  pub retry_ms : ℕ
  pub retry_at : ℕ
  pub msg : Msg

-- UINT64_MAX, the time at which an answered once timer is due.
abbrev pub never : ℕ
never = 2 ^ 64 - 1

unfoldable pub find : List Timer → ℕ → Option Timer
find [] timer_id = none
find (t ∷ ts) timer_id = if t.timer_id == timer_id then some t else find ts timer_id

find_cases :
    (u : Timer) (ts : List Timer) (timer_id : ℕ) {t : Timer}
    → find (u ∷ ts) timer_id ≡ some t
    → (u ≡ t) ⊎ (find ts timer_id ≡ some t)
unfolding find
find_cases u ts timer_id e = ground arith

pub find-All {ℓ} :
    (P : Timer → Type ℓ) (ts : List Timer) (timer_id : ℕ) {t : Timer}
    → All P ts
    → find ts timer_id ≡ some t
    → P t
find-All P [] timer_id h e = unfold find in cc
find-All P (u ∷ ts) timer_id h e = elim (find_cases u ts timer_id e) [
  | inl same ↦ subst P same h.0
  | inr later ↦ find-All P ts timer_id h.1 later
]

find_mapped :
    (f : Timer → Timer) (ts : List Timer) (timer_id : ℕ)
    → ((u : Timer) → (f u).timer_id ≡ u.timer_id)
    → find (map f ts) timer_id ≡ Option.map f (find ts timer_id)
unfolding find
find_mapped f [] timer_id keep = refl
find_mapped f (u ∷ ts) timer_id keep = elim (Bool-cases (u.timer_id == timer_id)) [
  | inl found ↦
      let kept : ((f u).timer_id == timer_id) ≡ true = ap (λ k. k == timer_id) (keep u) ∙ found in
      rw (kept, found)
  | inr other ↦
      let kept : ((f u).timer_id == timer_id) ≡ false = ap (λ k. k == timer_id) (keep u) ∙ other in
      rw (kept, other) (find_mapped f ts timer_id keep)
]

pub find-map :
    (f : Timer → Timer) (ts : List Timer) (timer_id : ℕ) {t : Timer}
    → ((u : Timer) → (f u).timer_id ≡ u.timer_id)
    → find ts timer_id ≡ some t
    → find (map f ts) timer_id ≡ some (f t)
find-map f ts timer_id keep e = find_mapped f ts timer_id keep ∙ ap (Option.map f) e
