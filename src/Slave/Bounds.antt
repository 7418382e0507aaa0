-- ===== src/Slave/Bounds.antt =====
-- The backoff of every timer stays in range, and every timer of a slave has the same.
use modbusmq.Base.{
  refl, ℕ, ◌^◌, ◌≤◌, ◌<◌, ◌≡◌, Bool, true, false, List, All, All-map, map, Option, none, some,
  arith, inl, inr, Option-cases,
}
use modbusmq.Timer.{Timer, find, find-All}
use modbusmq.Slave.{
  apply_backoff, Backoff, next_backoff, store_backoff, slave_update, slave_gate, hold_back,
  slave_miss_max,
}

-- A slave that answers has missed fewer than three polls in a row; one that does not is probed
-- after a delay within the limit.
pub record IsBacked (retry_max : ℕ) (t : Timer) : Type 0 where
  pub answering : t.unresponsive ≡ false → (t.misses < slave_miss_max) × (t.retry_ms ≡ 0)
  pub probed : t.unresponsive ≡ true → (0 < t.retry_ms) × (t.retry_ms ≤ retry_max)

module _ (retry_max now : ℕ) (small : retry_max < 2 ^ 31) where
  store-IsBacked :
      (timer : Timer) (answered : Bool) (b : Backoff) (t : Timer)
      → next_backoff retry_max timer answered ≡ some b
      → IsBacked retry_max timer
      → IsBacked retry_max t
      → IsBacked retry_max (store_backoff now timer.slave b t)
  unfolding next_backoff store_backoff
  store-IsBacked timer answered b t e h k = ground arith

  apply-IsBacked :
      (timer : Timer) (answered : Bool) (o : Option Backoff) (timers : List Timer)
      → next_backoff retry_max timer answered ≡ o
      → IsBacked retry_max timer
      → All (IsBacked retry_max) timers
      → All (IsBacked retry_max) (apply_backoff now timer.slave o timers)
  unfolding apply_backoff
  apply-IsBacked timer answered none timers e h all = all
  apply-IsBacked timer answered (some b) timers e h all =
      All-map (IsBacked retry_max) (IsBacked retry_max) (store_backoff now timer.slave b) timers
        (λ t k. store-IsBacked timer answered b t e h k) all

  -- With a limit below 2 ^ 31, a poll that is answered or times out leaves every timer of every slave
  -- with a backoff in range, if all were: fewer than three misses and no delay while the slave
  -- answers, a delay of at most the limit and above 0 while it does not.
  pub slave_update-IsBacked :
      (timer_id : ℕ) (answered : Bool) (timers : List Timer)
      → All (IsBacked retry_max) timers
      → All (IsBacked retry_max) (slave_update retry_max now timer_id answered timers)
  unfolding slave_update
  slave_update-IsBacked timer_id answered timers all = elim (Option-cases (find timers timer_id)) [
    | inl gone ↦ rw (gone, slave_update) all
    | inr (timer, found) ↦
        rw (found, slave_update)
          (apply-IsBacked timer answered (next_backoff retry_max timer answered) timers refl
            (find-All (IsBacked retry_max) timers timer_id all found) all)
  ]

-- The backoff of two timers, if they read the same slave.
pub record Agree (t u : Timer) : Type 0 where
  pub misses : t.slave ≡ u.slave → t.misses ≡ u.misses
  pub unresponsive : t.slave ≡ u.slave → t.unresponsive ≡ u.unresponsive
  pub retry_ms : t.slave ≡ u.slave → t.retry_ms ≡ u.retry_ms
  pub retry_at : t.slave ≡ u.slave → t.retry_at ≡ u.retry_at

abbrev pub IsUniform : List Timer → Type 0
IsUniform ts = All (λ t. All (Agree t) ts) ts

map-IsUniform :
    (f : Timer → Timer) (ts : List Timer)
    → ((t u : Timer) → Agree t u → Agree (f t) (f u))
    → IsUniform ts
    → IsUniform (map f ts)
map-IsUniform f ts keep all =
    All-map (λ t. All (Agree t) ts) (λ t. All (Agree t) (map f ts)) f ts
      (λ t h. All-map (Agree t) (Agree (f t)) f ts (keep t) h) all

store-Agree :
    (now slave : ℕ) (b : Backoff) (t u : Timer)
    → Agree t u
    → Agree (store_backoff now slave b t) (store_backoff now slave b u)
unfolding store_backoff
store-Agree now slave b t u a = ground arith

hold_back-Agree :
    (now : ℕ) (timer t u : Timer)
    → Agree t u
    → Agree (hold_back now timer t) (hold_back now timer u)
unfolding hold_back
hold_back-Agree now timer t u a = ground arith

apply-IsUniform :
    (now slave : ℕ) (o : Option Backoff) (ts : List Timer)
    → IsUniform ts
    → IsUniform (apply_backoff now slave o ts)
unfolding apply_backoff
apply-IsUniform now slave none ts all = all
apply-IsUniform now slave (some b) ts all =
    map-IsUniform (store_backoff now slave b) ts (store-Agree now slave b) all

-- The timers of one slave have the same backoff after an update if they had it before.
pub slave_update-IsUniform :
    (retry_max now timer_id : ℕ) (answered : Bool) (ts : List Timer)
    → IsUniform ts
    → IsUniform (slave_update retry_max now timer_id answered ts)
unfolding slave_update
slave_update-IsUniform retry_max now timer_id answered ts all =
    elim (Option-cases (find ts timer_id)) [
      | inl gone ↦ rw (gone, slave_update) all
      | inr (timer, found) ↦
          rw (found, slave_update)
            (apply-IsUniform now timer.slave (next_backoff retry_max timer answered) ts all)
    ]

-- The timers of one slave have the same backoff after any of them has asked the gate, if they had
-- it before.
pub slave_gate-IsUniform :
    (timer : Timer) (now : ℕ) (ts : List Timer)
    → IsUniform ts
    → IsUniform (slave_gate timer now ts).1
unfolding slave_gate
slave_gate-IsUniform timer now ts all =
    ground (arith, map-IsUniform (hold_back now timer) ts (hold_back-Agree now timer) all)
