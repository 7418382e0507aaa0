-- ===== src/Slave/Schedule.antt =====
-- When a slave that stays silent is probed.
use mathlib.Core.Path.{subst}
use native.Mathlib.Nat.{pow-suc, add-zero, add-suc, suc-add, zero-add}
use modbusmq.Base.{
  ◌*◌, ◌%◌, ℕ, ◌^◌, ◌<◌, ◌≡◌, Bool, false, List, [], ◌∷◌, some, arith, suc, ◌+◌, true, length, map,
  All, ◌⊎◌, ◌==◌, refl,
}
use modbusmq.Timer.{Timer, find, find-map}
use modbusmq.Slave.{
  Backoff, next_backoff, store_backoff, slave_update, apply_backoff, lesser, slave_retry_first_ms,
  slave_miss_max,
}

-- The delay before the probe that follows `n` failed ones: doubled each time, up to the limit.
abbrev pub probe_delay : ℕ → ℕ → ℕ
probe_delay retry_max n = lesser (slave_retry_first_ms * 2 ^ n) retry_max

-- Polls of a timer that all time out, one after another, at the times given.
abbrev pub timeouts : ℕ → ℕ → List ℕ → List Timer → List Timer
timeouts retry_max timer_id [] ts = ts
timeouts retry_max timer_id (now ∷ later) ts =
    timeouts retry_max timer_id later (slave_update retry_max now timer_id false ts)

-- This timer is not posted before `now + delay`.
abbrev pub IsWaiting : ℕ → ℕ → Timer → Type 0
IsWaiting delay now t = (t.unresponsive ≡ true) × (t.retry_ms ≡ delay) × (t.retry_at ≡ now + delay)

-- The slave of the timer does not answer, and has failed `n` probes, the last of them at `now`: so
-- every timer of that slave waits.
abbrev pub IsProbed : ℕ → ℕ → ℕ → ℕ → List Timer → Type 0
IsProbed retry_max timer_id now n ts =
    (t : Timer) × (find ts timer_id ≡ some t)
    × IsWaiting (probe_delay retry_max n) now t
    × All (λ u. ((u.slave == t.slave) ≡ false) ⊎ IsWaiting (probe_delay retry_max n) now u) ts

-- The last of the times.
abbrev pub last_of : ℕ → List ℕ → ℕ
last_of now [] = now
last_of now (next ∷ later) = last_of next later

-- The slave answers, and has missed `n` polls in a row.
abbrev pub IsMissing : ℕ → ℕ → List Timer → Type 0
IsMissing timer_id n ts =
    (t : Timer) × (find ts timer_id ≡ some t) × (t.unresponsive ≡ false) × (t.misses ≡ n)

module _ (retry_max : ℕ) (positive : 0 < retry_max) (small : retry_max < 2 ^ 31)
    (timer_id : ℕ) where
  store_keeps_id :
      (now slave : ℕ) (b : Backoff) (t : Timer)
      → (store_backoff now slave b t).timer_id ≡ t.timer_id
  unfolding store_backoff
  store_keeps_id now slave b t = ground arith

  update_found :
      (now : ℕ) (answered : Bool) (ts : List Timer) {t : Timer} {b : Backoff}
      → find ts timer_id ≡ some t
      → next_backoff retry_max t answered ≡ some b
      → find (slave_update retry_max now timer_id answered ts) timer_id
        ≡ some (store_backoff now t.slave b t)
  unfolding slave_update apply_backoff
  update_found now answered ts {t} {b} found e =
      rw (found, e, slave_update)
        (find-map (store_backoff now t.slave b) ts timer_id (store_keeps_id now t.slave b) found)

  All-map :
      (P : Timer → Type 0) (f : Timer → Timer) (ts : List Timer)
      → ((t : Timer) → P (f t))
      → All P (map f ts)
  All-map P f [] every = tt
  All-map P f (t ∷ ts) every = (every t, All-map P f ts every)

  -- What is stored for a slave that does not answer is stored in all its timers.
  update-IsProbed :
      (now n : ℕ) (ts : List Timer) {t : Timer} {b : Backoff}
      → find ts timer_id ≡ some t
      → next_backoff retry_max t false ≡ some b
      → b.counting ≡ false
      → b.unresponsive ≡ true
      → b.retry_ms ≡ probe_delay retry_max n
      → IsProbed retry_max timer_id now n (slave_update retry_max now timer_id false ts)
  unfolding store_backoff slave_update apply_backoff
  update-IsProbed now n ts {t} {b} found e all silent delay = (
    store_backoff now t.slave b t,
    update_found now false ts {b = b} found e,
    ground arith,
    rw (found, e, slave_update)
        (All-map
          (λ u.
            ((u.slave == (store_backoff now t.slave b t).slave) ≡ false)
            ⊎ IsWaiting (probe_delay retry_max n) now u)
          (store_backoff now t.slave b) ts (λ u. ground arith)),
  )

  probe_delay-suc :
      (n : ℕ)
      → lesser (probe_delay retry_max n * 2 % 2 ^ 32) retry_max ≡ probe_delay retry_max (suc n)
  probe_delay-suc n = ground (arith, pow-suc 2 n)

  module _ (now : ℕ) (ts : List Timer) (t : Timer) (found : find ts timer_id ≡ some t) where
    abbrev counted : Backoff
    counted = record {
      counting = true;
      misses = (t.misses + 1) % 256;
      unresponsive = false;
      retry_ms = t.retry_ms;
    }

    abbrev given_up : Backoff
    given_up = record {
      counting = false;
      misses = (t.misses + 1) % 256;
      unresponsive = true;
      retry_ms = lesser slave_retry_first_ms retry_max;
    }

    abbrev doubled : Backoff
    doubled = record {
      counting = false;
      misses = t.misses;
      unresponsive = true;
      retry_ms = lesser (t.retry_ms * 2 % 2 ^ 32) retry_max;
    }

    abbrev timeout : List Timer
    timeout = slave_update retry_max now timer_id false ts

    miss :
        t.unresponsive ≡ false
        → t.misses + 1 < slave_miss_max
        → IsMissing timer_id (t.misses + 1) timeout
    unfolding store_backoff next_backoff
    miss answers few = (
      store_backoff now t.slave counted t,
      update_found now false ts {b = counted} found (ground arith),
      ground arith,
      ground arith,
    )

    give_up :
        t.unresponsive ≡ false
        → t.misses + 1 ≡ slave_miss_max
        → IsProbed retry_max timer_id now 0 timeout
    unfolding next_backoff
    give_up answers third =
        update-IsProbed now 0 ts {b = given_up} found (ground arith) refl refl (ground arith)

    fail_probe :
        (n : ℕ)
        → t.unresponsive ≡ true
        → t.retry_ms ≡ probe_delay retry_max n
        → IsProbed retry_max timer_id now (suc n) timeout
    unfolding next_backoff
    fail_probe n silent delay =
        update-IsProbed now (suc n) ts {b = doubled} found (ground arith) refl refl
          (ground (arith, probe_delay-suc n))

  probes :
      (times : List ℕ) (last n : ℕ) (ts : List Timer)
      → IsProbed retry_max timer_id last n ts
      → IsProbed retry_max timer_id
          (last_of last times)
          (n + length times)
          (timeouts retry_max timer_id times ts)
  probes [] last n ts p = rw add-zero p
  probes (now ∷ times) last n ts (t, found, (silent, delay, _), _) =
      rw (add-suc, ← suc-add)
        (probes times now (suc n) (slave_update retry_max now timer_id false ts)
          (fail_probe now ts t found n silent delay))

  module _ (now : ℕ) (ts : List Timer) where
    misses_on :
        (n : ℕ)
        → n + 1 < slave_miss_max
        → IsMissing timer_id n ts
        → IsMissing timer_id (n + 1) (slave_update retry_max now timer_id false ts)
    misses_on n few (t, found, answers, missed) =
        subst (λ k. IsMissing timer_id (k + 1) (slave_update retry_max now timer_id false ts))
          missed (miss now ts t found answers (omega arith))

    gives_up :
        IsMissing timer_id 2 ts
        → IsProbed retry_max timer_id now 0 (slave_update retry_max now timer_id false ts)
    gives_up (t, found, answers, missed) = give_up now ts t found answers (omega arith)

  -- With a limit above 0 and below 2 ^ 31, a slave that answered its last poll by a timer and then
  -- lets every poll by that timer time out counts as answering until the second timeout in a row
  -- and is given up at the third. From then on every timer of that slave waits, 1000 ms from the third
  -- timeout, and after each failed probe twice as long as before, up to the limit, from that probe.
  pub silent_schedule :
      (a b c : ℕ) (times : List ℕ) (ts : List Timer)
      → IsMissing timer_id 0 ts
      → IsMissing timer_id 2 (timeouts retry_max timer_id (a ∷ b ∷ []) ts)
        × IsProbed retry_max timer_id
            (last_of c times)
            (length times)
            (timeouts retry_max timer_id (a ∷ b ∷ c ∷ times) ts)
  silent_schedule a b c times ts fresh =
      let one = slave_update retry_max a timer_id false ts in
      let two = slave_update retry_max b timer_id false one in
      let missed_two : IsMissing timer_id 2 two =
        misses_on b one 1 (omega arith) (misses_on a ts 0 (omega arith) fresh) in
      let up : IsProbed retry_max timer_id c 0 (slave_update retry_max c timer_id false two) =
        gives_up c two missed_two in
      (
        missed_two,
        subst
            (λ k.
              IsProbed retry_max timer_id (last_of c times) k
                (timeouts retry_max timer_id (a ∷ b ∷ c ∷ times) ts))
            (zero-add (length times))
            (probes times c 0 (slave_update retry_max c timer_id false two) up),
      )
