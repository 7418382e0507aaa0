-- ===== src/Slave.antt =====
-- The backoff from slaves that do not answer: `modbusmq_slave_update`, `modbusmq_slave_gate`,
-- `modbusmq_frame_delay_left` and `modbusmq_once_rearm` of lib/modbusmq.c. A limit of the
-- configuration is a number, 0 where there is no configuration; the parser refuses negative ones.
-- Times are far below 2 ^ 64, so their sums do not wrap.
pub mod Bounds
pub mod Probe
pub mod Schedule
use modbusmq.Base.{
  ℕ, ◌+◌, ◌-◌, ◌*◌, ◌%◌, ◌^◌, Bool, true, false, ◌&&◌, not, List, [], ◌∷◌, map, Option, none, some,
  ◌==◌, ltb, leb, if◌then◌else◌,
}
use modbusmq.Timer.{Timer, find}

-- MODBUSMQ_SLAVE_MISS_MAX and MODBUSMQ_SLAVE_RETRY_FIRST_MS
abbrev pub slave_miss_max : ℕ
slave_miss_max = 3

abbrev pub slave_retry_first_ms : ℕ
slave_retry_first_ms = 1000

-- MODBUSMQ_MIN
abbrev pub lesser : ℕ → ℕ → ℕ
lesser x y = if ltb x y then x else y

-- What a poll's outcome stores in the timers of a slave: only the misses where `counting`.
pub record Backoff : Type 0 where
  pub counting : Bool
  pub misses : ℕ
  pub unresponsive : Bool
  pub retry_ms : ℕ

-- `none` leaves every timer as it is.
unfoldable pub next_backoff : ℕ → Timer → Bool → Option Backoff
next_backoff retry_max timer answered =
    if answered
    then some (record { counting = false; misses = 0; unresponsive = false; retry_ms = 0 })
    else if leb retry_max 0
    then none
    else if not timer.unresponsive
    then (let misses = (timer.misses + 1) % 256 in
        if ltb (timer.misses + 1) slave_miss_max
        then some (record {
          counting = true;
          misses = misses;
          unresponsive = false;
          retry_ms = timer.retry_ms;
        })
        else some (record {
          counting = false;
          misses = misses;
          unresponsive = true;
          retry_ms = lesser slave_retry_first_ms retry_max;
        }))
    else some (record {
      counting = false;
      misses = timer.misses;
      unresponsive = true;
      retry_ms = lesser (timer.retry_ms * 2 % 2 ^ 32) retry_max;
    })

-- The loop bodies over the timers of that slave.
unfoldable pub store_backoff : ℕ → ℕ → Backoff → Timer → Timer
store_backoff now slave b t =
    if not (t.slave == slave)
    then t
    else if b.counting
    then record t { misses = b.misses }
    else record t {
      timer_next_time =
          if t.unresponsive && not b.unresponsive && t.is_once then now else t.timer_next_time;
      misses = b.misses;
      unresponsive = b.unresponsive;
      retry_ms = b.retry_ms;
      retry_at = now + b.retry_ms;
    }

unfoldable pub apply_backoff : ℕ → ℕ → Option Backoff → List Timer → List Timer
apply_backoff now slave none timers = timers
apply_backoff now slave (some b) timers = map (store_backoff now slave b) timers

-- `modbusmq_slave_update` at time `now`.
unfoldable pub slave_update : ℕ → ℕ → ℕ → Bool → List Timer → List Timer
slave_update retry_max now timer_id answered timers = elim (find timers timer_id) [
  | none ↦ timers
  | some timer ↦ apply_backoff now timer.slave (next_backoff retry_max timer answered) timers
]

-- The probe's reservation in one timer.
unfoldable pub hold_back : ℕ → Timer → Timer → Timer
hold_back now timer t =
    if t.slave == timer.slave then record t { retry_at = now + timer.retry_ms } else t

-- `modbusmq_slave_gate`: may this timer be posted at `now`?
unfoldable pub slave_gate : Timer → ℕ → List Timer → Bool × List Timer
slave_gate timer now timers =
    if not timer.unresponsive
    then (true, timers)
    else if ltb now timer.retry_at
    then (false, timers)
    else (true, map (hold_back now timer) timers)

-- `modbusmq_frame_delay_left`, with the configured delay and the time of the last read.
unfoldable pub frame_delay_left : ℕ → ℕ → ℕ → ℕ
frame_delay_left delay last_read_ms now =
    if leb delay 0
    then 0
    else if leb (last_read_ms + delay) now
    then 0
    else last_read_ms + delay - now

-- `modbusmq_once_rearm` at time `now`.
unfoldable pub rearm : ℕ → Timer → Timer
rearm now t = if t.is_once then record t { timer_next_time = now } else t

unfoldable pub once_rearm : ℕ → List Timer → List Timer
once_rearm now timers = map (rearm now) timers
