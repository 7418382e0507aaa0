-- ===== src/Subscribe.antt =====
-- `modbusmq_subscribe` of lib/modbusmq.c: where a new timer goes, and what it does to the others. The
-- id, the slave of the request and the tier of the input that it reads are arguments; an interval is
-- `none` where it is MODBUSMQ_INTERVAL_ONCE. Memory for the timer is there.
pub mod Cycle
pub mod Sorted
use modbusmq.Base.{
  ℕ, ◌+◌, Bool, true, false, ◌&&◌, not, List, [], ◌∷◌, ◌++◌, map, Option, none, some, ltb,
  if◌then◌else◌,
}
use modbusmq.Frame.{Msg}
use modbusmq.Timer.{Timer, Tier}

-- `modbusmq_query_mode_e`
pub data QueryMode : Type 0 where
  parallell series rounds : QueryMode

-- MODBUSMQ_ONCE_RETRY_MS
abbrev pub once_retry_ms : ℕ
once_retry_ms = 10000

-- The timer as it is before it is put in the list.
unfoldable pub new_timer : ℕ → ℕ → Option ℕ → ℕ → Tier → Msg → Timer
new_timer id now interval slave tier msg = record {
  timer_id = id;
  timer_start = now;
  timer_next_time = now;
  timer_interval = elim interval [ none ↦ once_retry_ms | some ms ↦ ms ];
  orig_interval = elim interval [ none ↦ 0 | some ms ↦ ms ];
  tier = tier;
  slave = slave;
  is_once = elim interval [ none ↦ true | some ms ↦ false ];
  misses = 0;
  unresponsive = false;
  retry_ms = 0;
  retry_at = 0;
  msg = msg;
}

-- The mode parallell: ahead of the first timer with a longer interval.
unfoldable pub insert_sorted : Timer → List Timer → List Timer
insert_sorted timer [] = timer ∷ []
insert_sorted timer (elem ∷ ts) =
    if ltb timer.timer_interval elem.timer_interval
    then timer ∷ elem ∷ ts
    else elem ∷ insert_sorted timer ts

-- The sum of the intervals.
unfoldable pub total : List Timer → ℕ
total [] = 0
total (elem ∷ ts) = elem.orig_interval + total ts

-- The mode series: at the tail, due an interval after the timer ahead of it.
unfoldable pub append_timed : ℕ → Timer → List Timer → List Timer
append_timed prev timer [] = record timer { timer_next_time = prev + timer.orig_interval } ∷ []
append_timed prev timer (elem ∷ ts) = elem ∷ append_timed elem.timer_next_time timer ts

unfoldable pub set_interval : ℕ → Timer → Timer
set_interval total elem = if elem.is_once then elem else record elem { timer_interval = total }

unfoldable pub append_series : Timer → Timer → List Timer → List Timer
unfolding set_interval
append_series timer head ts =
    map (set_interval (total (head ∷ ts) + timer.orig_interval))
      (head ∷ append_timed head.timer_next_time timer ts)

-- What follows the making of the timer.
unfoldable pub add_timer : QueryMode → Timer → List Timer → List Timer
add_timer mode timer [] = timer ∷ []
add_timer rounds timer (head ∷ ts) = head ∷ (ts ++ timer ∷ [])
add_timer parallell timer (head ∷ ts) =
    if timer.is_once
    then timer ∷ head ∷ ts
    else insert_sorted
        (record timer { timer_start = head.timer_start; timer_next_time = head.timer_start })
        (head ∷ ts)
add_timer series timer (head ∷ ts) =
    if timer.is_once
    then timer ∷ head ∷ ts
    else append_series (record timer { timer_start = head.timer_start }) head ts

-- `modbusmq_subscribe`
unfoldable pub subscribe_timer :
    QueryMode → ℕ → ℕ → Option ℕ → ℕ → Tier → Msg → List Timer → List Timer
unfolding new_timer
subscribe_timer mode id now interval slave tier msg timers =
    add_timer mode (new_timer id now interval slave tier msg) timers
