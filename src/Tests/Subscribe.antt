-- ===== src/Tests/Subscribe.antt =====
-- Three subscriptions, one of them to a value that is read once.
use modbusmq.Subscribe.Cycle.{IsCycle, subscribe-IsCycle}
use modbusmq.Subscribe.Sorted.{IsByInterval, subscribe-IsByInterval}
use modbusmq.Base.{ℕ, ◌≡◌, false, [], ◌∷◌, some, refl, arith}
use modbusmq.Frame.{Msg, cleared}
use modbusmq.Timer.{Timer, fast}
use modbusmq.Subscribe.{
  series, parallell, subscribe_timer, add_timer, new_timer, append_series, append_timed,
  set_interval, total,
}

abbrev message : Msg
message = record { msg_id = 0; req_id = 0; first = cleared; second = cleared }

abbrev timer : ℕ → ℕ → Timer
timer id ms = record {
  timer_id = id;
  timer_start = 0;
  timer_next_time = 0;
  timer_interval = ms;
  orig_interval = ms;
  tier = fast;
  slave = 1;
  is_once = false;
  misses = 0;
  unresponsive = false;
  retry_ms = 0;
  retry_at = 0;
  msg = message;
}

sorted : IsByInterval (timer 1 1000 ∷ timer 2 5000 ∷ [])
sorted = ground arith

subscribe-IsByInterval_test :
    IsByInterval
      (subscribe_timer parallell 3 40 (some 2000) 1 fast message (timer 1 1000 ∷ timer 2 5000 ∷ []))
subscribe-IsByInterval_test =
    subscribe-IsByInterval 3 40 2000 1 fast message (timer 1 1000 ∷ timer 2 5000 ∷ []) sorted

cycle : IsCycle (timer 1 1000 ∷ [])
unfolding total
cycle = ground arith

subscribe-IsCycle_example :
    IsCycle (subscribe_timer series 2 40 (some 3000) 1 fast message (timer 1 1000 ∷ []))
subscribe-IsCycle_example =
    subscribe-IsCycle 2 40 (some 3000) 1 fast message (timer 1 1000 ∷ []) cycle

-- The second timer is due 3 s after the first, and each is read every 4 s.
series_times :
    subscribe_timer series 2 40 (some 3000) 1 fast message (timer 1 1000 ∷ [])
    ≡ record (timer 1 1000) { timer_interval = 4000 }
      ∷ record (timer 2 3000) { timer_interval = 4000; timer_next_time = 3000 }
      ∷ []
unfolding subscribe_timer add_timer new_timer append_series append_timed set_interval total
series_times = refl
