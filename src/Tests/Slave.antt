-- ===== src/Tests/Slave.antt =====
-- Two timers of slave 1 and one of slave 2.
use modbusmq.Slave.Probe.{slave_gate_holds}
use modbusmq.Slave.{slave_gate, hold_back, slave_update, apply_backoff, next_backoff, store_backoff}
use modbusmq.Slave.Bounds.{
  IsUniform, slave_gate-IsUniform, Agree, IsBacked, slave_update-IsBacked, slave_update-IsUniform,
}
use modbusmq.Slave.Schedule.{IsMissing, timeouts, IsProbed, silent_schedule}
use modbusmq.Timer.{find, Timer, fast}
use modbusmq.Base.{ℕ, ◌≡◌, true, false, List, [], ◌∷◌, All, refl, arith, ◌≢◌, some}
use modbusmq.Frame.{cleared}

abbrev timer : ℕ → ℕ → Timer
timer id slave = record {
  timer_id = id;
  timer_start = 0;
  timer_next_time = 0;
  timer_interval = 1000;
  orig_interval = 1000;
  tier = fast;
  slave = slave;
  is_once = false;
  misses = 0;
  unresponsive = false;
  retry_ms = 0;
  retry_at = 0;
  msg = record { msg_id = 0; req_id = 0; first = cleared; second = cleared };
}

abbrev timers : List Timer
timers = timer 1 1 ∷ timer 2 1 ∷ timer 3 2 ∷ []

-- The same while slave 1 is probed every 2000 ms.
abbrev silent : Timer → Timer
silent t = record t { misses = 3; unresponsive = true; retry_ms = 2000; retry_at = 5000 }

abbrev half_silent : List Timer
half_silent = silent (timer 1 1) ∷ silent (timer 2 1) ∷ timer 3 2 ∷ []

fresh : IsMissing 1 0 timers
unfolding find
fresh = (timer 1 1, refl, refl, refl)

silent_schedule_example :
    IsMissing 1 2 (timeouts 30000 1 (0 ∷ 1000 ∷ []) timers)
    × IsProbed 30000 1 5000 2 (timeouts 30000 1 (0 ∷ 1000 ∷ 2000 ∷ 3000 ∷ 5000 ∷ []) timers)
silent_schedule_example =
    silent_schedule 30000 (omega arith) (omega arith) 1 0 1000 2000 (3000 ∷ 5000 ∷ []) timers fresh

-- The fifth timeout in a row at 5000 ms: the next probe is 4 s later.
fourth_delay :
    find (timeouts 30000 1 (0 ∷ 1000 ∷ 2000 ∷ 3000 ∷ 5000 ∷ []) timers) 2
    ≡ some
        (record (timer 2 1) { misses = 3; unresponsive = true; retry_ms = 4000; retry_at = 9000 })
unfolding find slave_update apply_backoff next_backoff store_backoff
fourth_delay = refl

silent-IsBacked : (t : Timer) → IsBacked 30000 (silent t)
silent-IsBacked t = record { answering = ground arith; probed = ground arith }

half_silent-IsBacked : All (IsBacked 30000) half_silent
half_silent-IsBacked =
    let answers : IsBacked 30000 (timer 3 2) = record {
      answering = ground arith;
      probed = ground arith;
    } in
    (silent-IsBacked (timer 1 1), (silent-IsBacked (timer 2 1), (answers, tt)))

slave_update-IsBacked_test : All (IsBacked 30000) (slave_update 30000 5000 1 false half_silent)
slave_update-IsBacked_test =
    slave_update-IsBacked 30000 5000 (omega arith) 1 false half_silent half_silent-IsBacked

others-Agree : (t u : Timer) → t.slave ≢ u.slave → Agree t u
others-Agree t u other = ground arith

silent-Agree : (t u : Timer) → Agree (silent t) (silent u)
silent-Agree t u = ground arith

same-Agree : (t : Timer) → Agree t t
same-Agree t = ground arith

half_silent-IsUniform : IsUniform half_silent
half_silent-IsUniform =
    let one = timer 1 1 in
    let two = timer 2 1 in
    let three = timer 3 2 in
    let apart : (t : Timer) → t.slave ≡ 1 → Agree (silent t) three × Agree three (silent t) = λ t e.
      (others-Agree (silent t) three (omega arith), others-Agree three (silent t) (omega arith)) in
    let (one_three, three_one) = apart one refl in
    let (two_three, three_two) = apart two refl in
    (
      (silent-Agree one one, (silent-Agree one two, (one_three, tt))),
      (
        (silent-Agree two one, (silent-Agree two two, (two_three, tt))),
        ((three_one, (three_two, (same-Agree three, tt))), tt),
      ),
    )

slave_update-IsUniform_test : IsUniform (slave_update 30000 5000 1 false half_silent)
slave_update-IsUniform_test =
    slave_update-IsUniform 30000 5000 1 false half_silent half_silent-IsUniform

slave_gate-IsUniform_test : IsUniform (slave_gate (silent (timer 1 1)) 5000 half_silent).1
slave_gate-IsUniform_test =
    slave_gate-IsUniform (silent (timer 1 1)) 5000 half_silent half_silent-IsUniform

-- Timer 2 when the probe of timer 1 has gone out.
abbrev held : Timer
held = record (silent (timer 2 1)) { retry_at = 7000 }

held_found : find (slave_gate (silent (timer 1 1)) 5000 half_silent).1 2 ≡ some held
unfolding find slave_gate hold_back
held_found = refl

slave_gate_holds_example :
    let gate = slave_gate (silent (timer 1 1)) 5000 half_silent in
    (gate.0 ≡ true) × (slave_gate held 6999 gate.1 ≡ (false, gate.1))
slave_gate_holds_example =
    slave_gate_holds (silent (timer 1 1)) 5000 half_silent 2 {other = held} 6999 refl (omega arith)
      held_found refl refl (omega arith)
