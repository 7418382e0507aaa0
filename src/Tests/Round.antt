-- ===== src/Tests/Round.antt =====
-- Three timers that read deep inputs of two slaves, over a serial line.
use modbusmq.Round.Start.{AppendsPolls, start_round_polls, round_starts_when_due}
use modbusmq.Round.Turn.{IsDistinct, deep_order-IsDistinct, next_deep_slave_rotates}
use modbusmq.Round.Series.{Series, round, over, every_slave_has_turn}
use modbusmq.Round.{
  set_msg, next_turn, turn_loop, post_deeps, post_focus, round_post, post_loop, post_one, Rounds,
  next_deep_slave, round_busy, deep_order, loop_prepare_rounds, start_round, finish_round,
}
use modbusmq.Slave.{slave_gate}
use modbusmq.Timer.{Timer, deep}
use modbusmq.Base.{
  ℕ, ◌≡◌, true, false, [], ◌∷◌, ◌<◌, some, refl, ◌+◌, ◌≤◌, none, ◌⊎◌, length, arith, List, Option,
  get_or, sym,
}
use modbusmq.Frame.{Context, cleared}
use modbusmq.Transport.{rtu}

abbrev timer : ℕ → ℕ → Timer
timer id slave = record {
  timer_id = id;
  timer_start = 0;
  timer_next_time = 0;
  timer_interval = 1000;
  orig_interval = 1000;
  tier = deep;
  slave = slave;
  is_once = false;
  misses = 0;
  unresponsive = false;
  retry_ms = 0;
  retry_at = 0;
  msg = record { msg_id = 0; req_id = 0; first = cleared; second = cleared };
}

abbrev context : Context
context = record {
  slave_id = 1;
  transaction_id = 0;
  header_length = 3;
  req_header_min = 8;
  res_header_min = 3;
}

abbrev idle : Rounds
idle = record {
  outbox = record { context = context; req_id_next = 0; queue = [] };
  timers = timer 1 7 ∷ timer 2 8 ∷ timer 3 7 ∷ [];
  round_active = false;
  round_start_ms = 1000;
  round_count = 1;
  round_last_ms = 0;
  round_deep_slave = some 8;
  round_focus = none;
  round_interval_ms = 500;
}

order : deep_order 1500 idle.timers [] ≡ 7 ∷ 8 ∷ []
unfolding deep_order
order = refl

-- What stands between two rounds that follow one another.
abbrev next_idle : Rounds
next_idle = record idle { round_deep_slave = some 7; round_start_ms = 1500; round_count = 2 }

kept : (start_round rtu 1500 idle).round_deep_slave ≡ some 7
unfolding start_round next_deep_slave deep_order next_turn turn_loop post_deeps post_focus
    round_post post_loop post_one slave_gate set_msg
kept = refl

same_order : deep_order 2000 next_idle.timers [] ≡ 7 ∷ 8 ∷ []
unfolding deep_order
same_order = refl

abbrev both : List (Option ℕ)
both = next_deep_slave 1500 idle ∷ next_deep_slave 2000 next_idle ∷ []

two_rounds : Series rtu (7 ∷ 8 ∷ []) idle both
two_rounds = round 1500 idle next_idle (next_deep_slave 2000 next_idle ∷ []) order (sym kept) (
    round 2000 next_idle (start_round rtu 2000 next_idle) [] same_order refl
      (over (start_round rtu 2000 next_idle)))

every_slave_has_turn_example : (m : ℕ) × (m < 2) × (get_or both m none ≡ some 8)
every_slave_has_turn_example =
    every_slave_has_turn (7 ∷ 8 ∷ []) two_rounds (omega arith) 1 (omega arith)

deep_order-IsDistinct_test : IsDistinct (deep_order 1500 idle.timers [])
deep_order-IsDistinct_test = deep_order-IsDistinct 1500 idle.timers

next_deep_slave_rotates_test : next_deep_slave 1500 idle ≡ some 7
unfolding deep_order
next_deep_slave_rotates_test = next_deep_slave_rotates 1500 idle 1 (omega arith) refl

start_round_polls_test : AppendsPolls idle.outbox.queue (start_round rtu 1500 idle).outbox.queue
start_round_polls_test = start_round_polls rtu 1500 idle

abbrev later : Rounds
later = (loop_prepare_rounds rtu 1500 0 idle).1

round_starts_when_due_test :
    (idle.round_active ≡ true → round_busy idle.outbox.queue ≡ true → later ≡ idle)
    × (1500 < idle.round_start_ms + idle.round_interval_ms → later ≡ finish_round 1500 idle)
    × ((idle.round_active ≡ false) ⊎ (round_busy idle.outbox.queue ≡ false)
        → idle.round_start_ms + idle.round_interval_ms ≤ 1500
        → 0 < length idle.timers
        → later ≡ start_round rtu 1500 (finish_round 1500 idle))
round_starts_when_due_test = round_starts_when_due rtu 1500 0 idle
