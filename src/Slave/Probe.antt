-- ===== src/Slave/Probe.antt =====
-- One probe at a time.
use modbusmq.Base.{
  ℕ, ◌+◌, ◌≤◌, ◌<◌, ◌≡◌, Bool, true, false, List, [], ◌∷◌, All, map, some, arith, ap, sym, ◌∙◌,
}
use modbusmq.Timer.{Timer, find, find-All}
use modbusmq.Slave.{slave_gate, hold_back}

hold_back_lem :
    (now : ℕ) (timer t : Timer)
    → (hold_back now timer t).slave ≡ timer.slave
    → (hold_back now timer t).retry_at ≡ now + timer.retry_ms
unfolding hold_back
hold_back_lem now timer t e = ground arith

held_back :
    (now : ℕ) (timer : Timer) (ts : List Timer)
    → All
        (λ t. t.slave ≡ timer.slave → t.retry_at ≡ now + timer.retry_ms)
        (map (hold_back now timer) ts)
held_back now timer [] = tt
held_back now timer (t ∷ ts) = (hold_back_lem now timer t, held_back now timer ts)

let_through :
    (timer : Timer) (now : ℕ) (ts : List Timer)
    → timer.unresponsive ≡ true
    → timer.retry_at ≤ now
    → slave_gate timer now ts ≡ (true, map (hold_back now timer) ts)
unfolding slave_gate
let_through timer now ts silent due = ground arith

held :
    (other : Timer) (later : ℕ) (ts : List Timer)
    → other.unresponsive ≡ true
    → later < other.retry_at
    → slave_gate other later ts ≡ (false, ts)
unfolding slave_gate
held other later ts out soon = ground arith

-- A timer of a slave that does not answer, whose probe is due, is let through, and holds back every
-- timer of that slave: as long as the slave does not answer, none is let through before the delay
-- has passed, and the attempt changes nothing.
pub slave_gate_holds :
    (timer : Timer) (now : ℕ) (ts : List Timer) (other_id : ℕ) {other : Timer} (later : ℕ)
    → timer.unresponsive ≡ true
    → timer.retry_at ≤ now
    → find (slave_gate timer now ts).1 other_id ≡ some other
    → other.slave ≡ timer.slave
    → other.unresponsive ≡ true
    → later < now + timer.retry_ms
    → ((slave_gate timer now ts).0 ≡ true)
      × (slave_gate other later (slave_gate timer now ts).1 ≡ (false, (slave_gate timer now ts).1))
slave_gate_holds timer now ts other_id {other} later silent due found same out soon =
    let through = let_through timer now ts silent due in
    let moved : find (map (hold_back now timer) ts) other_id ≡ some other =
      ap (λ (g : Bool × List Timer). find g.1 other_id) (sym through) ∙ found in
    let at : other.retry_at ≡ now + timer.retry_ms =
      find-All (λ t. t.slave ≡ timer.slave → t.retry_at ≡ now + timer.retry_ms)
        (map (hold_back now timer) ts) other_id (held_back now timer ts) moved same in
    (
      ap (λ (g : Bool × List Timer). g.0) through,
      held other later (slave_gate timer now ts).1 out (omega arith),
    )
