-- ===== src/Subscribe/Sorted.antt =====
-- The timers of the mode parallell.
use modbusmq.Base.{ℕ, ◌≤◌, List, [], ◌∷◌, some, arith, All}
use modbusmq.Frame.{Msg}
use modbusmq.Timer.{Timer, Tier}
use modbusmq.Subscribe.{parallell, insert_sorted, add_timer, new_timer, subscribe_timer}

-- Shorter intervals stand ahead of longer ones.
abbrev pub IsByInterval : List Timer → Type 0
IsByInterval [] = Unit
IsByInterval (t ∷ ts) = All (λ u. t.timer_interval ≤ u.timer_interval) ts × IsByInterval ts

insert-All :
    (n : ℕ) (timer : Timer) (ts : List Timer)
    → n ≤ timer.timer_interval
    → All (λ u. n ≤ u.timer_interval) ts
    → All (λ u. n ≤ u.timer_interval) (insert_sorted timer ts)
unfolding insert_sorted
insert-All n timer [] h all = (h, tt)
insert-All n timer (t ∷ ts) h all = ground (arith, insert-All n timer ts h all.1)

All-longer :
    (n k : ℕ) (ts : List Timer)
    → n ≤ k
    → All (λ u. k ≤ u.timer_interval) ts
    → All (λ u. n ≤ u.timer_interval) ts
All-longer n k [] h all = tt
All-longer n k (t ∷ ts) h all = (omega (arith, all.0), All-longer n k ts h all.1)

insert-IsByInterval :
    (timer : Timer) (ts : List Timer) → IsByInterval ts → IsByInterval (insert_sorted timer ts)
unfolding insert_sorted
insert-IsByInterval timer [] s = (tt, tt)
insert-IsByInterval timer (t ∷ ts) s = ground (
  arith,
  insert-All t.timer_interval timer ts,
  insert-IsByInterval timer ts s.1,
  All-longer timer.timer_interval t.timer_interval ts,
)

-- In the mode parallell, subscribing with an interval keeps the timers in the order of their
-- intervals, if they were.
pub subscribe-IsByInterval :
    (id now ms slave : ℕ) (tier : Tier) (msg : Msg) (ts : List Timer)
    → IsByInterval ts
    → IsByInterval (subscribe_timer parallell id now (some ms) slave tier msg ts)
unfolding subscribe_timer add_timer new_timer
subscribe-IsByInterval id now ms slave tier msg [] s = (tt, tt)
subscribe-IsByInterval id now ms slave tier msg (head ∷ ts) s = insert-IsByInterval _ (head ∷ ts) s
