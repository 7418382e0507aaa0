-- ===== src/Subscribe/Cycle.antt =====
-- The timers of the mode series.
use modbusmq.Base.{ℕ, ◌+◌, ◌≡◌, false, List, [], ◌∷◌, Option, some, none, map, arith, All, refl}
use modbusmq.Frame.{Msg}
use modbusmq.Timer.{Timer, Tier}
use modbusmq.Subscribe.{
  series, add_timer, new_timer, subscribe_timer, total, append_timed, append_series, set_interval,
}

-- Every timer that is read again and again is read once in a cycle, which takes the sum of all
-- intervals.
abbrev pub IsCycle : List Timer → Type 0
IsCycle ts = All (λ t. t.is_once ≡ false → t.timer_interval ≡ total ts) ts

total-append_timed :
    (prev : ℕ) (timer : Timer) (ts : List Timer)
    → total (append_timed prev timer ts) ≡ total ts + timer.orig_interval
unfolding total append_timed
total-append_timed prev timer [] = omega arith
total-append_timed prev timer (t ∷ ts) =
    omega (arith, total-append_timed t.timer_next_time timer ts)

total-map : (n : ℕ) (ts : List Timer) → total (map (set_interval n) ts) ≡ total ts
unfolding total set_interval
total-map n [] = refl
total-map n (t ∷ ts) = ground (arith, total-map n ts)

map-All :
    (n k : ℕ) (ts : List Timer)
    → n ≡ k
    → All (λ t. t.is_once ≡ false → t.timer_interval ≡ k) (map (set_interval n) ts)
unfolding set_interval
map-All n k [] e = tt
map-All n k (t ∷ ts) e = ground (arith, map-All n k ts e)

append-IsCycle : (timer head : Timer) (ts : List Timer) → IsCycle (append_series timer head ts)
unfolding append_series
append-IsCycle timer head ts =
    let all = head ∷ append_timed head.timer_next_time timer ts in
    let n = total (head ∷ ts) + timer.orig_interval in
    map-All n (total (map (set_interval n) all)) all (
      unfold total in
      omega (arith, total-map n all, total-append_timed head.timer_next_time timer ts))

once-All :
    (n k : ℕ) (ts : List Timer)
    → n ≡ k
    → All (λ t. t.is_once ≡ false → t.timer_interval ≡ n) ts
    → All (λ t. t.is_once ≡ false → t.timer_interval ≡ k) ts
once-All n k [] e all = tt
once-All n k (t ∷ ts) e all = ground (arith, once-All n k ts e)

-- In the mode series, every subscription, of either kind, keeps the interval of each timer that is
-- read again and again at the sum of the intervals of all.
pub subscribe-IsCycle :
    (id now : ℕ) (interval : Option ℕ) (slave : ℕ) (tier : Tier) (msg : Msg) (ts : List Timer)
    → IsCycle ts
    → IsCycle (subscribe_timer series id now interval slave tier msg ts)
unfolding subscribe_timer add_timer new_timer total
subscribe-IsCycle id now none slave tier msg [] c = (λ e. cc, tt)
subscribe-IsCycle id now (some ms) slave tier msg [] c = (λ e. omega arith, tt)
subscribe-IsCycle id now none slave tier msg (head ∷ ts) c =
    (λ e. cc, once-All (total (head ∷ ts)) (0 + total (head ∷ ts)) (head ∷ ts) (omega arith) c)
subscribe-IsCycle id now (some ms) slave tier msg (head ∷ ts) c = append-IsCycle _ head ts
