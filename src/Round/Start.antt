-- ===== src/Round/Start.antt =====
-- When a round starts, and what it does to the queue.
use modbusmq.Base.{
  ℕ, ◌+◌, ◌≡◌, refl, ap, sym, ◌∙◌, false, List, [], ◌∷◌, ◌++◌, length, All, arith, ◌⊎◌, true, ◌<◌,
  ◌≤◌,
}
use mathlib.Core.List.{append_assoc, append-nil}
use modbusmq.Frame.{Msg}
use modbusmq.Transport.{Transport}
use modbusmq.Queue.{subscribe, is_post, Wrapper, Outbox, enqueue, post_internal}
use modbusmq.Round.Posts.{IsKept, start_round_keeps}
use modbusmq.Round.{Rounds, finish_round, start_round, loop_prepare_rounds, round_busy}

-- `after` is `before` with polls behind it.
abbrev pub AppendsPolls : List Wrapper → List Wrapper → Type 0
AppendsPolls before after =
    (added : List Wrapper) × (after ≡ before ++ added) × All (λ w. is_post w.flags ≡ false) added

appends_none : (q : List Wrapper) → AppendsPolls q q
appends_none q = ([], sym (append-nil q), tt)

All-append {ℓ κ} :
    {A : Type ℓ} (P : A → Type κ) (xs ys : List A) → All P xs → All P ys → All P (xs ++ ys)
All-append P [] ys h k = k
All-append P (x ∷ xs) ys h k = (h.0, All-append P xs ys h.1 k)

appends_then : (p q r : List Wrapper) → AppendsPolls p q → AppendsPolls q r → AppendsPolls p r
appends_then p q r (a, ea, pa) (b, eb, pb) = (
  a ++ b,
  eb ∙ ap (λ x. x ++ b) ea ∙ append_assoc p a b,
  All-append (λ w. is_post w.flags ≡ false) a b pa pb,
)

enqueue_poll :
    (w : Wrapper) (q : List Wrapper) → is_post w.flags ≡ false → enqueue w q ≡ q ++ w ∷ []
unfolding enqueue
enqueue_poll w [] p = refl
enqueue_poll w (head ∷ q) p = rw p

post_internal_poll :
    (t : Transport) (o : Outbox) (m : Msg)
    → AppendsPolls o.queue (post_internal t o m subscribe).0.queue
unfolding post_internal
post_internal_poll t o m = (_ ∷ [], enqueue_poll _ o.queue refl, (refl, tt))

polls_kept : (t : Transport) → IsKept t (λ o p. AppendsPolls o.queue p.queue)
polls_kept t = record {
  unchanged = λ o. appends_none o.queue;
  chained = λ o p r. appends_then o.queue p.queue r.queue;
  posted = post_internal_poll t;
}

module _ (t : Transport) (now : ℕ) where
  -- Starting a round puts nothing but polls on the queue, and all of them behind what was there.
  pub start_round_polls :
      (r : Rounds) → AppendsPolls r.outbox.queue (start_round t now r).outbox.queue
  start_round_polls = start_round_keeps t (λ o p. AppendsPolls o.queue p.queue) (polls_kept t) now

  finish_round_keeps :
      (r : Rounds)
      → ((finish_round now r).outbox ≡ r.outbox)
        × ((finish_round now r).timers ≡ r.timers)
        × ((finish_round now r).round_start_ms ≡ r.round_start_ms)
        × ((finish_round now r).round_interval_ms ≡ r.round_interval_ms)
  unfolding finish_round
  finish_round_keeps r = ground arith

  module _ (sleep_time : ℕ) (r : Rounds) where
    abbrev passed : Rounds
    passed = (loop_prepare_rounds t now sleep_time r).1

    busy_waits : r.round_active ≡ true → round_busy r.outbox.queue ≡ true → passed ≡ r
    unfolding loop_prepare_rounds finish_round
    busy_waits active busy = ground arith

    early_waits : now < r.round_start_ms + r.round_interval_ms → passed ≡ finish_round now r
    unfolding loop_prepare_rounds
    early_waits early = ground (arith, finish_round_keeps r)

    idle_of_finished :
        (r.round_active ≡ false) ⊎ (round_busy r.outbox.queue ≡ false)
        → (finish_round now r).round_active ≡ false
    unfolding finish_round
    idle_of_finished idle = ground arith

    due_starts :
        (r.round_active ≡ false) ⊎ (round_busy r.outbox.queue ≡ false)
        → r.round_start_ms + r.round_interval_ms ≤ now
        → 0 < length r.timers
        → passed ≡ start_round t now (finish_round now r)
    unfolding loop_prepare_rounds
    due_starts idle due some_timer =
        ground
          (arith, finish_round_keeps r, idle_of_finished idle, ap length (finish_round_keeps r).1)

    -- A running round with a poll on the queue is left as it is. Before the interval has passed
    -- since the last start no round starts. From then on, where there are timers, one starts as soon
    -- as no round is running or the one that is has no poll left.
    pub round_starts_when_due :
        (r.round_active ≡ true → round_busy r.outbox.queue ≡ true → passed ≡ r)
        × (now < r.round_start_ms + r.round_interval_ms → passed ≡ finish_round now r)
        × ((r.round_active ≡ false) ⊎ (round_busy r.outbox.queue ≡ false)
            → r.round_start_ms + r.round_interval_ms ≤ now
            → 0 < length r.timers
            → passed ≡ start_round t now (finish_round now r))
    round_starts_when_due = (busy_waits, early_waits, due_starts)
