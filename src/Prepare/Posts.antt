-- ===== src/Prepare/Posts.antt =====
-- What a pass over the timers does to the outbox, it does poll by poll.
use mathlib.Core.Path.{subst}
use modbusmq.Base.{
  ℕ, zero, suc, ◌+◌, ◌≡◌, ◌⊎◌, inl, inr, sym, arith, Bool, true, false, Option-cases, length,
  get_elem?, if◌then◌else◌, ltb,
}
use modbusmq.Transport.{Transport}
use modbusmq.Queue.{subscribe, Outbox, post_internal}
use modbusmq.Timer.{Timer}
use modbusmq.Round.{Rounds}
use modbusmq.Round.Posts.{IsKept, prepare_rounds_keeps}
use modbusmq.Prepare.{post_due, walk_one, walk, prepare_subscription}

module _ (t : Transport) (R : Outbox → Outbox → Type 0) (kept : IsKept t R) (now : ℕ) where
  walk_one_cases :
      (i : ℕ) (timer : Timer) (s : ℕ × Rounds)
      → ((walk_one t now i timer s).1.outbox ≡ s.1.outbox)
        ⊎ ((walk_one t now i timer s).1.outbox
            ≡ (post_internal t s.1.outbox
                (record timer.msg { msg_id = timer.timer_id })
                subscribe).0)
  unfolding walk_one post_due
  walk_one_cases i timer s = ground arith

  walk_one_keeps :
      (i : ℕ) (timer : Timer) (s : ℕ × Rounds) → R s.1.outbox (walk_one t now i timer s).1.outbox
  walk_one_keeps i timer s = elim (walk_one_cases i timer s) [
    | inl same ↦ subst (R s.1.outbox) (sym same) (kept.unchanged s.1.outbox)
    | inr posted ↦
        subst (R s.1.outbox) (sym posted)
          (kept.posted s.1.outbox (record timer.msg { msg_id = timer.timer_id }))
  ]

  walk_keeps : (left i : ℕ) (s : ℕ × Rounds) → R s.1.outbox (walk t now left i s).1.outbox
  unfolding walk
  walk_keeps zero i s = kept.unchanged s.1.outbox
  walk_keeps (suc left) i s = elim (Option-cases (get_elem? s.1.timers i)) [
    | inl gone ↦ rw (gone, walk) (kept.unchanged s.1.outbox)
    | inr (timer, found) ↦
        rw (found, walk)
          (kept.chained s.1.outbox (walk_one t now i timer s).1.outbox
            (walk t now left (i + 1) (walk_one t now i timer s)).1.outbox (walk_one_keeps i timer s)
            (walk_keeps left (i + 1) (walk_one t now i timer s)))
  ]

  -- What holds of every poll holds of a pass over the timers, in every query mode.
  pub prepare_subscription_keeps :
      (rounds : Bool) (sleep_time : ℕ) (r : Rounds)
      → R r.outbox (prepare_subscription t rounds now sleep_time r).1.outbox
  unfolding prepare_subscription
  prepare_subscription_keeps true sleep_time r = prepare_rounds_keeps t R kept now sleep_time r
  prepare_subscription_keeps false sleep_time r =
      walk_keeps (length r.timers) 0 ((if ltb 0 sleep_time then sleep_time else 1000), r)
