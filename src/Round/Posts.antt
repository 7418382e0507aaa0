-- ===== src/Round/Posts.antt =====
-- What a round does to the outbox, it does poll by poll.
use mathlib.Core.Path.{subst}
use modbusmq.Base.{
  ℕ, zero, suc, ◌+◌, ◌≡◌, ◌⊎◌, inl, inr, sym, ap, ◌∙◌, arith, true, Option, none, some, length,
  get_elem?, Option-cases, Bool-cases, ◌%◌, ◌^◌,
}
use modbusmq.Frame.{Msg}
use modbusmq.Transport.{Transport}
use modbusmq.Queue.{subscribe, Outbox, post_internal}
use modbusmq.Timer.{Timer, Tier, fast, deep}
use modbusmq.Round.{
  Rounds, post_one, post_loop, round_post, post_deeps, post_focus, start_round, finish_round,
  loop_prepare_rounds, same_slave, next_deep_slave,
}

-- A relation that every poll put on the queue keeps, and that can be chained.
pub record IsKept (t : Transport) (R : Outbox → Outbox → Type 0) : Type 0 where
  pub unchanged : (o : Outbox) → R o o
  pub chained : (o p q : Outbox) → R o p → R p q → R o q
  pub posted : (o : Outbox) (m : Msg) → R o (post_internal t o m subscribe).0

module _ (t : Transport) (R : Outbox → Outbox → Type 0) (kept : IsKept t R) where
  module _ (tier : Tier) (slave : Option ℕ) (now : ℕ) where
    post_one_cases :
        (i : ℕ) (timer : Timer) (r : Rounds)
        → ((post_one t tier slave now i timer r).outbox ≡ r.outbox)
          ⊎ ((post_one t tier slave now i timer r).outbox
              ≡ (post_internal t r.outbox
                  (record timer.msg { msg_id = timer.timer_id })
                  subscribe).0)
    unfolding post_one
    post_one_cases i timer r = ground arith

    post_one_keeps :
        (i : ℕ) (timer : Timer) (r : Rounds)
        → R r.outbox (post_one t tier slave now i timer r).outbox
    post_one_keeps i timer r = elim (post_one_cases i timer r) [
      | inl same ↦ subst (R r.outbox) (sym same) (kept.unchanged r.outbox)
      | inr posted ↦
          subst (R r.outbox) (sym posted)
            (kept.posted r.outbox (record timer.msg { msg_id = timer.timer_id }))
    ]

    post_loop_keeps :
        (left i : ℕ) (r : Rounds) → R r.outbox (post_loop t tier slave now left i r).outbox
    unfolding post_loop
    post_loop_keeps zero i r = kept.unchanged r.outbox
    post_loop_keeps (suc left) i r = elim (Option-cases (get_elem? r.timers i)) [
      | inl gone ↦ rw (gone, post_loop) (kept.unchanged r.outbox)
      | inr (timer, found) ↦
          rw (found, post_loop)
            (kept.chained r.outbox (post_one t tier slave now i timer r).outbox
              (post_loop t tier slave now left (i + 1) (post_one t tier slave now i timer r)).outbox
              (post_one_keeps i timer r)
              (post_loop_keeps left (i + 1) (post_one t tier slave now i timer r)))
    ]

    round_post_keeps : (r : Rounds) → R r.outbox (round_post t tier slave now r).outbox
    unfolding round_post
    round_post_keeps r = post_loop_keeps (length r.timers) 0 r

  module _ (now : ℕ) where
    post_deeps_keeps :
        (deep_slave : Option ℕ) (r : Rounds) → R r.outbox (post_deeps t now deep_slave r).outbox
    unfolding post_deeps
    post_deeps_keeps none r = kept.unchanged r.outbox
    post_deeps_keeps (some s) r = round_post_keeps deep (some s) now r

    post_focus_keeps :
        (focus deep_slave : Option ℕ) (r : Rounds)
        → R r.outbox (post_focus t now focus deep_slave r).outbox
    unfolding post_focus
    post_focus_keeps none deep_slave r = kept.unchanged r.outbox
    post_focus_keeps (some f) deep_slave r = elim (Bool-cases (same_slave (some f) deep_slave)) [
      | inl same ↦ rw same (kept.unchanged r.outbox)
      | inr other ↦ rw other (round_post_keeps deep (some f) now r)
    ]

    pub start_round_keeps : (r : Rounds) → R r.outbox (start_round t now r).outbox
    unfolding start_round
    start_round_keeps r =
        let deep_slave = next_deep_slave now r in
        let started : Rounds = record r {
          round_active = true;
          round_start_ms = now;
          round_count = (r.round_count + 1) % 2 ^ 32;
        } in
        let fasts = round_post t fast none now started in
        let deeps = post_deeps t now deep_slave fasts in
        kept.chained r.outbox deeps.outbox
          (post_focus t now deeps.round_focus deep_slave deeps).outbox
          (kept.chained r.outbox fasts.outbox deeps.outbox (round_post_keeps fast none now started)
            (post_deeps_keeps deep_slave fasts))
          (post_focus_keeps deeps.round_focus deep_slave deeps)

    finish_round_outbox : (r : Rounds) → (finish_round now r).outbox ≡ r.outbox
    unfolding finish_round
    finish_round_outbox r = ground arith

    prepare_rounds_cases :
        (sleep_time : ℕ) (r : Rounds)
        → ((loop_prepare_rounds t now sleep_time r).1 ≡ finish_round now r)
          ⊎ ((loop_prepare_rounds t now sleep_time r).1 ≡ start_round t now (finish_round now r))
    unfolding loop_prepare_rounds
    prepare_rounds_cases sleep_time r = ground arith

    -- What holds of every poll holds of a pass of the rounds.
    pub prepare_rounds_keeps :
        (sleep_time : ℕ) (r : Rounds) → R r.outbox (loop_prepare_rounds t now sleep_time r).1.outbox
    prepare_rounds_keeps sleep_time r = elim (prepare_rounds_cases sleep_time r) [
      | inl waits ↦
          subst (R r.outbox) (sym (ap (λ (s : Rounds). s.outbox) waits ∙ finish_round_outbox r))
            (kept.unchanged r.outbox)
      | inr starts ↦ subst (R r.outbox) (sym (ap (λ (s : Rounds). s.outbox) starts)) (
          subst (λ o. R o (start_round t now (finish_round now r)).outbox) (finish_round_outbox r)
            (start_round_keeps (finish_round now r)))
    ]
