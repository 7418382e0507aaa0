-- ===== src/Loop/Delivery.antt =====
-- Only answers that were checked are handed to the application.
use modbusmq.Loop.{
  answered, transport, unheard, matching, queue, loop_write_read, link_of, step_head, set_queue,
}
use modbusmq.Queue.{Wrapper, is_post}
use modbusmq.Frame.{Msg, Context, Frame}
use modbusmq.Exchange.{is_zero, counted, Ready, handle_write_read}
use modbusmq.Transport.{Transport}
use modbusmq.Loop.{
  Outcome, report_error, Msg, Failure, after_step, deliver, Loop, handle_msg, delivered, Report,
  fail, Wrapper, is_post, raw_pending, reject_reason, raw_answered, exception, give_up_stream,
  count_error,
}
use modbusmq.Base.{
  ℕ, ◌≡◌, arith, ℤ, true, Bool, List, pos, false, ap, Bool-cases, inr, ◌⊎◌, ◌∷◌, negsuc, ◌==◌, inl,
  if◌then◌else◌, refl, length, sym, ◌∙◌,
}

-- Outcomes that hand an answer to the application.
abbrev pub is_heard : Outcome → Bool
is_heard raw_answered = true
is_heard answered = true
is_heard (delivered inputs) = true
is_heard _ = false

pub report_error_unheard :
    (now : ℕ) (error : Failure) (m : Msg) (l : Loop)
    → is_heard (report_error now error m l).0 ≡ false
unfolding report_error
report_error_unheard now error m l = ground arith

pub report_error_reports :
    (now : ℕ) (error : Failure) (m : Msg) (l : Loop)
    → (report_error now error m l).1.reports ≡ l.reports
unfolding report_error
report_error_reports now error m l = ground arith

-- What a pass may do to the reports: nothing, a failure, or an outcome of a message that `msg` was
-- checked to be.
abbrev Reports : Transport → Context → Msg → List Report → List Report → Type 0
Reports t c msg before after =
    (after ≡ before)
    ⊎ ((r : Report) × (after ≡ r ∷ before) × (is_heard r.outcome ≡ false))
    ⊎ ((r : Report) × (after ≡ r ∷ before) × (t.msg_check c msg ≡ (pos 0, r.msg)))

longer : {r : Report} {rs : List Report} → r ∷ rs ≡ rs → ⊥
longer e = ground (arith, ap length e)

pub is_zero_lem : (rc : ℤ) → is_zero rc ≡ true → rc ≡ pos 0
unfolding is_zero
is_zero_lem (pos n) e = ap pos (ground (arith, e))
is_zero_lem (negsuc n) e = ground (arith, e)

module _ (t : Transport) (now : ℕ) (m : Msg) where
  fail-Reports :
      (c : Context) (error : Failure) (m' : Msg) (l : Loop)
      → Reports t c m l.reports (fail now error m' l).reports
  fail-Reports c error m' l =
      let o = (report_error now error m' l).0 in
      inr (
        inl (
          record { msg = m'; outcome = o },
          ground (arith, report_error_reports now error m' l),
          report_error_unheard now error m' l,
        ))

  pub deliver_reports :
      (w : Wrapper) (m' : Msg) (l : Loop)
      → (o : Outcome) × ((deliver t now w m' l).reports
          ≡ record { msg = m'; outcome = o } ∷ l.reports)
  unfolding deliver
  deliver_reports w m' l = elim (Bool-cases (is_post w.flags)) [
    | inl posts ↦ rw posts (elim (Bool-cases (raw_pending l.raw m')) [
      | inl raw ↦ rw raw (raw_answered, refl)
      | inr other ↦ rw other ((if l.has_message_cb then answered else unheard), refl)
    ])
    | inr polls ↦ rw polls (elim (Bool-cases l.has_subscribe_cb) [
      | inl listens ↦ rw listens (delivered (matching t m' l.inputs), refl)
      | inr deaf ↦ rw deaf (unheard, refl)
    ])
  ]

  handle_msg-Reports :
      (w : Wrapper) (l : Loop)
      → Reports t l.rounds.outbox.context m l.reports (handle_msg t now w m l).1.reports
  unfolding handle_msg
  handle_msg-Reports w l =
      let c = l.rounds.outbox.context in
      let (rc, m') = t.msg_check c m in
      elim (Bool-cases (is_zero rc)) [
        | inl good ↦
            let (o, e) = deliver_reports w m' l in
            rw (good, handle_msg)
              (inr (
                inr
                  (record { msg = m'; outcome = o }, e, ap (λ rc. (rc, m')) (is_zero_lem rc good))))
        | inr bad ↦
            rw (bad, handle_msg)
              (fail-Reports c (reject_reason t m') m' (give_up_stream (count_error l)))
      ]

  after_step-Reports :
      (w : Wrapper) (rc : ℤ) (l : Loop)
      → Reports t l.rounds.outbox.context m l.reports (after_step t now w m rc l).1.reports
  unfolding after_step
  after_step-Reports w (pos n) l = elim (Bool-cases (n == 0)) [
    | inl done ↦ rw done (handle_msg-Reports w (record l { tx = counted l.tx; rx = counted l.rx }))
    | inr more ↦ rw more (inl refl)
  ]
  after_step-Reports w (negsuc n) l =
      let c = l.rounds.outbox.context in
      elim (Bool-cases (n == 3)) [
        | inl refusal ↦ rw refusal (fail-Reports c exception m (count_error l))
        | inr other ↦ rw other (elim (Bool-cases (n == 1)) [
          | inl rejected ↦ rw rejected (fail-Reports c (reject_reason t m) m l)
          | inr broken ↦ rw broken (fail-Reports c transport m (count_error l))
        ])
      ]

module _ (t : Transport) (now : ℕ) (ready : Ready) (hung_up : Bool) (sent : ℤ)
    (read : Frame → ℤ × Frame) (w : Wrapper) (q : List Wrapper) (l : Loop)
    (head : queue l ≡ w ∷ q) where
  -- The message that the step at the head leaves.
  abbrev stepped : Msg
  stepped = (handle_write_read t now ready sent read (link_of l) w.msg).2

  pass-Reports :
      Reports t l.rounds.outbox.context stepped l.reports
        (loop_write_read t now ready hung_up sent read l).1.reports
  unfolding loop_write_read step_head
  pass-Reports =
      let (rc, stream, m) = handle_write_read t now ready sent read (link_of l) w.msg in
      let w' = record w { msg = m } in
      rw head (after_step-Reports t now m w' rc (set_queue (w' ∷ q) (record l { stream = stream })))

  module _ (r : Report)
      (new : (loop_write_read t now ready hung_up sent read l).1.reports ≡ r ∷ l.reports)
      (heard : is_heard r.outcome ≡ true) where
    -- If a pass over the head of the queue hands an answer to the application, by any of the
    -- callbacks, then the message that the step at the head left was checked by the transport, which
    -- accepted it, and it is that message that is handed over.
    pub heard_is_checked : t.msg_check l.rounds.outbox.context stepped ≡ (pos 0, r.msg)
    heard_is_checked = elim pass-Reports [
      | inl none_new ↦ absurd (longer (sym new ∙ none_new))
      | inr (inl (failure, e, not_heard)) ↦ absurd (cc (sym new ∙ e, not_heard, heard))
      | inr (inr (answer, e, checked)) ↦ cc (sym new ∙ e, checked)
    ]
