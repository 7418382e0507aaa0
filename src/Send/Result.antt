-- ===== src/Send/Result.antt =====
-- What the results of `modbusmq_send` mean.
use mathlib.Core.Path.{subst}
use modbusmq.Exchange.Shape.{KeepsMark, handle_keeps_exchange}
use modbusmq.Transport.Laws.{IsTransport}
use modbusmq.Base.{
  ℕ, ◌<◌, ◌≡◌, ap, sym, ◌∙◌, refl, arith, Bool, true, false, List, [], ◌∷◌, Option, none, some, ℤ,
  ◌⊎◌, inl, inr, if◌then◌else◌, pos, negsuc, length, Bool-cases, ◌==◌, All, not, ◌&&◌, suc, zero,
  ◌≢◌,
}
use modbusmq.Transport.{Transport}
use modbusmq.Frame.{Msg, IsExchange}
use modbusmq.Exchange.{Ready, is_zero, err_protocol, err_transport, handle_write_read}
use modbusmq.Loop.{
  Loop, Report, Failure, Outcome, raw_failed, failed, unheard, report_error, reject_reason,
  give_up_stream, exception, timeout, link_of,
}
use modbusmq.Loop.Delivery.{is_zero_lem, report_error_reports}
use modbusmq.Send.{
  poll_failed, interrupted, nothing_ready, Turn, Poll, Sending, send_turn, send_polled, send_ready,
  after_send_step, send_check, tell, poll_request, events_ready, send_loop, still_waiting, send,
  map_end, send_begin, send_end, send_end_by,
}

-- A report was added to those before.
abbrev pub Told : List Report → Loop → Type 0
Told before l = length before < length l.reports

-- While the wait goes on.
abbrev pub IsPending : List Report → Sending → Type 0
IsPending before s =
    IsExchange s.msg
    × (((s.result ≡ pos 1) × (s.loop.reports ≡ before))
        ⊎ ((s.result ≡ err_protocol) × Told before s.loop))

-- Where the loop is left early.
abbrev pub IsEnd : Transport → List Report → Sending → Type 0
IsEnd t before s =
    ((s.result ≡ pos 0)
      × (m : Msg) × IsExchange m
      × (t.msg_check s.loop.rounds.outbox.context m ≡ (pos 0, s.msg)))
    ⊎ ((s.result ≡ err_protocol) × Told before s.loop)
    ⊎ (s.result ≡ err_transport)

abbrev IsTurn : Transport → List Report → Bool × Sending → Type 0
IsTurn t before out = if out.0 then IsEnd t before out.1 else IsPending before out.1

tell-Told :
    (now : ℕ) (error : Failure) (m : Msg) (l : Loop) (before : List Report)
    → (length before ≡ length l.reports) ⊎ Told before l
    → Told before (tell now error m l)
tell-Told now error m l before h = ground (arith, ap length (report_error_reports now error m l), h)

abbrev IsUntold : List Report → Loop → Type 0
IsUntold before l = (length before ≡ length l.reports) ⊎ Told before l

pending_length : (before : List Report) (s : Sending) → IsPending before s → IsUntold before s.loop
pending_length before s (_, inl (_, same)) = inl (sym (ap length same))
pending_length before s (_, inr (_, more)) = inr more

module _ (t : Transport) (laws : IsTransport t) (before : List Report) where
  accepted-IsEnd :
      (rc : ℤ) (m m' : Msg) (l : Loop)
      → IsExchange m
      → t.msg_check l.rounds.outbox.context m ≡ (rc, m')
      → is_zero rc ≡ true
      → IsEnd t before (record { result = rc; msg = m'; loop = l })
  accepted-IsEnd rc m m' l x e good =
      let zero_rc : rc ≡ pos 0 = is_zero_lem rc good in
      inl (zero_rc, m, x, e ∙ ap (λ n. (n, m')) zero_rc)

  check-IsEnd :
      (now : ℕ) (m : Msg) (l : Loop)
      → IsExchange m
      → IsUntold before l
      → IsEnd t before (send_check t now m l)
  unfolding send_check
  check-IsEnd now m l x h =
      let (rc, m') = t.msg_check l.rounds.outbox.context m in
      elim (Bool-cases (is_zero rc)) [
        | inl good ↦ rw good (accepted-IsEnd rc m m' l x refl good)
        | inr bad ↦
            rw bad
              (inr (inl (refl, tell-Told now (reject_reason t m') m' (give_up_stream l) before h)))
      ]

  step-IsTurn :
      (now : ℕ) (result rc : ℤ) (m : Msg) (l : Loop)
      → IsPending before (record { result = result; msg = m; loop = l })
      → IsTurn t before (after_send_step t now result rc m l)
  unfolding after_send_step
  step-IsTurn now result (pos n) m l p = elim (Bool-cases (n == 0)) [
    | inl done ↦ rw done (
        check-IsEnd now m l p.0
          (pending_length before (record { result = result; msg = m; loop = l }) p))
    | inr more ↦ rw more p
  ]
  step-IsTurn now result (negsuc n) m l p =
      let h = pending_length before (record { result = result; msg = m; loop = l }) p in
      elim (Bool-cases (n == 1)) [
        | inl rejected ↦
            rw rejected (p.0, inr (refl, tell-Told now (reject_reason t m) m l before h))
        | inr other ↦ rw other (elim (Bool-cases (n == 3)) [
          | inl refusal ↦ rw refusal (inr (inl (refl, tell-Told now exception m l before h)))
          | inr broken ↦ rw broken (inr (inr refl))
        ])
      ]

  ready-IsTurn :
      (turn : Turn) (ready : Ready) (s : Sending)
      → KeepsMark turn.read
      → IsPending before s
      → IsTurn t before (send_ready t turn ready s)
  unfolding send_ready
  ready-IsTurn turn ready s marks p =
      let (rc, stream, m) =
        handle_write_read t turn.step_now ready turn.sent turn.read (link_of s.loop) s.msg in
      let x =
        handle_keeps_exchange t laws turn.read marks turn.step_now ready turn.sent (link_of s.loop)
          s.msg p.0 in
      elim (Bool-cases (not ready.pollin && not ready.pollout)) [
        | inl idle ↦ rw idle p
        | inr busy ↦
            rw busy
              (step-IsTurn turn.step_now s.result rc m (record s.loop { stream = stream }) (x, p.1))
      ]

  turn-IsTurn :
      (turn : Turn) (polled : Poll) (s : Sending)
      → KeepsMark turn.read
      → IsPending before s
      → IsTurn t before (send_polled t turn polled s)
  unfolding send_polled
  turn-IsTurn turn poll_failed s marks p = inr (inr refl)
  turn-IsTurn turn interrupted s marks p = p
  turn-IsTurn turn nothing_ready s marks p = p
  turn-IsTurn turn (events_ready ready) s marks p = ready-IsTurn turn ready s marks p

  looped :
      (stop waits : Bool) (s s' : Sending) (rest : Option Sending)
      → IsTurn t before (stop, s)
      → (IsPending before s → rest ≡ some s' → IsEnd t before s' ⊎ IsPending before s')
      → (if stop then some s else if waits then rest else some s) ≡ some s'
      → IsEnd t before s' ⊎ IsPending before s'
  looped true waits s s' rest p go e =
      let same : s ≡ s' = cc e in inl (subst (IsEnd t before) same p)
  looped false true s s' rest p go e = go p e
  looped false false s s' rest p go e =
      let same : s ≡ s' = cc e in inr (subst (IsPending before) same p)

  loop-IsTurn :
      (start wait : ℕ) (turns : List Turn) (s s' : Sending)
      → All (λ turn. KeepsMark turn.read) turns
      → IsPending before s
      → send_loop t start wait turns s ≡ some s'
      → IsEnd t before s' ⊎ IsPending before s'
  unfolding send_loop send_turn
  loop-IsTurn start wait [] s s' marks p e = absurd (cc e)
  loop-IsTurn start wait (turn ∷ turns) s s' marks p e =
      let asked = poll_request turn.now (link_of s.loop) s.msg in
      let out = send_polled t turn (turn.poll asked.0 asked.1) s in
      looped out.0 (still_waiting start wait turn.now) out.1 s' (send_loop t start wait turns out.1)
        (turn-IsTurn turn (turn.poll asked.0 asked.1) s marks.0 p)
        (λ p' e'. loop-IsTurn start wait turns out.1 s' marks.1 p' e') e

-- How a timeout is reported, by the callback of a raw request or that for errors, where it is set.
abbrev pub IsTimeout : Loop → Outcome → Type 0
IsTimeout l o =
    (o ≡ raw_failed timeout) ⊎ (o ≡ (if l.has_error_cb then failed timeout else unheard))

-- An end of the wait: as the loop was left, or with the timeout reported.
abbrev pub IsResult : Transport → List Report → Sending → Type 0
IsResult t before s =
    IsEnd t before s
    ⊎ ((s.result ≡ pos 1)
        × (o : Outcome) × (s.loop.reports ≡ record { msg = s.msg; outcome = o } ∷ before)
        × IsTimeout s.loop o)

report_error-IsTimeout :
    (now : ℕ) (m : Msg) (l : Loop)
    → IsTimeout (report_error now timeout m l).1 (report_error now timeout m l).0
unfolding report_error
report_error-IsTimeout now m l = ground arith

timed_out :
    (t : Transport) (now : ℕ) (before : List Report) (s : Sending)
    → s.result ≡ pos 1
    → s.loop.reports ≡ before
    → IsResult t before (record s { loop = tell now timeout s.msg s.loop })
timed_out t now before s one same = inr (
  one,
  (report_error now timeout s.msg s.loop).0,
  ap (λ rs. record { msg = s.msg; outcome = (report_error now timeout s.msg s.loop).0 } ∷ rs)
      (report_error_reports now timeout s.msg s.loop ∙ same),
  report_error-IsTimeout now s.msg s.loop,
)

pub other_number : {a b : ℕ} → pos a ≡ pos b → a ≢ b → ⊥
other_number {a} {b} e h = let same : a ≡ b = cc e in h same

suc_positive : (n : ℕ) → (suc n == 0) ≡ false
suc_positive n = ground arith

ended-IsResult :
    (t : Transport) (now : ℕ) (before : List Report) (s : Sending) (rc : ℤ)
    → s.result ≡ rc
    → IsEnd t before s ⊎ IsPending before s
    → IsResult t before (send_end_by now rc s)
unfolding send_end_by
ended-IsResult t now before s (pos zero) e (inl end) = inl end
ended-IsResult t now before s (pos zero) e (inr (_, inl (one, same))) =
    absurd (other_number (sym e ∙ one) (omega arith))
ended-IsResult t now before s (pos zero) e (inr (_, inr (refused, told))) = absurd (cc (e, refused))
ended-IsResult t now before s (pos (suc n)) e (inl (inl (none_left, _, _, _))) =
    absurd (other_number (sym e ∙ none_left) (omega arith))
ended-IsResult t now before s (pos (suc n)) e (inl (inr (inl (refused, _)))) =
    absurd (cc (e, refused))
ended-IsResult t now before s (pos (suc n)) e (inl (inr (inr broken))) = absurd (cc (e, broken))
ended-IsResult t now before s (pos (suc n)) e (inr (_, inl (one, same))) =
    rw (suc_positive n) (timed_out t now before s one same)
ended-IsResult t now before s (pos (suc n)) e (inr (_, inr (refused, told))) =
    absurd (cc (e, refused))
ended-IsResult t now before s (negsuc n) e (inl end) = inl end
ended-IsResult t now before s (negsuc n) e (inr (_, inl (one, same))) = absurd (cc (e, one))
ended-IsResult t now before s (negsuc n) e (inr (_, inr (refused, told))) =
    inl (inr (inl (refused, told)))

pub map_end-some :
    (now : ℕ) (o : Option Sending) (s : Sending)
    → map_end now o ≡ some s
    → (s' : Sending) × (o ≡ some s') × (send_end now s' ≡ s)
map_end-some now none s e = absurd (cc e)
map_end-some now (some s') s e = let same : send_end now s' ≡ s = cc e in (s', refl, same)

-- What modbusmq_send returns, for a message with its request in the first frame: 0 only with an answer that the check of the transport accepted, 1 with exactly one report, of that message with the timeout, which the callback of the raw request or else the one for errors, if it is set, is told; the protocol error with a report added; and else the transport error: provided only that reading leaves the marks of the frames alone.
pub send-IsResult :
    (t : Transport) (laws : IsTransport t) (start : ℕ) (wait : ℤ) (turns : List Turn) (finish : ℕ)
    (msg : Msg) (l : Loop) (s : Sending)
    → IsExchange (send_begin t msg l).msg
    → All (λ turn. KeepsMark turn.read) turns
    → send t start wait turns finish msg l ≡ some s
    → IsResult t l.reports s
unfolding send send_begin send_end send_end_by
send-IsResult t laws start wait turns finish msg l s x marks e =
    let first = send_begin t msg l in
    let limit : ℕ = elim wait [ pos n ↦ n | negsuc n ↦ 0 ] in
    let (s', looped_to, same) = map_end-some finish (send_loop t start limit turns first) s e in
    subst (IsResult t l.reports) same (
      ended-IsResult t finish l.reports s' s'.result refl (
        loop-IsTurn t laws l.reports start limit turns first s' marks (x, inl (refl, refl))
          looped_to))
