-- ===== src/Send/Queue.antt =====
-- `modbusmq_send` leaves the queue alone.
use mathlib.Core.Path.{subst}
use modbusmq.Base.{
  ℕ, ◌≡◌, ◌⊎◌, inl, inr, refl, ◌∙◌, arith, Bool, true, false, Bool-cases, List, [], ◌∷◌, Option,
  none, some, ℤ, pos, negsuc, ◌==◌, not, ◌&&◌, if◌then◌else◌,
}
use modbusmq.Transport.{Transport}
use modbusmq.Frame.{Msg}
use modbusmq.Exchange.{Ready, is_zero, handle_write_read}
use modbusmq.Loop.{
  Loop, Failure, queue, report_error, reject_reason, give_up_stream, exception, transport, timeout,
  link_of,
}
use modbusmq.Send.{
  Turn, Poll, poll_failed, interrupted, nothing_ready, events_ready, Sending, tell, send_check,
  after_send_step, send_ready, send_polled, send_turn, send_loop, send_begin, send_end, send_end_by,
  send, still_waiting, poll_request,
}
use modbusmq.Send.Result.{map_end-some}

-- The queue stays, and the raw request in flight stays or ends.
abbrev pub Leaves : Loop → Loop → Type 0
Leaves l l' = (queue l' ≡ queue l) × ((l'.raw ≡ l.raw) ⊎ (l'.raw ≡ none))

Leaves-then : (k l m : Loop) → Leaves k l → Leaves l m → Leaves k m
Leaves-then k l m (q, r) (q', inl same) =
    (q' ∙ q, elim r [ inl e ↦ inl (same ∙ e) | inr e ↦ inr (same ∙ e) ])
Leaves-then k l m (q, r) (q', inr gone) = (q' ∙ q, inr gone)

tell-Leaves : (now : ℕ) (error : Failure) (m : Msg) (l : Loop) → Leaves l (tell now error m l)
unfolding report_error
tell-Leaves now error m l = ground arith

module _ (t : Transport) where
  check-Leaves : (now : ℕ) (m : Msg) (l : Loop) → Leaves l (send_check t now m l).loop
  unfolding send_check
  check-Leaves now m l =
      let (rc, m') = t.msg_check l.rounds.outbox.context m in
      elim (Bool-cases (is_zero rc)) [
        | inl good ↦ rw good (refl, inl refl)
        | inr bad ↦ rw bad (tell-Leaves now (reject_reason t m') m' (give_up_stream l))
      ]

  step-Leaves :
      (now : ℕ) (result rc : ℤ) (m : Msg) (l : Loop)
      → Leaves l (after_send_step t now result rc m l).1.loop
  unfolding after_send_step
  step-Leaves now result (pos n) m l = elim (Bool-cases (n == 0)) [
    | inl done ↦ rw done (check-Leaves now m l)
    | inr more ↦ rw more (refl, inl refl)
  ]
  step-Leaves now result (negsuc n) m l = elim (Bool-cases (n == 1)) [
    | inl rejected ↦ rw rejected (tell-Leaves now (reject_reason t m) m l)
    | inr other ↦ rw other (elim (Bool-cases (n == 3)) [
      | inl refusal ↦ rw refusal (tell-Leaves now exception m l)
      | inr broken ↦ rw broken (tell-Leaves now transport m l)
    ])
  ]

  ready-Leaves :
      (turn : Turn) (ready : Ready) (s : Sending) → Leaves s.loop (send_ready t turn ready s).1.loop
  unfolding send_ready
  ready-Leaves turn ready s =
      let (rc, stream, m) =
        handle_write_read t turn.step_now ready turn.sent turn.read (link_of s.loop) s.msg in
      elim (Bool-cases (not ready.pollin && not ready.pollout)) [
        | inl idle ↦ rw idle (refl, inl refl)
        | inr busy ↦
            rw busy (step-Leaves turn.step_now s.result rc m (record s.loop { stream = stream }))
      ]

  polled-Leaves :
      (turn : Turn) (polled : Poll) (s : Sending)
      → Leaves s.loop (send_polled t turn polled s).1.loop
  unfolding send_polled
  polled-Leaves turn poll_failed s = (refl, inl refl)
  polled-Leaves turn interrupted s = (refl, inl refl)
  polled-Leaves turn nothing_ready s = (refl, inl refl)
  polled-Leaves turn (events_ready ready) s = ready-Leaves turn ready s

  looped :
      (stop waits : Bool) (l : Loop) (s s' : Sending) (rest : Option Sending)
      → Leaves l s.loop
      → (rest ≡ some s' → Leaves s.loop s'.loop)
      → (if stop then some s else if waits then rest else some s) ≡ some s'
      → Leaves l s'.loop
  looped true waits l s s' rest h go e =
      let same : s ≡ s' = cc e in subst (λ x. Leaves l x.loop) same h
  looped false true l s s' rest h go e = Leaves-then l s.loop s'.loop h (go e)
  looped false false l s s' rest h go e =
      let same : s ≡ s' = cc e in subst (λ x. Leaves l x.loop) same h

  loop-Leaves :
      (start wait : ℕ) (turns : List Turn) (s s' : Sending)
      → send_loop t start wait turns s ≡ some s'
      → Leaves s.loop s'.loop
  unfolding send_loop send_turn
  loop-Leaves start wait [] s s' e = absurd (cc e)
  loop-Leaves start wait (turn ∷ turns) s s' e =
      let asked = poll_request turn.now (link_of s.loop) s.msg in
      let out = send_polled t turn (turn.poll asked.0 asked.1) s in
      looped out.0 (still_waiting start wait turn.now) s.loop out.1 s'
        (send_loop t start wait turns out.1) (polled-Leaves turn (turn.poll asked.0 asked.1) s)
        (loop-Leaves start wait turns out.1 s') e

  end-Leaves : (now : ℕ) (rc : ℤ) (s : Sending) → Leaves s.loop (send_end_by now rc s).loop
  unfolding send_end_by
  end-Leaves now (pos n) s = elim (Bool-cases (n == 0)) [
    | inl done ↦ rw done (refl, inl refl)
    | inr late ↦ rw late (tell-Leaves now timeout s.msg s.loop)
  ]
  end-Leaves now (negsuc n) s = (refl, inl refl)

  -- Whatever it sends, and however that ends.
  pub send-Leaves :
      (start : ℕ) (wait : ℤ) (turns : List Turn) (finish : ℕ) (msg : Msg) (l : Loop) (s : Sending)
      → send t start wait turns finish msg l ≡ some s
      → Leaves l s.loop
  unfolding send send_begin send_end
  send-Leaves start wait turns finish msg l s e =
      let first = send_begin t msg l in
      let limit : ℕ = elim wait [ pos n ↦ n | negsuc n ↦ 0 ] in
      let (s', looped_to, same) = map_end-some finish (send_loop t start limit turns first) s e in
      subst (λ x. Leaves l x.loop) same
        (Leaves-then l s'.loop (send_end finish s').loop
          (loop-Leaves start limit turns first s' looped_to) (end-Leaves finish s'.result s'))
