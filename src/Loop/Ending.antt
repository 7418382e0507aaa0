-- ===== src/Loop/Ending.antt =====
-- A request that ends is reported, and what was reported stays so.
use modbusmq.Exchange.{Ready, is_zero, handle_write_read, counted}
use modbusmq.Loop.Delivery.{deliver_reports}
use modbusmq.Queue.Stamps.{one}
use modbusmq.Transport.Laws.{IsTransport}
use modbusmq.Queue.{Wrapper}
use modbusmq.Frame.{Msg, Frame}
use modbusmq.Loop.Account.{count_ended, report_error_keeps}
use modbusmq.Transport.{Transport}
use mathlib.Core.Path.{subst, sym}
use modbusmq.Base.{
  false, ℕ, ◌≡◌, arith, ℤ, List, ◌∷◌, ◌<◌, ◌≤◌, [], ap, ◌⊎◌, ◌+◌, Bool, Bool-cases, pos, ◌==◌, inl,
  inr, true, negsuc, refl, sym,
}
use modbusmq.Loop.{
  transport, Failure, reset_queue, Transport, drop_all, Loop, Msg, queue, Wrapper, loop_write_read,
  deliver, step_head, fail, after_step, handle_msg, Ready, link_of, reject_reason, set_queue,
  give_up_stream, exception, count_error,
}

-- What has ended in `l` has ended in `l'`.
abbrev pub KeepsEnded : Loop → Loop → Type 0
KeepsEnded l l' = (x : ℕ) → count_ended x l.reports ≤ count_ended x l'.reports

-- From `l` to `l'`, the request `id` has ended.
abbrev pub Ends : ℕ → Loop → Loop → Type 0
Ends id l l' = (x : ℕ) → count_ended x l'.reports ≡ one x id + count_ended x l.reports

pub fail-Ends :
    (now : ℕ) (error : Failure) (m : Msg) (l : Loop) → Ends m.req_id l (fail now error m l)
fail-Ends now error m l x = ground (arith, (report_error_keeps now error m l).1)

deliver-Ends :
    (t : Transport) (now : ℕ) (w : Wrapper) (m : Msg) (l : Loop)
    → Ends m.req_id l (deliver t now w m l)
deliver-Ends t now w m l x =
    let (o, e) = deliver_reports t now m w m l in omega (arith, ap (count_ended x) e)

module _ (t : Transport) (laws : IsTransport t) (now : ℕ) where
  handle_msg-Ends : (w : Wrapper) (m : Msg) (l : Loop) → Ends m.req_id l (handle_msg t now w m l).1
  unfolding handle_msg
  handle_msg-Ends w m l x =
      let (rc, m') = t.msg_check l.rounds.outbox.context m in
      let same = ap (one x) (laws.check_keeps l.rounds.outbox.context m) in
      elim (Bool-cases (is_zero rc)) [
        | inl good ↦ rw (good, handle_msg) (omega (arith, deliver-Ends t now w m' l x, same))
        | inr bad ↦
            rw (bad, handle_msg)
              (omega (
                arith,
                fail-Ends now (reject_reason t m') m' (give_up_stream (count_error l)) x,
                same,
              ))
      ]

  -- After the step for the head, all is as it was, or its request has ended.
  pub after_step_cases :
      (w : Wrapper) (m : Msg) (rc : ℤ) (l : Loop)
      → ((after_step t now w m rc l).1 ≡ l) ⊎ Ends m.req_id l (after_step t now w m rc l).1
  unfolding after_step
  after_step_cases w m (pos n) l = elim (Bool-cases (n == 0)) [
    | inl done ↦
        rw done (inr (handle_msg-Ends w m (record l { tx = counted l.tx; rx = counted l.rx })))
    | inr more ↦ rw more (inl refl)
  ]
  after_step_cases w m (negsuc n) l = elim (Bool-cases (n == 3)) [
    | inl refusal ↦ rw refusal (inr (fail-Ends now exception m (count_error l)))
    | inr other ↦ rw other (elim (Bool-cases (n == 1)) [
      | inl rejected ↦ rw rejected (inr (fail-Ends now (reject_reason t m) m l))
      | inr broken ↦ rw broken (inr (fail-Ends now transport m (count_error l)))
    ])
  ]

  step_head-KeepsEnded :
      (ready : Ready) (hung_up : Bool) (sent : ℤ) (read : Frame → ℤ × Frame) (q : List Wrapper)
      (l : Loop)
      → KeepsEnded l (step_head t now ready hung_up sent read q l).1
  unfolding step_head
  step_head-KeepsEnded ready true sent read [] l x = omega arith
  step_head-KeepsEnded ready false sent read [] l x = omega arith
  step_head-KeepsEnded ready hung_up sent read (w ∷ q) l x =
      let (rc, stream, m) = handle_write_read t now ready sent read (link_of l) w.msg in
      let w' = record w { msg = m } in
      elim (after_step_cases w' m rc (set_queue (w' ∷ q) (record l { stream = stream }))) [
        | inl same ↦ omega (arith, ap (λ (k : Loop). count_ended x k.reports) same)
        | inr ends ↦ omega (arith, ends x)
      ]

  pub loop_write_read-KeepsEnded :
      (ready : Ready) (hung_up : Bool) (sent : ℤ) (read : Frame → ℤ × Frame) (l : Loop)
      → KeepsEnded l (loop_write_read t now ready hung_up sent read l).1
  unfolding loop_write_read
  loop_write_read-KeepsEnded ready hung_up sent read l =
      step_head-KeepsEnded ready hung_up sent read (queue l) l

drop_all-KeepsEnded : (now : ℕ) (q : List Wrapper) (l : Loop) → KeepsEnded l (drop_all now q l)
unfolding drop_all
drop_all-KeepsEnded now [] l x = omega arith
drop_all-KeepsEnded now (w ∷ q) l x = omega (
  arith,
  fail-Ends now transport w.msg l x,
  drop_all-KeepsEnded now q (fail now transport w.msg l) x,
)

pub reset_queue-KeepsEnded : (now : ℕ) (l : Loop) → KeepsEnded l (reset_queue now l)
unfolding reset_queue
reset_queue-KeepsEnded now l = drop_all-KeepsEnded now (queue l) l

drop_all_ends :
    (now : ℕ) (w : Wrapper) (q : List Wrapper) (l : Loop)
    → 0 < count_ended w.msg.req_id (drop_all now (w ∷ q) l).reports
unfolding drop_all
drop_all_ends now w q l =
    let x = w.msg.req_id in
    ground (
      arith,
      fail-Ends now transport w.msg l x,
      drop_all-KeepsEnded now q (fail now transport w.msg l) x,
    )

pub reset_queue_ends :
    (now : ℕ) (w : Wrapper) (q : List Wrapper) (l : Loop)
    → queue l ≡ w ∷ q
    → 0 < count_ended w.msg.req_id (reset_queue now l).reports
unfolding reset_queue
reset_queue_ends now w q l head =
    subst (λ v. 0 < count_ended w.msg.req_id (drop_all now v l).reports) (sym head)
      (drop_all_ends now w q l)
