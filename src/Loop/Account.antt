-- ===== src/Loop/Account.antt =====
-- Every request that leaves the queue comes to exactly one outcome.
use modbusmq.Exchange.Ids.{handle_keeps_id}
use modbusmq.Exchange.{is_zero, counted, Ready, handle_write_read}
use modbusmq.Transport.Laws.{IsTransport}
use modbusmq.Transport.{Transport}
use modbusmq.Base.{
  true, false, ℕ, ◌+◌, ◌≡◌, refl, ap, ◌∙◌, arith, List, [], ◌∷◌, Bool-cases, ℤ, pos, inl, ◌==◌, inr,
  negsuc, Bool,
}
use modbusmq.Frame.{Msg, Frame}
use modbusmq.Queue.{Wrapper, dequeue}
use modbusmq.Queue.Stamps.{one, count_waiting}
use modbusmq.Loop.{
  Loop, Report, Failure, Outcome, queue, finish, fail, report_error, Transport, deliver, after_step,
  handle_msg, is_zero, reject_reason, exception, give_up_stream, count_error, transport, drop_all,
  loop_write_read, link_of, set_queue, reset_queue, step_head,
}

abbrev pub count_ended : ℕ → List Report → ℕ
count_ended x [] = 0
count_ended x (r ∷ rs) = one x r.msg.req_id + count_ended x rs

-- How often an id stands on the queue or among the requests that have ended.
abbrev pub held : ℕ → Loop → ℕ
held x l = count_waiting x (queue l) + count_ended x l.reports

-- Both loops hold the same ids, and the same was stamped last.
abbrev pub Conserves : Loop → Loop → Type 0
Conserves l l' =
    ((x : ℕ) → held x l' ≡ held x l) × (l'.rounds.outbox.req_id_next ≡ l.rounds.outbox.req_id_next)

pub Conserves-then : (k l m : Loop) → Conserves k l → Conserves l m → Conserves k m
Conserves-then k l m a b = (λ x. b.0 x ∙ a.0 x, b.1 ∙ a.1)

pub Conserves-same : (l : Loop) → Conserves l l
Conserves-same l = (λ x. refl, refl)

pub report_error_keeps :
    (now : ℕ) (error : Failure) (m : Msg) (l : Loop)
    → ((report_error now error m l).1.rounds.outbox ≡ l.rounds.outbox)
      × ((report_error now error m l).1.reports ≡ l.reports)
unfolding report_error
report_error_keeps now error m l = ground arith

pub fail_queue :
    (now : ℕ) (error : Failure) (w : Wrapper) (q : List Wrapper) (m : Msg) (l : Loop)
    → queue l ≡ w ∷ q
    → queue (fail now error m l) ≡ q
unfolding dequeue
fail_queue now error w q m l head = ground (arith, head, report_error_keeps now error m l)

module _ (w : Wrapper) (q : List Wrapper) (m : Msg) (same : m.req_id ≡ w.msg.req_id) where
  pub finish-Conserves :
      (outcome : Outcome) (l : Loop) → queue l ≡ w ∷ q → Conserves l (finish m outcome l)
  unfolding dequeue
  finish-Conserves outcome l head = (λ x. rw head (omega (arith, ap (one x) same)), refl)

  pub fail-Conserves :
      (now : ℕ) (error : Failure) (l : Loop) → queue l ≡ w ∷ q → Conserves l (fail now error m l)
  fail-Conserves now error l head =
      let l' = (report_error now error m l).1 in
      let keeps = report_error_keeps now error m l in
      let kept : Conserves l l' = (λ x. ground (arith, keeps), ground (arith, keeps)) in
      Conserves-then l l' (fail now error m l) kept
        (finish-Conserves (report_error now error m l).0 l' (ground (arith, keeps)))

  deliver-Conserves :
      (t : Transport) (now : ℕ) (l : Loop) → queue l ≡ w ∷ q → Conserves l (deliver t now w m l)
  unfolding deliver dequeue
  deliver-Conserves t now l head = (λ x. ground (arith, head, ap (one x) same), ground arith)

module _ (t : Transport) (laws : IsTransport t) (now : ℕ) where
  module _ (w : Wrapper) (q : List Wrapper) (m : Msg) (same : m.req_id ≡ w.msg.req_id) where
    handle_msg-Conserves : (l : Loop) → queue l ≡ w ∷ q → Conserves l (handle_msg t now w m l).1
    unfolding handle_msg
    handle_msg-Conserves l head =
        let (rc, m') = t.msg_check l.rounds.outbox.context m in
        let same' : m'.req_id ≡ w.msg.req_id = laws.check_keeps l.rounds.outbox.context m ∙ same in
        elim (Bool-cases (is_zero rc)) [
          | inl good ↦ rw (good, handle_msg) (deliver-Conserves w q m' same' t now l head)
          | inr bad ↦
              rw (bad, handle_msg)
                (fail-Conserves w q m' same' now (reject_reason t m')
                  (give_up_stream (count_error l)) head)
        ]

    after_step-Conserves :
        (rc : ℤ) (l : Loop) → queue l ≡ w ∷ q → Conserves l (after_step t now w m rc l).1
    unfolding after_step
    after_step-Conserves (pos n) l head = elim (Bool-cases (n == 0)) [
      | inl done ↦
          rw done (handle_msg-Conserves (record l { tx = counted l.tx; rx = counted l.rx }) head)
      | inr more ↦ rw more (Conserves-same l)
    ]
    after_step-Conserves (negsuc n) l head = elim (Bool-cases (n == 3)) [
      | inl refusal ↦ rw refusal (fail-Conserves w q m same now exception (count_error l) head)
      | inr other ↦ rw other (elim (Bool-cases (n == 1)) [
        | inl rejected ↦ rw rejected (fail-Conserves w q m same now (reject_reason t m) l head)
        | inr broken ↦ rw broken (fail-Conserves w q m same now transport (count_error l) head)
      ])
    ]

  step_head-Conserves :
      (ready : Ready) (hung_up : Bool) (sent : ℤ) (read : Frame → ℤ × Frame) (q : List Wrapper)
      (l : Loop)
      → queue l ≡ q
      → Conserves l (step_head t now ready hung_up sent read q l).1
  unfolding step_head
  step_head-Conserves ready true sent read [] l e = Conserves-same l
  step_head-Conserves ready false sent read [] l e = Conserves-same l
  step_head-Conserves ready hung_up sent read (w ∷ q) l e =
      let (rc, stream, m) = handle_write_read t now ready sent read (link_of l) w.msg in
      let same : m.req_id ≡ w.msg.req_id =
        handle_keeps_id t laws now ready sent read (link_of l) w.msg in
      let l' = set_queue (record w { msg = m } ∷ q) (record l { stream = stream }) in
      let kept : Conserves l l' =
        (λ x. omega (arith, ap (one x) same, ap (count_waiting x) e), refl) in
      Conserves-then l l' (after_step t now (record w { msg = m }) m rc l').1 kept
        (after_step-Conserves (record w { msg = m }) q m refl rc l' refl)

  -- A pass over the head of the queue stamps nothing, and loses or doubles no request: each id
  -- stands as often on the queue and among the requests that have ended as before.
  pub loop_write_read-Conserves :
      (ready : Ready) (hung_up : Bool) (sent : ℤ) (read : Frame → ℤ × Frame) (l : Loop)
      → Conserves l (loop_write_read t now ready hung_up sent read l).1
  unfolding loop_write_read
  loop_write_read-Conserves ready hung_up sent read l =
      step_head-Conserves ready hung_up sent read (queue l) l refl

pub drop_all_empty :
    (now : ℕ) (q : List Wrapper) (l : Loop) → queue l ≡ q → queue (drop_all now q l) ≡ []
unfolding drop_all
drop_all_empty now [] l e = e
drop_all_empty now (w ∷ q) l e =
    drop_all_empty now q (fail now transport w.msg l) (fail_queue now transport w q w.msg l e)

drop_all-Conserves :
    (now : ℕ) (q : List Wrapper) (l : Loop) → queue l ≡ q → Conserves l (drop_all now q l)
unfolding drop_all
drop_all-Conserves now [] l e = Conserves-same l
drop_all-Conserves now (w ∷ q) l e =
    let l' = fail now transport w.msg l in
    Conserves-then l l' (drop_all now q l') (fail-Conserves w q w.msg refl now transport l e)
      (drop_all-Conserves now q l' (fail_queue now transport w q w.msg l e))

pub reset_queue-Conserves : (now : ℕ) (l : Loop) → Conserves l (reset_queue now l)
unfolding reset_queue
reset_queue-Conserves now l =
    let l' = drop_all now (queue l) l in
    let empty : queue l' ≡ [] = drop_all_empty now (queue l) l refl in
    Conserves-then l l' (reset_queue now l) (drop_all-Conserves now (queue l) l refl)
      (λ x. omega (arith, ap (count_waiting x) empty), refl)
