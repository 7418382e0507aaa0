-- ===== src/Loop/Slot.antt =====
-- The slot of the raw request in flight, and the queue.
use modbusmq.Exchange.Ids.{handle_keeps_id}
use modbusmq.Exchange.{Ready, handle_write_read, counted, is_zero}
use modbusmq.Transport.Laws.{IsTransport}
use modbusmq.Loop.Account.{fail_queue, drop_all_empty}
use modbusmq.Transport.{Transport}
use modbusmq.Frame.{Msg, Frame}
use modbusmq.Queue.{Wrapper, dequeue, is_post}
use mathlib.Core.Path.{subst, sym, ap}
use modbusmq.Base.{
  ℕ, ◌≡◌, arith, ℤ, List, some, Bool, false, true, ◌∷◌, if◌then◌else◌, ◌&&◌, ◌==◌, [], inl, none,
  Option, sym, ◌⊎◌, refl, ◌∙◌, pos, Bool-cases, inr, ap, negsuc,
}
use modbusmq.Loop.{
  transport, Loop, Wrapper, Msg, deliver, queue, dequeue, raw_pending, Failure, Transport, fail,
  is_post, drop_all, report_error, reset_queue, handle_msg, loop_write_read, step_head, after_step,
  Ready, reject_reason, link_of, give_up_stream, exception, set_queue, count_error,
}

-- Does a post with this id wait?
abbrev pub is_asked : ℕ → List Wrapper → Bool
is_asked id [] = false
is_asked id (w ∷ q) = if is_post w.flags && w.msg.req_id == id then true else is_asked id q

-- The raw request that is in flight is on the queue.
abbrev pub IsAsked : Loop → Type 0
IsAsked l = (id : ℕ) → l.raw ≡ some id → is_asked id (queue l) ≡ true

asked_behind :
    (id : ℕ) (w : Wrapper) (q : List Wrapper)
    → is_asked id (w ∷ q) ≡ true
    → is_post w.flags && w.msg.req_id == id ≡ false
    → is_asked id q ≡ true
asked_behind id w q e other = ground (arith, e, other)

pending_other :
    (raw : Option ℕ) (m : Msg) (id : ℕ)
    → raw_pending raw m ≡ false
    → raw ≡ some id
    → m.req_id == id ≡ false
unfolding raw_pending
pending_other none m id other e = ground (arith, e)
pending_other (some k) m id other e = ground (arith, e, other)

report_error_raw :
    (now : ℕ) (error : Failure) (m : Msg) (l : Loop)
    → ((report_error now error m l).1.raw ≡ none)
      ⊎ (((report_error now error m l).1.raw ≡ l.raw) × (raw_pending l.raw m ≡ false))
unfolding report_error
report_error_raw now error m l = ground arith

module _ (w : Wrapper) (q : List Wrapper) (m : Msg) (same : m.req_id ≡ w.msg.req_id) where
  -- The head is another request, or a poll: what is in flight stands behind it.
  behind_head :
      (id : ℕ) (l : Loop)
      → queue l ≡ w ∷ q
      → IsAsked l
      → l.raw ≡ some id
      → is_post w.flags && w.msg.req_id == id ≡ false
      → is_asked id q ≡ true
  behind_head id l head asked flying other =
      asked_behind id w q (subst (λ v. is_asked id v ≡ true) head (asked id flying)) other

  other_head :
      (id : ℕ) (raw : Option ℕ)
      → raw_pending raw m ≡ false
      → raw ≡ some id
      → is_post w.flags && w.msg.req_id == id ≡ false
  other_head id raw other flying = ground (arith, pending_other raw m id other flying, same)

  pub fail-IsAsked :
      (now : ℕ) (error : Failure) (l : Loop)
      → queue l ≡ w ∷ q
      → IsAsked l
      → IsAsked (fail now error m l)
  unfolding dequeue
  fail-IsAsked now error l head asked id flying =
      let tail : queue (fail now error m l) ≡ q = fail_queue now error w q m l head in
      elim (report_error_raw now error m l) [
        | inl cleared ↦ absurd (ground (arith, sym cleared ∙ flying))
        | inr (kept, other) ↦
            ap (is_asked id) tail
            ∙ behind_head id l head asked (sym kept ∙ flying)
                (other_head id l.raw other (sym kept ∙ flying))
      ]

  deliver_raw :
      (t : Transport) (now : ℕ) (l : Loop)
      → queue l ≡ w ∷ q
      → ((deliver t now w m l).raw ≡ none)
        ⊎ (((deliver t now w m l).raw ≡ l.raw)
            × (queue (deliver t now w m l) ≡ q)
            × ((is_post w.flags ≡ false) ⊎ (raw_pending l.raw m ≡ false)))
  unfolding deliver dequeue
  deliver_raw t now l head = ground (arith, head)

  deliver-IsAsked :
      (t : Transport) (now : ℕ) (l : Loop)
      → queue l ≡ w ∷ q
      → IsAsked l
      → IsAsked (deliver t now w m l)
  deliver-IsAsked t now l head asked id flying = elim (deliver_raw t now l head) [
    | inl cleared ↦ absurd (ground (arith, sym cleared ∙ flying))
    | inr (kept, tail, other) ↦
        ap (is_asked id) tail
        ∙ behind_head id l head asked (sym kept ∙ flying) (elim other [
          | inl polls ↦ ground (arith, polls)
          | inr not_it ↦ other_head id l.raw not_it (sym kept ∙ flying)
        ])
  ]

-- A head that keeps its id and its flags.
pub marked_asked :
    (id : ℕ) (w w' : Wrapper) (q : List Wrapper)
    → w'.msg.req_id ≡ w.msg.req_id
    → w'.flags ≡ w.flags
    → is_asked id (w ∷ q) ≡ true
    → is_asked id (w' ∷ q) ≡ true
marked_asked id w w' q same flags asked = rw (same, flags) asked

module _ (t : Transport) (laws : IsTransport t) (now : ℕ) where
  module _ (w : Wrapper) (q : List Wrapper) (m : Msg) (same : m.req_id ≡ w.msg.req_id) where
    handle_msg-IsAsked :
        (l : Loop) → queue l ≡ w ∷ q → IsAsked l → IsAsked (handle_msg t now w m l).1
    unfolding handle_msg
    handle_msg-IsAsked l head asked =
        let (rc, m') = t.msg_check l.rounds.outbox.context m in
        let same' : m'.req_id ≡ w.msg.req_id = laws.check_keeps l.rounds.outbox.context m ∙ same in
        elim (Bool-cases (is_zero rc)) [
          | inl good ↦ rw (good, handle_msg) (deliver-IsAsked w q m' same' t now l head asked)
          | inr bad ↦
              rw (bad, handle_msg)
                (fail-IsAsked w q m' same' now (reject_reason t m') (give_up_stream (count_error l))
                  head asked)
        ]

    after_step-IsAsked :
        (rc : ℤ) (l : Loop) → queue l ≡ w ∷ q → IsAsked l → IsAsked (after_step t now w m rc l).1
    unfolding after_step
    after_step-IsAsked (pos n) l head asked = elim (Bool-cases (n == 0)) [
      | inl done ↦
          rw done
            (handle_msg-IsAsked (record l { tx = counted l.tx; rx = counted l.rx }) head asked)
      | inr more ↦ rw more asked
    ]
    after_step-IsAsked (negsuc n) l head asked = elim (Bool-cases (n == 3)) [
      | inl refusal ↦ rw refusal (fail-IsAsked w q m same now exception (count_error l) head asked)
      | inr other ↦ rw other (elim (Bool-cases (n == 1)) [
        | inl rejected ↦ rw rejected (fail-IsAsked w q m same now (reject_reason t m) l head asked)
        | inr broken ↦ rw broken (fail-IsAsked w q m same now transport (count_error l) head asked)
      ])
    ]

  step_head-IsAsked :
      (ready : Ready) (hung_up : Bool) (sent : ℤ) (read : Frame → ℤ × Frame) (q : List Wrapper)
      (l : Loop)
      → queue l ≡ q
      → IsAsked l
      → IsAsked (step_head t now ready hung_up sent read q l).1
  unfolding step_head
  step_head-IsAsked ready true sent read [] l e asked = asked
  step_head-IsAsked ready false sent read [] l e asked = asked
  step_head-IsAsked ready hung_up sent read (w ∷ q) l e asked =
      let (rc, stream, m) = handle_write_read t now ready sent read (link_of l) w.msg in
      let same : m.req_id ≡ w.msg.req_id =
        handle_keeps_id t laws now ready sent read (link_of l) w.msg in
      let w' = record w { msg = m } in
      let l' = set_queue (w' ∷ q) (record l { stream = stream }) in
      let asked' : IsAsked l' = λ id flying.
        marked_asked id w w' q same refl (subst (λ v. is_asked id v ≡ true) e (asked id flying)) in
      after_step-IsAsked w' q m refl rc l' refl asked'

  pub loop_write_read-IsAsked :
      (ready : Ready) (hung_up : Bool) (sent : ℤ) (read : Frame → ℤ × Frame) (l : Loop)
      → IsAsked l
      → IsAsked (loop_write_read t now ready hung_up sent read l).1
  unfolding loop_write_read
  loop_write_read-IsAsked ready hung_up sent read l =
      step_head-IsAsked ready hung_up sent read (queue l) l refl

drop_all-IsAsked :
    (now : ℕ) (q : List Wrapper) (l : Loop) → queue l ≡ q → IsAsked l → IsAsked (drop_all now q l)
unfolding drop_all
drop_all-IsAsked now [] l e asked = asked
drop_all-IsAsked now (w ∷ q) l e asked =
    drop_all-IsAsked now q (fail now transport w.msg l) (fail_queue now transport w q w.msg l e)
      (fail-IsAsked w q w.msg refl now transport l e asked)

pub reset_queue-IsAsked : (now : ℕ) (l : Loop) → IsAsked l → IsAsked (reset_queue now l)
unfolding reset_queue
reset_queue-IsAsked now l asked id flying =
    subst (λ v. is_asked id v ≡ true) (drop_all_empty now (queue l) l refl)
      (drop_all-IsAsked now (queue l) l refl asked id flying)
