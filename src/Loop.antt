-- ===== src/Loop.antt =====
-- The loop of lib/modbusmq.c: `modbusmq_report_error`, `modbusmq_handle_msg`,
-- `modbusmq_loop_write_read` and `modbusmq_reset_queue`. Whatever a request comes to is put in
-- `reports`, the newest first, with the callback that hears of it; a callback that calls the library
-- is a step of its own behind this one.
pub mod Account
pub mod Answer
pub mod Delivery
pub mod Ending
pub mod Slot
use modbusmq.Base.{
  ℕ, ◌+◌, Bool, true, false, ◌&&◌, List, [], ◌∷◌, Option, none, some, ◌==◌, ltb, if◌then◌else◌, ℤ,
  pos, negsuc, add_ℤ, is_ℕ,
}
use modbusmq.Frame.{Msg, Frame}
use modbusmq.Transport.{Transport}
use modbusmq.Queue.{is_post, Wrapper, dequeue}
use modbusmq.Timer.{Timer, never}
use modbusmq.Slave.{slave_update, once_rearm}
use modbusmq.Round.{Rounds}
use modbusmq.Exchange.{
  Link, Ready, counted, is_zero, handle_write_read, err_transport, err_protocol,
}

-- The MODBUSMQ_ERR_* codes.
pub data Failure : Type 0 where
  transport protocol timeout exception : Failure

-- `modbusmq_input_t`, as far as answers are routed by it.
pub record Input : Type 0 where
  pub slave : ℕ
  pub type : ℕ
  pub address : ℕ
  pub address_offset : ℤ

-- How a request ends: with the reply to a raw request, with a call of `message_cb`, of
-- `subscribe_cb` for each of the inputs or of `error_cb`, or with none where it is not set.
pub data Outcome : Type 0 where
  raw_answered answered unheard : Outcome
  delivered : List Input → Outcome
  raw_failed failed : Failure → Outcome

pub record Report : Type 0 where
  pub msg : Msg
  pub outcome : Outcome

-- The context of the library. The context in `stream` is that of the outbox. `raw` is `raw_req_id`
-- while `raw_cb` is set.
pub record Loop : Type 0 where
  pub rounds : Rounds
  pub stream : Link
  pub inputs : List Input
  pub slave_retry_max_ms : ℕ
  pub frame_timeout_ms : ℕ
  pub tx : ℕ
  pub rx : ℕ
  pub has_message_cb : Bool
  pub has_subscribe_cb : Bool
  pub has_error_cb : Bool
  pub raw : Option ℕ
  pub reports : List Report

abbrev pub queue : Loop → List Wrapper
queue l = l.rounds.outbox.queue

abbrev pub set_queue : List Wrapper → Loop → Loop
set_queue q l = record l {
  rounds = record l.rounds { outbox = record l.rounds.outbox { queue = q } };
}

abbrev pub set_timers : List Timer → Loop → Loop
set_timers ts l = record l { rounds = record l.rounds { timers = ts } }

abbrev pub link_of : Loop → Link
link_of l = record l.stream { context = l.rounds.outbox.context }

abbrev pub count_error : Loop → Loop
count_error l = record l { stream = record l.stream { err = counted l.stream.err } }

-- `modbusmq_flush` with `resync_pending = 1`.
abbrev pub give_up_stream : Loop → Loop
give_up_stream l = record l {
  stream = record l.stream { flushes = l.stream.flushes + 1; resync_pending = true };
}

-- Free the head of the queue, whose message has come to an outcome.
abbrev pub finish : Msg → Outcome → Loop → Loop
finish m outcome l = record (set_queue (dequeue (queue l)) l) {
  reports = record { msg = m; outcome = outcome } ∷ l.reports;
}

-- `modbusmq_raw_pending`
unfoldable pub raw_pending : Option ℕ → Msg → Bool
raw_pending none m = false
raw_pending (some id) m = m.req_id == id

abbrev pub is_slave_outcome : Failure → Bool
is_slave_outcome timeout = true
is_slave_outcome exception = true
is_slave_outcome _ = false

abbrev pub is_exception : Failure → Bool
is_exception exception = true
is_exception _ = false

-- `modbusmq_report_error`: what it changes, and the outcome that it reports.
unfoldable pub report_error : ℕ → Failure → Msg → Loop → Outcome × Loop
report_error now error m l =
    if raw_pending l.raw m
    then (raw_failed error, record l { raw = none })
    else (let l' =
          if ltb 0 m.msg_id && is_slave_outcome error
          then set_timers
              (slave_update l.slave_retry_max_ms now m.msg_id (is_exception error) l.rounds.timers)
              l
          else l in
        (if l'.has_error_cb then failed error else unheard, l'))

abbrev pub fail : ℕ → Failure → Msg → Loop → Loop
fail now error m l = let (outcome, l') = report_error now error m l in finish m outcome l'

-- `modbusmq_reject_reason`
unfoldable pub reject_reason : Transport → Msg → Failure
reject_reason t m = if ltb 0 (t.msg_exception m) then exception else protocol

-- Does this input describe the request of the message?
unfoldable pub is_input : Transport → Msg → Input → Bool
is_input t m input = elim (t.frame_addr m.first) [
  | none ↦ false
  | some address ↦
      input.slave == t.frame_slave m.first
      && input.type == t.frame_function m.first
      && is_ℕ (add_ℤ input.address input.address_offset) address
]

unfoldable pub matching : Transport → Msg → List Input → List Input
matching t m [] = []
matching t m (input ∷ inputs) =
    let rest = matching t m inputs in if is_input t m input then input ∷ rest else rest

-- A valid reply ends a once read until the next reset.
unfoldable pub mark_answered : ℕ → List Timer → List Timer
mark_answered timer_id [] = []
mark_answered timer_id (t ∷ ts) =
    if t.timer_id == timer_id
    then (if t.is_once then record t { timer_next_time = never } else t) ∷ ts
    else t ∷ mark_answered timer_id ts

-- The part of `modbusmq_handle_msg` for an answer that was checked.
unfoldable pub deliver : Transport → ℕ → Wrapper → Msg → Loop → Loop
deliver t now w m l =
    if is_post w.flags
    then (if raw_pending l.raw m
        then finish m raw_answered (record l { raw = none })
        else finish m (if l.has_message_cb then answered else unheard) l)
    else if l.has_subscribe_cb
    then (let ts = slave_update l.slave_retry_max_ms now m.msg_id true l.rounds.timers in
        finish m (delivered (matching t m l.inputs)) (set_timers (mark_answered m.msg_id ts) l))
    else finish m unheard l

-- `modbusmq_handle_msg`
unfoldable pub handle_msg : Transport → ℕ → Wrapper → Msg → Loop → ℤ × Loop
handle_msg t now w m l =
    let (rc, m') = t.msg_check l.rounds.outbox.context m in
    if is_zero rc
    then (pos 0, deliver t now w m' l)
    else (err_protocol, fail now (reject_reason t m') m' (give_up_stream (count_error l)))

-- `modbusmq_loop_write_read`, by the result of the step for the message at the head.
unfoldable pub after_step : Transport → ℕ → Wrapper → Msg → ℤ → Loop → ℤ × Loop
after_step t now w m (pos n) l =
    if n == 0
    then handle_msg t now w m (record l { tx = counted l.tx; rx = counted l.rx })
    else (pos n, l)
after_step t now w m (negsuc n) l =
    if n == 3
    then (err_protocol, fail now exception m (count_error l))
    else if n == 1
    then (err_protocol, fail now (reject_reason t m) m l)
    else (negsuc n, fail now transport m (count_error l))

-- The same, by the queue; `hung_up` is POLLERR or POLLHUP.
unfoldable pub step_head :
    Transport → ℕ → Ready → Bool → ℤ → (Frame → ℤ × Frame) → List Wrapper → Loop → ℤ × Loop
step_head t now ready hung_up sent read [] l =
    if hung_up then (err_transport, count_error l) else (pos 0, l)
step_head t now ready hung_up sent read (w ∷ q) l =
    let (rc, stream, m) = handle_write_read t now ready sent read (link_of l) w.msg in
    let w' = record w { msg = m } in
    after_step t now w' m rc (set_queue (w' ∷ q) (record l { stream = stream }))

-- `modbusmq_loop_write_read`
unfoldable pub loop_write_read :
    Transport → ℕ → Ready → Bool → ℤ → (Frame → ℤ × Frame) → Loop → ℤ × Loop
loop_write_read t now ready hung_up sent read l =
    step_head t now ready hung_up sent read (queue l) l

-- `modbusmq_reset_queue`: every message is reported and freed, from the head on.
unfoldable pub drop_all : ℕ → List Wrapper → Loop → Loop
drop_all now [] l = l
drop_all now (w ∷ q) l = drop_all now q (fail now transport w.msg l)

unfoldable pub reset_queue : ℕ → Loop → Loop
reset_queue now l =
    let l' = drop_all now (queue l) l in
    set_queue [] (set_timers (once_rearm now l'.rounds.timers) l')
