-- ===== src/Exchange/Resync.antt =====
-- How the stream is kept in step.
use modbusmq.Slave.{frame_delay_left}
use modbusmq.Base.{
  ℕ, ◌<◌, ◌≡◌, false, arith, ℤ, Bool, ◌≢◌, true, pos, refl, ◌≤◌, negsuc, ◌∙◌, ap, if◌then◌else◌,
  ◌+◌,
}
use modbusmq.Frame.{Frame, Msg, writer, IsExchange, set_writer, Context, has_exception_bit}
use modbusmq.Rtu.Drain.{frame_drain}
use modbusmq.Transport.{Transport, rtu}
use modbusmq.Rtu.Accept.{IsAnswer}
use modbusmq.Rtu.Stale.{late_answer_drained}
use modbusmq.Rtu.Check.{msg_check, msg_check_header, check_complete, check_length, size_reader}
use modbusmq.Rtu.Request.{msg_exception, frame_exception}
use modbusmq.Exchange.{
  Link, Ready, handle_write_read, before_write, wrote, resync, frame_incomplete, write_request,
  write_frame, set_writer, Context, read_answer, refused, frame_delay_left, pending, is_zero,
  awaiting,
}

wrote_keeps :
    (t : Transport) (l : Link) (rc : ℤ) (m : Msg)
    → (wrote t l rc m).1.resync_pending ≡ l.resync_pending
unfolding wrote
wrote_keeps t l rc m = ground arith

wrote_flushes :
    (t : Transport) (l : Link) (rc : ℤ) (m : Msg) → (wrote t l rc m).1.flushes ≡ l.flushes
unfolding wrote
wrote_flushes t l rc m = ground arith

-- The flushes of a link, with one more where a resync is pending.
abbrev pub flushed_if_pending : Link → ℕ
flushed_if_pending l = if l.resync_pending then l.flushes + 1 else l.flushes

before_write_clean :
    (now : ℕ) (l : Link) (w : Frame)
    → w.xmit ≡ 0
    → ((before_write now l w).resync_pending ≡ false)
      × ((before_write now l w).flushes ≡ flushed_if_pending l)
unfolding before_write resync
before_write_clean now l w fresh = ground arith

-- With a least request header that is not 0, a step after which the first bytes of a request are on
-- the wire has flushed the stream once if a resync was pending, and not at all if none was, and
-- leaves no resync pending.
pub sent_on_clean_stream :
    (t : Transport) (now : ℕ) (ready : Ready) (sent : ℤ) (read : Frame → ℤ × Frame) (l : Link)
    (m : Msg)
    → IsExchange m
    → 0 < l.context.req_header_min
    → m.first.xmit ≡ 0
    → 0 < (handle_write_read t now ready sent read l m).2.first.xmit
    → ((handle_write_read t now ready sent read l m).1.resync_pending ≡ false)
      × ((handle_write_read t now ready sent read l m).1.flushes ≡ flushed_if_pending l)
unfolding handle_write_read frame_incomplete write_request
sent_on_clean_stream t now ready sent read l m x sized fresh going = ground (
  arith,
  x,
  before_write_clean now l (writer m),
  wrote_keeps t (before_write now l (writer m)) (write_frame sent (writer m)).0
      (set_writer m (write_frame sent (writer m)).1),
  wrote_flushes t (before_write now l (writer m)) (write_frame sent (writer m)).0
      (set_writer m (write_frame sent (writer m)).1),
)

module _ (l : Link) (m : Msg) (r : Frame) where
  abbrev received : Msg
  received = record m { second = r }

  abbrev rearmed : Msg
  rearmed = record m { second = awaiting l.context }

  reads_next :
      (t : Transport) (now : ℕ) (ready : Ready) (sent : ℤ) (read : Frame → ℤ × Frame)
      → IsExchange m
      → m.first.xmit ≡ m.first.length
      → l.context.req_header_min ≤ m.first.length
      → 0 < frame_incomplete l.context m.second
      → handle_write_read t now ready sent read l m ≡ read_answer t now ready read l m
  unfolding handle_write_read frame_incomplete
  reads_next t now ready sent read x sent_out long waits = ground (arith, x)

  no_exception : has_exception_bit (r.buf 1) ≡ false → msg_exception received ≡ 0
  unfolding msg_exception frame_exception
  no_exception normal = ground arith

  pending-rearmed :
      m.first.is_writer ≡ true
      → m.first.xmit ≡ m.first.length
      → 0 < l.context.header_length
      → pending l.context rearmed ≡ pos l.context.header_length
  unfolding pending is_zero
  pending-rearmed writes sent_out some = ground arith

  steps_over :
      (now : ℕ)
      → m.first.is_writer ≡ true
      → r.is_writer ≡ false
      → msg_exception received ≡ 0
      → frame_drain l.context r ≡ (pos 1, r)
      → refused rtu (record l { last_read_ms = now }) received
        ≡ (pending l.context rearmed, record l { last_read_ms = now }, rearmed)
  unfolding refused is_zero
  steps_over now writes reads normal drained = ground arith

  read_refused :
      (now n k : ℕ) (ready : Ready) (read : Frame → ℤ × Frame)
      → ready.pollin ≡ true
      → m.second.is_writer ≡ false
      → read m.second ≡ (pos n, r)
      → msg_check_header l.context received ≡ (negsuc k, received)
      → read_answer rtu now ready read l m ≡ refused rtu (record l { last_read_ms = now }) received
  unfolding read_answer
  read_refused now n k ready read in_ready reads came other = ground arith

  -- While an RTU request is written and its reader, with a header length above 0, waits for the
  -- answer, a step that reads an undamaged answer to some request, which the header check refuses
  -- and leaves alone, steps over it: nothing is flushed, the request stays, and its reader waits
  -- for the next answer.
  pub late_answer_stepped_over :
      (now n k : ℕ) (ready : Ready) (sent : ℤ) (read : Frame → ℤ × Frame) (w : Frame)
      → IsExchange m
      → m.first.xmit ≡ m.first.length
      → l.context.req_header_min ≤ m.first.length
      → 0 < frame_incomplete l.context m.second
      → 0 < l.context.header_length
      → ready.pollin ≡ true
      → read m.second ≡ (pos n, r)
      → r.is_writer ≡ false
      → IsAnswer l.context w r
      → msg_check_header l.context received ≡ (negsuc k, received)
      → handle_write_read rtu now ready sent read l m
        ≡ (pos l.context.header_length, record l { last_read_ms = now }, rearmed)
  late_answer_stepped_over now n k ready sent read w x sent_out long waits some in_ready came reads
        a other =
      reads_next rtu now ready sent read x sent_out long waits
      ∙ read_refused now n k ready read in_ready x.second_reads came other
      ∙ steps_over now x.first_writes reads (no_exception a.no_exception)
          (late_answer_drained l.context w r a)
      ∙ ap (λ k. (k, record l { last_read_ms = now }, rearmed))
          (pending-rearmed x.first_writes sent_out some)

unsent_fails_check :
    (c : Context) (m : Msg)
    → IsExchange m
    → 0 < m.first.length
    → m.first.xmit ≡ 0
    → (msg_check c m).0 ≢ pos 0
unfolding msg_check check_complete msg_check_header check_length size_reader
unsent_fails_check c m x some fresh e = ground arith

-- In the pause before a request, which is not empty and of which nothing has been written, a step
-- over RTU that may write returns 0, and the message that it leaves fails the RTU check.
pub pause_fails_check :
    (now : ℕ) (pollin : Bool) (sent : ℤ) (read : Frame → ℤ × Frame) (l : Link) (m : Msg)
    → IsExchange m
    → 0 < m.first.length
    → m.first.xmit ≡ 0
    → 0 < frame_delay_left l.frame_delay_ms l.last_read_ms now
    → let step =
        handle_write_read rtu now (record { pollin = pollin; pollout = true }) sent read l m in
      (step.0 ≡ pos 0) × ((msg_check l.context step.2).0 ≢ pos 0)
unfolding handle_write_read frame_incomplete write_request
pause_fails_check now pollin sent read l m x some fresh gap =
    let same : handle_write_read rtu now (record { pollin = pollin; pollout = true }) sent read l m
        ≡ (pos 0, l, m) =
      ground (arith, x) in
    rw same (refl, unsent_fails_check l.context m x some fresh)
