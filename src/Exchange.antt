-- ===== src/Exchange.antt =====
-- One step of the exchange at the head of the queue: `modbusmq_frame_incomplete` and
-- `modbusmq_handle_write_read` of lib/modbusmq.c. The result of the system call that writes and the
-- effect of `modbusmq_read` are arguments; a flush is counted, since what it discards stands in the
-- kernel. The clock is read once.
pub mod Ids
pub mod Outcome
pub mod Resync
pub mod Shape
use modbusmq.Base.{
  ℕ, ◌+◌, ◌-◌, Bool, true, false, ◌&&◌, ◌||◌, not, ◌==◌, ltb, leb, if◌then◌else◌, ℤ, pos, negsuc,
  sub_ℕ, is_negative, ◌%◌, ◌^◌,
}
use modbusmq.Frame.{Frame, Msg, Context, cleared, writer, reader, set_writer, set_reader}
use modbusmq.Transport.{Transport}
use modbusmq.Slave.{frame_delay_left}

-- MODBUSMQ_ERR_TRANSPORT, MODBUSMQ_ERR_PROTOCOL and MODBUSMQ_ERR_EXCEPTION
abbrev pub err_transport : ℤ
err_transport = negsuc 0

abbrev pub err_protocol : ℤ
err_protocol = negsuc 1

abbrev pub err_exception : ℤ
err_exception = negsuc 3

-- `context->err++`, in the field's 32 bits.
abbrev pub counted : ℕ → ℕ
counted n = (n + 1) % 2 ^ 32

-- What the step reads and changes in the context.
pub record Link : Type 0 where
  pub context : Context
  pub resync_pending : Bool
  pub last_write_ms : ℕ
  pub last_read_ms : ℕ
  pub err : ℕ
  pub flushes : ℕ
  pub frame_delay_ms : ℕ

-- The `revents` that the step looks at.
pub record Ready : Type 0 where
  pub pollin : Bool
  pub pollout : Bool

-- `modbusmq_frame_incomplete`
unfoldable pub frame_incomplete : Context → Frame → ℕ
frame_incomplete c f =
    if f.is_writer
    then (if leb c.req_header_min f.length && f.xmit == f.length then 0 else 1)
    else if f.length == 0
    then c.res_header_min
    else if ltb f.xmit c.res_header_min
    then c.res_header_min - f.xmit
    else if f.xmit == f.length
    then 0
    else 1

-- `modbusmq_tcp_write` and `modbusmq_rtu_write`, where the system call gave `rc` (0 if it would block).
unfoldable pub write_frame : ℤ → Frame → ℤ × Frame
write_frame (pos n) f = (pos n, record f { xmit = f.xmit + n })
write_frame (negsuc n) f = (negsuc n, f)

unfoldable pub is_zero : ℤ → Bool
is_zero (pos n) = n == 0
is_zero (negsuc n) = false

-- `if (rc <= 0) rc = 1;`
unfoldable pub at_least_one : ℤ → ℤ
at_least_one (pos n) = if n == 0 then pos 1 else pos n
at_least_one (negsuc n) = pos 1

-- What follows the label `pending`.
unfoldable pub pending : Context → Msg → ℤ
unfolding is_zero
pending c m =
    let w = writer m in
    let r = reader m in
    let rc = sub_ℕ (w.length + r.length) (w.xmit + r.xmit) in
    if is_zero rc && (ltb r.length c.res_header_min || not (r.xmit == r.length))
    then at_least_one (sub_ℕ c.res_header_min r.xmit)
    else rc

-- `if (rc != 0) return rc;`, and else `pending`.
unfoldable pub settle : Context → ℤ → Msg → ℤ
unfolding is_zero
settle c rc m = if is_zero rc then pending c m else rc

-- The reader set up for an answer.
abbrev pub awaiting : Context → Frame
awaiting c = record cleared { length = c.header_length }

-- `modbusmq_resync`
unfoldable pub resync : Link → Link
resync l = record l { resync_pending = false; flushes = l.flushes + 1 }

-- What follows the call of `modbusmq_write`.
unfoldable pub wrote : Transport → Link → ℤ → Msg → ℤ × Link × Msg
wrote t l rc m =
    let w = writer m in
    if is_negative rc
    then (negsuc 0, record l { err = counted l.err }, m)
    else if w.length == w.xmit
    then (if t.msg_broadcast m
        then (pos 0, l, m)
        else (let m' = set_reader m (awaiting l.context) in (settle l.context rc m', l, m')))
    else (settle l.context rc m, l, m)

-- A request that was not begun goes out on a clean stream.
unfoldable pub before_write : ℕ → Link → Frame → Link
before_write now l w =
    let clean = if l.resync_pending && w.xmit == 0 then resync l else l in
    record clean { last_write_ms = now }

-- The branch for a request that is not yet written.
unfoldable pub write_request : Transport → ℕ → Ready → ℤ → Link → Msg → ℤ × Link × Msg
unfolding write_frame before_write
write_request t now ready sent l m =
    let w = writer m in
    if not ready.pollout
    then (pending l.context m, l, m)
    else if w.xmit == 0 && ltb 0 (frame_delay_left l.frame_delay_ms l.last_read_ms now)
    then (pos 0, l, m)
    else (let (rc, w') = write_frame sent w in wrote t (before_write now l w) rc (set_writer m w'))

-- An answer that the header check refused.
unfoldable pub refused : Transport → Link → Msg → ℤ × Link × Msg
refused t l m =
    if ltb 0 (t.msg_exception m)
    then (err_exception, l, m)
    else (let (rc, r) = t.frame_drain l.context (reader m) in
        if is_negative rc
        then (
          err_protocol,
          record l { err = counted l.err; flushes = l.flushes + 1; resync_pending = true },
          set_reader m (awaiting l.context),
        )
        else (let m' = if is_zero rc then set_reader m r else set_reader m (awaiting l.context) in
            (pending l.context m', l, m')))

-- The branch for an answer that is not yet read.
unfoldable pub read_answer :
    Transport → ℕ → Ready → (Frame → ℤ × Frame) → Link → Msg → ℤ × Link × Msg
unfolding refused is_zero
read_answer t now ready read l m =
    if not ready.pollin
    then (pending l.context m, l, m)
    else (let l' = record l { last_read_ms = now } in
        let (rc, r) = read (reader m) in
        let m' = set_reader m r in
        if is_negative rc
        then (err_transport, record l' { err = counted l.err }, m')
        else (let (check, m'') = t.msg_check_header l.context m' in
            if is_negative check
            then refused t l' m''
            else (let r' = reader m'' in
                if r'.xmit == r'.length
                then (pending l.context m'', l', m'')
                else (settle l.context rc m'', l', m''))))

-- `modbusmq_handle_write_read`
unfoldable pub handle_write_read :
    Transport → ℕ → Ready → ℤ → (Frame → ℤ × Frame) → Link → Msg → ℤ × Link × Msg
unfolding frame_incomplete
handle_write_read t now ready sent read l m =
    if not (frame_incomplete l.context (writer m) == 0)
    then write_request t now ready sent l m
    else if not (frame_incomplete l.context (reader m) == 0)
    then read_answer t now ready read l m
    else (pos 0, l, m)
