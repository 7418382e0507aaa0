-- ===== src/Loop/Answer.antt =====
-- What is handed to the application over a serial line.
use modbusmq.Transport.Laws.{rtu-IsTransport}
use modbusmq.Loop.Delivery.{is_heard, heard_is_checked}
use modbusmq.Transport.{rtu}
use modbusmq.Loop.{Loop, queue, Report, link_of}
use modbusmq.Queue.{Wrapper}
use modbusmq.Exchange.Shape.{KeepsMark, handle_keeps_exchange}
use modbusmq.Exchange.{Ready, handle_write_read}
use modbusmq.Frame.{Context, Frame, Msg, IsExchange}
use mathlib.Core.Path.{subst, sym, ap}
use modbusmq.Loop.{loop_write_read}
use modbusmq.Base.{ℕ, ◌≡◌, arith, ℤ, Bool, List, ◌∷◌, sym, true, false, pos, ap, ◌∙◌, refl}
use modbusmq.Rtu.Check as RtuCheck
use modbusmq.Rtu.Check.{msg_broadcast}
use modbusmq.Rtu.Accept.{IsAnswer, msg_check_accepts_iff}

-- The check changes nothing but the length of the answer.
msg_check_frames :
    (c : Context) (m : Msg)
    → IsExchange m
    → ((RtuCheck.msg_check c m).1.first ≡ m.first)
      × ((RtuCheck.msg_check c m).1.second.buf ≡ m.second.buf)
      × ((RtuCheck.msg_check c m).1.second.xmit ≡ m.second.xmit)
      × ((RtuCheck.msg_check c m).1.second.is_writer ≡ m.second.is_writer)
unfolding RtuCheck.msg_check RtuCheck.msg_check_header RtuCheck.check_length RtuCheck.size_reader
msg_check_frames c m x =
    (ground (arith, x), ground (arith, x), ground (arith, x), ground (arith, x))

broadcast_kept : (m n : Msg) → IsExchange m → n.first ≡ m.first → msg_broadcast m ≡ msg_broadcast n
unfolding msg_broadcast
broadcast_kept m n x same =
    let writes : n.first.is_writer ≡ true = ap (λ (f : Frame). f.is_writer) same ∙ x.first_writes in
    rw (x.first_writes, writes, same) refl

resized-IsAnswer :
    (c : Context) (w w' r r' : Frame)
    → w' ≡ w
    → r'.buf ≡ r.buf
    → r'.xmit ≡ r.xmit
    → IsAnswer c w r
    → IsAnswer c w' r'
resized-IsAnswer c w w' r r' same bytes much a =
    let frame : ℕ → (ℕ → ℕ) → Frame = λ xmit buf. record {
      is_writer = r'.is_writer;
      is_tcp = r'.is_tcp;
      length = r'.length;
      xmit = xmit;
      buf = buf;
    } in
    let relabelled : IsAnswer c w (frame r.xmit r.buf) = record {
      same_slave = a.same_slave;
      same_function = a.same_function;
      no_exception = a.no_exception;
      counted = a.counted;
      whole = a.whole;
      at_least = a.at_least;
      at_most = a.at_most;
      checksum = a.checksum;
    } in
    subst (λ v. IsAnswer c v r') (sym same)
      (subst (λ n. IsAnswer c w (frame n r'.buf)) (sym much)
        (subst (λ b. IsAnswer c w (frame r.xmit b)) (sym bytes) relabelled))

-- What the check accepts is a written request and its answer.
pub accepted-IsAnswer :
    (c : Context) (m m' : Msg)
    → IsExchange m
    → RtuCheck.msg_check c m ≡ (pos 0, m')
    → msg_broadcast m' ≡ false
    → (m'.first.xmit ≡ m'.first.length) × IsAnswer c m'.first m'.second
accepted-IsAnswer c m m' x checked addressed =
    let (first, bytes, much, mark) = msg_check_frames c m x in
    let same : m'.first ≡ m.first = sym (ap (λ p. p.1.first) checked) ∙ first in
    let waits : msg_broadcast m ≡ false = broadcast_kept m m' x same ∙ addressed in
    let (whole, answer) = (msg_check_accepts_iff c m x waits).0 (ap (λ p. p.0) checked) in
    (
      ap (λ (f : Frame). f.xmit) same ∙ whole ∙ sym (ap (λ (f : Frame). f.length) same),
      resized-IsAnswer c m.first m'.first m.second m'.second same
          (sym (ap (λ p. p.1.second.buf) checked) ∙ bytes)
          (sym (ap (λ p. p.1.second.xmit) checked) ∙ much) answer,
    )

module _ (now : ℕ) (ready : Ready) (hung_up : Bool) (sent : ℤ) (read : Frame → ℤ × Frame)
    (marks : KeepsMark read) (w : Wrapper) (x : IsExchange w.msg) (q : List Wrapper) (l : Loop)
    (head : queue l ≡ w ∷ q) (r : Report)
    (new : (loop_write_read rtu now ready hung_up sent read l).1.reports ≡ r ∷ l.reports)
    (heard : is_heard r.outcome ≡ true) (addressed : msg_broadcast r.msg ≡ false) where
  -- Over a serial line: if a pass over the head of the queue, whose request is in the first frame and
  -- whose answer goes in the second, hands an answer to the application, and the request is no
  -- broadcast, then the request was written to its end and the answer is complete and undamaged, of
  -- the slave and to the function that were asked, whatever the line gave: provided only that reading
  -- leaves the marks of the frames alone.
  pub heard-IsAnswer :
      (r.msg.first.xmit ≡ r.msg.first.length)
      × IsAnswer l.rounds.outbox.context r.msg.first r.msg.second
  heard-IsAnswer =
      let c = l.rounds.outbox.context in
      let m = (handle_write_read rtu now ready sent read (link_of l) w.msg).2 in
      let x' : IsExchange m =
        handle_keeps_exchange rtu rtu-IsTransport read marks now ready sent (link_of l) w.msg x in
      let checked : RtuCheck.msg_check c m ≡ (pos 0, r.msg) =
        heard_is_checked rtu now ready hung_up sent read w q l head r new heard in
      accepted-IsAnswer c m r.msg x' checked addressed
