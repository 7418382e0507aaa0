-- ===== src/Send/Answer.antt =====
-- What `modbusmq_send` succeeds with over a serial line.
use modbusmq.Base.{ℕ, ℤ, List, ◌≡◌, pos, some, All, false, inl, inr, sym, ◌∙◌, arith}
use modbusmq.Frame.{Msg, IsExchange}
use modbusmq.Transport.{rtu}
use modbusmq.Transport.Laws.{rtu-IsTransport}
use modbusmq.Exchange.Shape.{KeepsMark}
use modbusmq.Loop.{Loop}
use modbusmq.Loop.Answer.{accepted-IsAnswer}
use modbusmq.Rtu.Check.{msg_broadcast}
use modbusmq.Rtu.Accept.{IsAnswer}
use modbusmq.Send.{send, send_begin, Turn, Sending}
use modbusmq.Send.Result.{send-IsResult, IsResult, other_number}

result-IsAnswer :
    (s : Sending) (l : Loop)
    → IsResult rtu l.reports s
    → s.result ≡ pos 0
    → msg_broadcast s.msg ≡ false
    → (s.msg.first.xmit ≡ s.msg.first.length)
      × IsAnswer s.loop.rounds.outbox.context s.msg.first s.msg.second
result-IsAnswer s l (inl (inl (_, m, x, checked))) good addressed =
    accepted-IsAnswer s.loop.rounds.outbox.context m s.msg x checked addressed
result-IsAnswer s l (inl (inr (inl (refused, _)))) good addressed = absurd (cc (good, refused))
result-IsAnswer s l (inl (inr (inr broken))) good addressed = absurd (cc (good, broken))
result-IsAnswer s l (inr (late, _, _, _)) good addressed =
    absurd (other_number (sym good ∙ late) (omega arith))

-- Over a serial line: where modbusmq_send returns 0 for a request that is no broadcast, the message it leaves is a request written to its end with a complete and undamaged answer of the slave and to the function that were asked, whatever the line gave: provided only that reading leaves the marks of the frames alone.
pub send-IsAnswer :
    (start : ℕ) (wait : ℤ) (turns : List Turn) (finish : ℕ) (msg : Msg) (l : Loop) (s : Sending)
    → IsExchange (send_begin rtu msg l).msg
    → All (λ turn. KeepsMark turn.read) turns
    → send rtu start wait turns finish msg l ≡ some s
    → s.result ≡ pos 0
    → msg_broadcast s.msg ≡ false
    → (s.msg.first.xmit ≡ s.msg.first.length)
      × IsAnswer s.loop.rounds.outbox.context s.msg.first s.msg.second
send-IsAnswer start wait turns finish msg l s x marks e good addressed =
    result-IsAnswer s l
      (send-IsResult rtu rtu-IsTransport start wait turns finish msg l s x marks e) good addressed
