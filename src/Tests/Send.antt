-- ===== src/Tests/Send.antt =====
-- A request that is sent over a serial line in one turn, and answered in the next.
use modbusmq.Rtu.Check.{check_length, size_reader, check_complete, expected_nbytes}
use modbusmq.Base.{ℕ, pos, ◌≡◌, refl, List, [], ◌∷◌, Option, none, some, All, false}
use modbusmq.Frame.{Msg}
use modbusmq.Transport.{rtu}
use modbusmq.Rtu.Check.{
  msg_check, msg_check_header, check_length, size_reader, check_complete, expected_nbytes,
  msg_broadcast,
}
use modbusmq.Exchange.{
  awaiting, frame_incomplete, handle_write_read, write_request, wrote, settle, resync, at_least_one,
  before_write, is_zero, pending, read_answer, refused, write_frame,
}
use modbusmq.Slave.{frame_delay_left}
use modbusmq.Queue.{next_req_id}
use modbusmq.Rtu.Crc.{crc16, crc_bit, crc_bits, crc_byte, crc_loop}
use modbusmq.Rtu.Request.{msg_prepare}
use modbusmq.Loop.{raw_pending, reject_reason, report_error}
use modbusmq.Send.{
  send_loop, send_turn, send_polled, send_ready, poll_request, after_send_step, still_waiting,
  send_check, send_end, send_end_by, Turn, Sending, send, events_ready, send_begin,
}
use modbusmq.Send.Result.{send-IsResult, IsResult}
use modbusmq.Send.Answer.{send-IsAnswer}
use modbusmq.Rtu.Accept.{IsAnswer}
use modbusmq.Exchange.Shape.{KeepsMark}
use modbusmq.Transport.Laws.{rtu-IsTransport}
use modbusmq.Frame.{IsExchange}
use modbusmq.Tests.Rtu.{context, request, answer}
use modbusmq.Tests.Loop.{loop}

abbrev asking : Msg
asking = record {
  msg_id = 0;
  req_id = 0;
  first = record request { length = 6; xmit = 0 };
  second = awaiting context;
}

abbrev turn : ℕ → Turn
turn now = record {
  now = now;
  step_now = now;
  poll = λ asked _. events_ready asked;
  sent = pos 8;
  read = λ f. (pos 7, record f { buf = answer.buf; xmit = 7 });
}

abbrev turns : List Turn
turns = turn 2000 ∷ turn 2010 ∷ turn 2600 ∷ []

abbrev sent_or : Sending → Option Sending → Sending
sent_or s none = s
sent_or s (some s') = s'

-- How the wait ends.
unfoldable done : Sending
done = sent_or (send_begin rtu asking loop) (send rtu 2000 (pos 500) turns 2600 asking loop)

done_sent : send rtu 2000 (pos 500) turns 2600 asking loop ≡ some done
unfolding done send send_loop send_turn send_polled send_ready poll_request frame_incomplete
    send_begin msg_prepare frame_delay_left after_send_step handle_write_read write_request wrote
    msg_broadcast settle still_waiting resync at_least_one before_write is_zero pending read_answer
    refused write_frame raw_pending reject_reason report_error next_req_id crc16 crc_bit crc_bits
    crc_byte crc_loop send_check send_end send_end_by msg_check msg_check_header check_length
    size_reader check_complete expected_nbytes
done_sent = refl

done_result : done.result ≡ pos 0
unfolding done send send_loop send_turn send_polled send_ready poll_request frame_incomplete
    send_begin msg_prepare frame_delay_left after_send_step handle_write_read write_request wrote
    msg_broadcast settle still_waiting resync at_least_one before_write is_zero pending read_answer
    refused write_frame raw_pending reject_reason report_error next_req_id crc16 crc_bit crc_bits
    crc_byte crc_loop send_check send_end send_end_by msg_check msg_check_header check_length
    size_reader check_complete expected_nbytes
done_result = refl

done_addressed : msg_broadcast done.msg ≡ false
unfolding done send send_loop send_turn send_polled send_ready poll_request frame_incomplete
    send_begin msg_prepare frame_delay_left after_send_step handle_write_read write_request wrote
    msg_broadcast settle still_waiting resync at_least_one before_write is_zero pending read_answer
    refused write_frame raw_pending reject_reason report_error next_req_id crc16 crc_bit crc_bits
    crc_byte crc_loop send_check send_end send_end_by msg_check msg_check_header check_length
    size_reader check_complete expected_nbytes
done_addressed = refl

begun-IsExchange : IsExchange (send_begin rtu asking loop).msg
unfolding send_begin msg_prepare
begun-IsExchange = record { first_writes = refl; second_reads = refl }

turns_keep : All (λ t. KeepsMark t.read) turns
turns_keep = ((λ f. refl), ((λ f. refl), ((λ f. refl), tt)))

send-IsResult_example : IsResult rtu [] done
send-IsResult_example =
    send-IsResult rtu rtu-IsTransport 2000 (pos 500) turns 2600 asking loop done begun-IsExchange
      turns_keep done_sent

send-IsAnswer_example :
    (done.msg.first.xmit ≡ done.msg.first.length)
    × IsAnswer done.loop.rounds.outbox.context done.msg.first done.msg.second
send-IsAnswer_example =
    send-IsAnswer 2000 (pos 500) turns 2600 asking loop done begun-IsExchange turns_keep done_sent
      done_result done_addressed
