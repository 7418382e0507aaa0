-- ===== src/Tests/Exchange.antt =====
-- Two registers are asked for, and the answer to the request for one comes late.
use modbusmq.Exchange.Outcome.{IsGap, IsBroadcast, IsComplete, handle_write_read_zero}
use modbusmq.Slave.{frame_delay_left}
use modbusmq.Exchange.Resync.{
  flushed_if_pending, late_answer_stepped_over, sent_on_clean_stream, pause_fails_check,
}
use modbusmq.Base.{◌≡◌, true, false, [], ◌∷◌, ℤ, pos, negsuc, refl, arith, ◌⊎◌, ◌<◌, ◌≢◌}
use modbusmq.Frame.{Frame, Msg, IsExchange}
use modbusmq.Transport.{rtu}
use modbusmq.Rtu.Check.{msg_check, msg_check_header, check_length, expected_nbytes, msg_broadcast}
use modbusmq.Tests.{buffer}
use modbusmq.Tests.Rtu.{context, request, answer, answer_whole}
use modbusmq.Exchange.{
  Link, Ready, awaiting, handle_write_read, frame_incomplete, write_request, wrote, before_write,
  write_frame, settle, pending, is_zero, resync,
}

abbrev pub link : Link
link = record {
  context = context;
  resync_pending = true;
  last_write_ms = 0;
  last_read_ms = 1000;
  err = 0;
  flushes = 0;
  frame_delay_ms = 50;
}

abbrev sent_request : Frame
sent_request = record {
  is_writer = true;
  is_tcp = false;
  length = 8;
  xmit = 8;
  buf = buffer (1 ∷ 3 ∷ 0 ∷ 0 ∷ 0 ∷ 2 ∷ 196 ∷ 11 ∷ []);
}

abbrev pub exchange : Msg
exchange = record { msg_id = 0; req_id = 2; first = sent_request; second = awaiting context }

abbrev pub unsent : Msg
unsent = record exchange { first = record sent_request { xmit = 0 } }

exchange-IsExchange : IsExchange exchange
exchange-IsExchange = record { first_writes = refl; second_reads = refl }

unsent-IsExchange : IsExchange unsent
unsent-IsExchange = record { first_writes = refl; second_reads = refl }

abbrev ready : Ready
ready = record { pollin = true; pollout = true }

abbrev read_late : Frame → ℤ × Frame
read_late f = (pos 7, answer)

refused_late :
    msg_check_header context (record exchange { second = answer })
    ≡ (negsuc 3, record exchange { second = answer })
unfolding msg_check_header check_length expected_nbytes
refused_late = refl

waiting : 0 < frame_incomplete context exchange.second
unfolding frame_incomplete
waiting = omega arith

late_answer_stepped_over_example :
    handle_write_read rtu 2000 ready (pos 0) read_late link exchange
    ≡ (pos 3, record link { last_read_ms = 2000 }, exchange)
late_answer_stepped_over_example =
    late_answer_stepped_over link exchange answer 2000 7 3 ready (pos 0) read_late request
      exchange-IsExchange refl (omega arith) waiting (omega arith) refl refl refl answer_whole
      refused_late

begun : 0 < (handle_write_read rtu 2000 ready (pos 8) read_late link unsent).2.first.xmit
unfolding handle_write_read frame_incomplete write_request wrote before_write write_frame
    frame_delay_left settle pending is_zero resync msg_broadcast
begun = omega arith

sent_on_clean_stream_example :
    ((handle_write_read rtu 2000 ready (pos 8) read_late link unsent).1.resync_pending ≡ false)
    × ((handle_write_read rtu 2000 ready (pos 8) read_late link unsent).1.flushes
        ≡ flushed_if_pending link)
sent_on_clean_stream_example =
    sent_on_clean_stream rtu 2000 ready (pos 8) read_late link unsent unsent-IsExchange
      (omega arith) refl begun

gap : 0 < frame_delay_left 50 1000 1010
unfolding frame_delay_left
gap = omega arith

pause_fails_check_example :
    let step = handle_write_read rtu 1010 ready (pos 8) read_late link unsent in
    (step.0 ≡ pos 0) × ((msg_check context step.2).0 ≢ pos 0)
pause_fails_check_example =
    pause_fails_check 1010 true (pos 8) read_late link unsent unsent-IsExchange (omega arith) refl
      gap

handle_write_read_zero_example :
    IsGap 1010 link unsent
      × ((handle_write_read rtu 1010 ready (pos 8) read_late link unsent).2 ≡ unsent)
    ⊎ IsBroadcast rtu (handle_write_read rtu 1010 ready (pos 8) read_late link unsent).2
    ⊎ IsComplete context (handle_write_read rtu 1010 ready (pos 8) read_late link unsent).2
handle_write_read_zero_example =
    handle_write_read_zero rtu 1010 ready (pos 8) link unsent read_late unsent-IsExchange
      (omega arith) pause_fails_check_example.0
