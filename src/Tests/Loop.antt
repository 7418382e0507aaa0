-- ===== src/Tests/Loop.antt =====
-- A message at the head of the queue whose answer is whole, and a request that waits for its answer.
use modbusmq.Loop.Delivery.{heard_is_checked}
use modbusmq.Loop.Answer.{heard-IsAnswer}
use modbusmq.Transport.{rtu}
use modbusmq.Rtu.Accept.{IsAnswer}
use modbusmq.Exchange.{Ready, handle_write_read, frame_incomplete, is_zero}
use modbusmq.Frame.{Frame, IsExchange, Msg}
use modbusmq.Loop.{
  loop_write_read, Loop, Report, answered, set_queue, step_head, link_of, after_step, handle_msg,
  deliver, raw_pending,
}
use modbusmq.Queue.{Wrapper, post}
use modbusmq.Tests.Exchange.{exchange}
use modbusmq.Tests.Exchange as Wire
use modbusmq.Tests.Rtu.{context, request, answer}
use modbusmq.Rtu.Check.{
  msg_check, msg_check_header, check_length, size_reader, check_complete, expected_nbytes,
  msg_broadcast,
}
use modbusmq.Rtu.Crc.{crc16, crc_loop, crc_byte, crc_bits, crc_bit}
use modbusmq.Base.{◌≡◌, ℤ, false, ◌∷◌, refl, pos, true, [], none}

abbrev pub asked : Wrapper
asked = record { flags = post; head_since_ms = 0; msg = Wire.exchange }

abbrev pub loop : Loop
loop = record {
  rounds = record {
    outbox = record { context = context; req_id_next = 2; queue = asked ∷ [] };
    timers = [];
    round_active = false;
    round_start_ms = 0;
    round_count = 0;
    round_last_ms = 0;
    round_deep_slave = none;
    round_focus = none;
    round_interval_ms = 500;
  };
  stream = record Wire.link { last_write_ms = 1900 };
  inputs = [];
  slave_retry_max_ms = 60000;
  frame_timeout_ms = 500;
  tx = 0;
  rx = 0;
  has_message_cb = true;
  has_subscribe_cb = true;
  has_error_cb = true;
  raw = none;
  reports = [];
}

abbrev answered_message : Msg
answered_message = record Wire.exchange { first = request; second = record answer { length = 7 } }

answered_message-IsExchange : IsExchange answered_message
answered_message-IsExchange = record { first_writes = refl; second_reads = refl }

abbrev complete : Wrapper
complete = record asked { msg = answered_message }

abbrev full : Loop
full = set_queue (complete ∷ []) loop

abbrev ready : Ready
ready = record { pollin = true; pollout = false }

abbrev read_nothing : Frame → ℤ × Frame
read_nothing f = (pos 0, f)

abbrev report : Report
report = record { msg = answered_message; outcome = answered }

reported : (loop_write_read rtu 2000 ready false (pos 0) read_nothing full).1.reports ≡ report ∷ []
unfolding loop_write_read step_head handle_write_read frame_incomplete after_step handle_msg deliver
    is_zero raw_pending msg_check msg_check_header check_length size_reader check_complete
    expected_nbytes msg_broadcast crc16 crc_loop crc_byte crc_bits crc_bit
reported = refl

not_broadcast : msg_broadcast answered_message ≡ false
unfolding msg_broadcast
not_broadcast = refl

heard_is_checked_example :
    msg_check context
      (handle_write_read rtu 2000 ready (pos 0) read_nothing (link_of full) answered_message).2
    ≡ (pos 0, answered_message)
heard_is_checked_example =
    heard_is_checked rtu 2000 ready false (pos 0) read_nothing complete [] full refl report reported
      refl

heard-IsAnswer_example :
    (request.xmit ≡ request.length) × IsAnswer context request (record answer { length = 7 })
heard-IsAnswer_example =
    heard-IsAnswer 2000 ready false (pos 0) read_nothing (λ f. refl) complete
      answered_message-IsExchange [] full refl report reported refl not_broadcast
