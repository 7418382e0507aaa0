-- ===== src/Tests/Rtu.antt =====
-- A serial exchange: one holding register of slave 1 is read, and is 42.
use modbusmq.Rtu.Request.{
  frame_init, msg_prepare, frame_slave, frame_function, frame_addr, frame_naddr,
}
use modbusmq.Rtu.Sending.{prepared, msg_prepare_residue, frame_init_fields}
use modbusmq.Base.{
  ◌≡◌, true, false, [], ◌∷◌, pos, arith, ◌↔◌, refl, ◌≢◌, inr, ◌⊎◌, ◌<◌, ◌≤◌, ◌+◌, ◌%◌, ℕ, ◌^◌,
}
use modbusmq.Frame.{Frame, Msg, Context, IsExchange, IsBytes, frame_max}
use modbusmq.Rtu.Crc.{crc16, crc_loop, crc_byte, crc_bits, crc_bit}
use modbusmq.Rtu.Check.{msg_check, msg_broadcast}
use modbusmq.Rtu.Drain.{frame_drain}
use modbusmq.Rtu.Accept.{IsAnswer, msg_check_accepts_iff}
use modbusmq.Rtu.Damage.{msg_check_damaged, damaged}
use modbusmq.Rtu.Stale.{
  late_answer_drained, IsWholeFrame, frame_drain_steps_iff, frame_drain_window,
}
use modbusmq.Tests.{buffer}

abbrev pub context : Context
context = record {
  slave_id = 1;
  transaction_id = 0;
  header_length = 3;
  req_header_min = 8;
  res_header_min = 3;
}

abbrev pub request : Frame
request = record {
  is_writer = true;
  is_tcp = false;
  length = 8;
  xmit = 8;
  buf = buffer (1 ∷ 3 ∷ 0 ∷ 0 ∷ 0 ∷ 1 ∷ 132 ∷ 10 ∷ []);
}

abbrev pub answer : Frame
answer = record {
  is_writer = false;
  is_tcp = false;
  length = 3;
  xmit = 7;
  buf = buffer (1 ∷ 3 ∷ 2 ∷ 0 ∷ 42 ∷ 57 ∷ 155 ∷ []);
}

abbrev exchange : Msg
exchange = record { msg_id = 0; req_id = 1; first = request; second = answer }

exchange-IsExchange : IsExchange exchange
exchange-IsExchange = record { first_writes = refl; second_reads = refl }

request_waits : msg_broadcast exchange ≡ false
unfolding msg_broadcast
request_waits = refl

pub answer_whole : IsAnswer context request answer
unfolding crc16 crc_loop crc_byte crc_bits crc_bit
answer_whole = record {
  same_slave = refl;
  same_function = refl;
  no_exception = refl;
  counted = inr refl;
  whole = refl;
  at_least = omega arith;
  at_most = omega arith;
  checksum = refl;
}

msg_check_accepts_iff_example :
    ((msg_check context exchange).0 ≡ pos 0)
    ↔ ((request.xmit ≡ request.length) × IsAnswer context request answer)
msg_check_accepts_iff_example =
    msg_check_accepts_iff context exchange exchange-IsExchange request_waits

answer_accepted : (msg_check context exchange).0 ≡ pos 0
answer_accepted = msg_check_accepts_iff_example.1 (refl, answer_whole)

answer-IsBytes : IsBytes answer.buf
answer-IsBytes i = ground arith

msg_check_damaged_example : (msg_check context (damaged 4 43 exchange)).0 ≢ pos 0
msg_check_damaged_example =
    msg_check_damaged context exchange 4 43 exchange-IsExchange request_waits answer-IsBytes
      answer_accepted (omega arith) (omega arith) (omega arith)

late_answer_drained_example : frame_drain context answer ≡ (pos 1, answer)
late_answer_drained_example = late_answer_drained context request answer answer_whole

frame_drain_steps_iff_test : ((frame_drain context answer).0 ≡ pos 1) ↔ IsWholeFrame context answer
frame_drain_steps_iff_test = frame_drain_steps_iff context answer

frame_drain_window_test :
    ((frame_drain context answer).1.buf ≡ answer.buf)
    × ((frame_drain context answer).1.xmit ≡ answer.xmit)
    × (((frame_drain context answer).1.length ≡ answer.length)
        ⊎ (answer.xmit < (frame_drain context answer).1.length)
          × ((frame_drain context answer).1.length ≤ frame_max))
frame_drain_window_test = frame_drain_window context answer

abbrev built : Frame
built = record {
  is_writer = true;
  is_tcp = false;
  length = 6;
  xmit = 0;
  buf = buffer (1 ∷ 3 ∷ 0 ∷ 0 ∷ 0 ∷ 1 ∷ []);
}

abbrev to_send : Msg
to_send = record { msg_id = 0; req_id = 1; first = built; second = answer }

to_send-IsExchange : IsExchange to_send
to_send-IsExchange = record { first_writes = refl; second_reads = refl }

built-IsBytes : IsBytes built.buf
built-IsBytes i = ground arith

msg_prepare_residue_example :
    ((prepared context to_send).length ≡ built.length + 2)
    × ((i : ℕ) → i < built.length → (prepared context to_send).buf i ≡ built.buf i)
    × (crc16 (prepared context to_send).buf (prepared context to_send).length ≡ 0)
msg_prepare_residue_example = msg_prepare_residue context to_send to_send-IsExchange built-IsBytes

frame_init_fields_test :
    let f = frame_init context 3 0x1234 2 in
    (frame_slave f ≡ 1 % 2 ^ 8)
    × (frame_function f ≡ 3 % 2 ^ 8)
    × (frame_addr f ≡ 0x1234 % 2 ^ 16)
    × (frame_naddr f ≡ 2 % 2 ^ 16)
frame_init_fields_test = frame_init_fields context 3 0x1234 2

-- The last two bytes are those of the request that was answered.
checksum_sent : ((prepared context to_send).buf 6 ≡ 132) × ((prepared context to_send).buf 7 ≡ 10)
unfolding msg_prepare crc16 crc_loop crc_byte crc_bits crc_bit
checksum_sent = (refl, refl)
