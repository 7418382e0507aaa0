-- ===== src/Tests/Tcp.antt =====
-- A TCP exchange: one holding register of unit 1 is read, and is 42.
use modbusmq.Tcp.Stale.{other_transaction_refused, tcp_drain_steps_iff, tcp_drain_window}
use modbusmq.Tcp.Sending.{
  after, transaction_ids_differ, prepared, msg_prepare_header, tcp_frame_init_fields,
}
use modbusmq.Tcp.Request.{
  frame_init, msg_prepare, frame_slave, frame_transaction_id, frame_function, frame_addr,
  frame_naddr,
}
use modbusmq.Tcp.Drain.{frame_drain}
use modbusmq.Tcp.Accept.{IsAnswer, tcp_msg_check_accepts_iff}
use modbusmq.Tcp.Check.{msg_check_header, msg_check}
use modbusmq.Base.{
  ℕ, ◌≡◌, true, false, [], ◌∷◌, pos, some, refl, arith, ◌+◌, ◌↔◌, ◌⊎◌, ◌≢◌, negsuc, ◌<◌, ◌%◌, ◌^◌,
  ◌≤◌,
}
use modbusmq.Frame.{Frame, Msg, Context, IsExchange, IsBytes, word_at, frame_max}
use modbusmq.Tests.{buffer}

abbrev context : Context
context = record {
  slave_id = 1;
  transaction_id = 0xfffe;
  header_length = 8;
  req_header_min = 6;
  res_header_min = 6;
}

abbrev pub request : Frame
request = record {
  is_writer = true;
  is_tcp = true;
  length = 12;
  xmit = 12;
  buf = buffer (0 ∷ 9 ∷ 0 ∷ 0 ∷ 0 ∷ 6 ∷ 1 ∷ 3 ∷ 0 ∷ 0 ∷ 0 ∷ 1 ∷ []);
}

abbrev answer : Frame
answer = record {
  is_writer = false;
  is_tcp = true;
  length = 11;
  xmit = 11;
  buf = buffer (0 ∷ 9 ∷ 0 ∷ 0 ∷ 0 ∷ 5 ∷ 1 ∷ 3 ∷ 2 ∷ 0 ∷ 42 ∷ []);
}

-- The answer to the request before.
abbrev stale : Frame
stale = record answer { buf = buffer (0 ∷ 8 ∷ 0 ∷ 0 ∷ 0 ∷ 5 ∷ 1 ∷ 3 ∷ 2 ∷ 0 ∷ 41 ∷ []) }

abbrev pub exchange : Msg
exchange = record { msg_id = 0; req_id = 1; first = request; second = answer }

abbrev stale_exchange : Msg
stale_exchange = record { msg_id = 0; req_id = 1; first = request; second = stale }

pub exchange-IsExchange : IsExchange exchange
exchange-IsExchange = record { first_writes = refl; second_reads = refl }

stale_exchange-IsExchange : IsExchange stale_exchange
stale_exchange-IsExchange = record { first_writes = refl; second_reads = refl }

pub request-IsBytes : IsBytes request.buf
request-IsBytes i = ground arith

answer-IsBytes : IsBytes answer.buf
answer-IsBytes i = ground arith

tcp_msg_check_accepts_iff_example :
    ((msg_check exchange).0 ≡ pos 0) ↔ ((request.xmit ≡ request.length) × IsAnswer request answer)
tcp_msg_check_accepts_iff_example =
    tcp_msg_check_accepts_iff exchange exchange-IsExchange answer-IsBytes request-IsBytes
      (omega arith)

answer_whole : IsAnswer request answer
answer_whole = record {
  same_transaction = refl;
  modbus_request = refl;
  modbus_answer = refl;
  same_unit = refl;
  same_function = refl;
  declared = refl;
  whole = refl;
}

answer_accepted : (msg_check exchange).0 ≡ pos 0
answer_accepted = tcp_msg_check_accepts_iff_example.1 (refl, answer_whole)

other_transaction_refused_test :
    (msg_check_header stale_exchange ≡ (negsuc 1, stale_exchange))
    × (msg_check stale_exchange ≡ (negsuc 1, stale_exchange))
other_transaction_refused_test =
    other_transaction_refused stale_exchange stale_exchange-IsExchange (omega arith) (omega arith)

tcp_drain_steps_iff_test :
    ((frame_drain stale).0 ≡ pos 1)
    ↔ ((6 < stale.xmit) × (word_at stale.buf 4 + 6 ≡ stale.xmit) × (stale.xmit ≤ frame_max))
tcp_drain_steps_iff_test = tcp_drain_steps_iff stale

stale_drained : (frame_drain stale).0 ≡ pos 1
stale_drained = tcp_drain_steps_iff_test.1 (omega arith, refl, omega arith)

tcp_drain_window_test :
    ((frame_drain stale).1.buf ≡ stale.buf)
    × ((frame_drain stale).1.xmit ≡ stale.xmit)
    × (((frame_drain stale).1.length ≡ stale.length)
        ⊎ (stale.xmit < (frame_drain stale).1.length) × ((frame_drain stale).1.length ≤ frame_max))
tcp_drain_window_test = tcp_drain_window stale

tcp_frame_init_fields_test :
    let f = frame_init context 3 0x1234 2 in
    (frame_slave f ≡ 1 % 2 ^ 8)
    × (frame_function f ≡ 3 % 2 ^ 8)
    × (frame_addr f ≡ some (0x1234 % 2 ^ 16))
    × (frame_naddr f ≡ some (2 % 2 ^ 16))
tcp_frame_init_fields_test = tcp_frame_init_fields context 3 0x1234 2

msg_prepare_header_test :
    ((msg_prepare context exchange).0.transaction_id ≡ (0xfffe + 1) % 0xffff)
    × (frame_transaction_id (prepared context exchange)
        ≡ (msg_prepare context exchange).0.transaction_id)
    × (word_at (prepared context exchange).buf 4 + 6 ≡ request.length)
    × ((i : ℕ) → 6 ≤ i → (prepared context exchange).buf i ≡ request.buf i)
msg_prepare_header_test =
    msg_prepare_header context exchange exchange-IsExchange (omega arith) (omega arith)

transaction_ids_differ_test :
    (after (exchange ∷ stale_exchange ∷ []) context).transaction_id ≢ 0xfffe
transaction_ids_differ_test =
    transaction_ids_differ context (exchange ∷ stale_exchange ∷ []) (omega arith) (omega arith)
      (omega arith)
