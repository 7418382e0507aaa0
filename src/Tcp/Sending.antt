-- ===== src/Tcp/Sending.antt =====
-- Requests as they go on the wire.
use modbusmq.Base.{
  List, [], ◌∷◌, length, ℕ, ◌+◌, ◌%◌, ◌^◌, ◌<◌, ◌≤◌, ◌≡◌, ◌≢◌, refl, arith, some, List, ◌∷◌, length,
}
use modbusmq.Frame.{Frame, Msg, Context, IsExchange, writer, word_at}
use modbusmq.Tcp.Request.{
  frame_init, frame_transaction_id, frame_slave, frame_function, frame_addr, frame_naddr,
  msg_prepare,
}

-- The fields of a request are read back as they were given, each cut to its width on the wire.
pub tcp_frame_init_fields :
    (c : Context) (fn addr nb : ℕ)
    → let f = frame_init c fn addr nb in
      (frame_slave f ≡ c.slave_id % 2 ^ 8)
      × (frame_function f ≡ fn % 2 ^ 8)
      × (frame_addr f ≡ some (addr % 2 ^ 16))
      × (frame_naddr f ≡ some (nb % 2 ^ 16))
unfolding frame_init frame_slave frame_function frame_addr frame_naddr
tcp_frame_init_fields c fn addr nb = ground arith

-- The request as it is sent.
abbrev pub prepared : Context → Msg → Frame
prepared c m = writer (msg_prepare c m).1

-- Preparing a request of at least 6 and fewer than 65536 bytes advances the context's transaction
-- id modulo 65535, writes that id and the number of bytes behind the first six into the request,
-- and leaves all that is behind them.
pub msg_prepare_header :
    (c : Context) (m : Msg)
    → IsExchange m
    → 6 ≤ m.first.length
    → m.first.length < 2 ^ 16
    → ((msg_prepare c m).0.transaction_id ≡ (c.transaction_id + 1) % 0xffff)
      × (frame_transaction_id (prepared c m) ≡ (msg_prepare c m).0.transaction_id)
      × (word_at (prepared c m).buf 4 + 6 ≡ m.first.length)
      × ((i : ℕ) → 6 ≤ i → (prepared c m).buf i ≡ m.first.buf i)
unfolding msg_prepare frame_transaction_id
msg_prepare_header c m x long short =
    (ground arith, ground arith, ground arith, λ i h. ground arith)

-- The context when all of `ms` have been prepared.
abbrev pub after : List Msg → Context → Context
after [] c = c
after (m ∷ ms) c = after ms (msg_prepare c m).0

prepared_id :
    (c : Context) (m : Msg) → (msg_prepare c m).0.transaction_id ≡ (c.transaction_id + 1) % 0xffff
unfolding msg_prepare
prepared_id c m = refl

after_id :
    (ms : List Msg) (c : Context)
    → c.transaction_id < 0xffff
    → (after ms c).transaction_id ≡ (c.transaction_id + length ms) % 0xffff
after_id [] c h = omega arith
after_id (m ∷ ms) c h =
    omega (arith, prepared_id c m, after_id ms (msg_prepare c m).0 (omega (arith, prepared_id c m)))

-- From a transaction id below 65535, preparing at least one and fewer than 65535 messages leads to
-- another transaction id.
pub transaction_ids_differ :
    (c : Context) (ms : List Msg)
    → c.transaction_id < 0xffff
    → 0 < length ms
    → length ms < 0xffff
    → (after ms c).transaction_id ≢ c.transaction_id
transaction_ids_differ c ms small later near e = omega (arith, after_id ms c small)
