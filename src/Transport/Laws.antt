-- ===== src/Transport/Laws.antt =====
-- What the rest of the library relies on: no operation of a transport changes the id of a request.
use mathlib.Core.Path.{ap}
use modbusmq.Frame.Function
use modbusmq.Base.{
  true, false, ◌≡◌, arith, refl, ◌⊎◌, inl, ℕ, inr, Bool, ℤ, if◌then◌else◌, true, pos, ap, ◌∙◌,
  negsuc, ◌+◌, is_negative, ◌==◌, not, ltb, leb, ◌&&◌, sub_ℕ,
}
use modbusmq.Frame.{
  Frame, Msg, Context, IsExchange, set_reader, reader, writer, word_at, frame_max,
  has_exception_bit, with_exception_bit,
}
use modbusmq.Transport.{Transport, rtu, tcp}
use modbusmq.Rtu.Request as RtuRequest
use modbusmq.Rtu.Check as RtuCheck
use modbusmq.Rtu.Drain as RtuDrain
use modbusmq.Tcp.Drain as TcpDrain
use modbusmq.Tcp.Request as TcpRequest
use modbusmq.Tcp.Check as TcpCheck

pub record IsTransport (t : Transport) : Type 0 where
  pub prepare_keeps : (c : Context) (m : Msg) → (t.msg_prepare c m).1.req_id ≡ m.req_id
  pub header_keeps : (c : Context) (m : Msg) → (t.msg_check_header c m).1.req_id ≡ m.req_id
  pub check_keeps : (c : Context) (m : Msg) → (t.msg_check c m).1.req_id ≡ m.req_id
  pub prepare_min :
      (c : Context) (m : Msg) → (t.msg_prepare c m).0.req_header_min ≡ c.req_header_min
  pub header_first :
      (c : Context) (m : Msg) → IsExchange m → (t.msg_check_header c m).1.first ≡ m.first
  pub header_second :
      (c : Context) (m : Msg)
      → IsExchange m
      → (t.msg_check_header c m).1.second.is_writer ≡ m.second.is_writer
  pub drain_keeps : (c : Context) (f : Frame) → (t.frame_drain c f).1.is_writer ≡ f.is_writer

-- The result of a check keeps the message, but for the length of the answer.
abbrev Resized : Msg → Msg → Type 0
Resized m m' = (m' ≡ m) ⊎ (n : ℕ) × (m' ≡ set_reader m (record (reader m) { length = n }))

record IsSized (m : Msg) (res : ℤ × Msg) : Type 0 where
  resized : Resized m res.1

int_cases : (z : ℤ) → ((n : ℕ) × (z ≡ pos n)) ⊎ ((n : ℕ) × (z ≡ negsuc n))
int_cases (pos n) = inl (n, refl)
int_cases (negsuc n) = inr (n, refl)

module _ (m : Msg) where
  same : (rc : ℤ) → IsSized m (rc, m)
  same rc = record { resized = inl refl }

  sized : (rc : ℤ) (n : ℕ) → IsSized m (rc, set_reader m (record (reader m) { length = n }))
  sized rc n = record { resized = inr (n, refl) }

  either : (b : Bool) {x y : ℤ × Msg} → IsSized m x → IsSized m y → IsSized m (if b then x else y)
  either true p q = p
  either false p q = q

  module _ (res : ℤ × Msg) (s : IsSized m res) where
    sized_id : res.1.req_id ≡ m.req_id
    sized_id = elim s.resized [
      | inl e ↦ ap (λ (k : Msg). k.req_id) e
      | inr (n, e) ↦ ap (λ (k : Msg). k.req_id) e ∙ ground arith
    ]

    sized_first : IsExchange m → res.1.first ≡ m.first
    sized_first x = elim s.resized [
      | inl e ↦ ap (λ (k : Msg). k.first) e
      | inr (n, e) ↦ ap (λ (k : Msg). k.first) e ∙ ground (arith, x)
    ]

    sized_second : IsExchange m → res.1.second.is_writer ≡ m.second.is_writer
    sized_second x = elim s.resized [
      | inl e ↦ ap (λ (k : Msg). k.second.is_writer) e
      | inr (n, e) ↦ ap (λ (k : Msg). k.second.is_writer) e ∙ ground (arith, x)
    ]

module _ (c : Context) (m : Msg) where
  rtu_prepare : (RtuRequest.msg_prepare c m).1.req_id ≡ m.req_id
  unfolding RtuRequest.msg_prepare
  rtu_prepare = ground arith

  rtu_prepare_min : (RtuRequest.msg_prepare c m).0.req_header_min ≡ c.req_header_min
  unfolding RtuRequest.msg_prepare
  rtu_prepare_min = ground arith

  tcp_prepare : (TcpRequest.msg_prepare c m).1.req_id ≡ m.req_id
  unfolding TcpRequest.msg_prepare
  tcp_prepare = ground arith

  tcp_prepare_min : (TcpRequest.msg_prepare c m).0.req_header_min ≡ c.req_header_min
  unfolding TcpRequest.msg_prepare
  tcp_prepare_min = ground arith

  size_reader-IsSized : (n : ℕ) → IsSized m (RtuCheck.size_reader n m)
  unfolding RtuCheck.size_reader
  size_reader-IsSized n =
      either m (ltb frame_max n) (same m (negsuc 4)) (sized m (sub_ℕ n (reader m).xmit) n)

  rtu_length-IsSized : IsSized m (RtuCheck.check_length c m)
  unfolding RtuCheck.check_length
  rtu_length-IsSized = elim (int_cases (RtuCheck.expected_nbytes (writer m))) [
    | inl (n, e) ↦
        rw (e, RtuCheck.check_length)
          (either m (not ((reader m).buf 2 == n)) (same m (negsuc 3))
            (size_reader-IsSized (n + c.header_length + 2)))
    | inr (n, e) ↦
        rw (e, RtuCheck.check_length)
          (size_reader-IsSized (
            if RtuRequest.frame_function (writer m) == Function.mask_write_register then 10 else 8))
  ]

  rtu_header-IsSized : IsSized m (RtuCheck.msg_check_header c m)
  unfolding RtuCheck.msg_check_header
  rtu_header-IsSized =
      let w = writer m in
      let r = reader m in
      either m (ltb r.xmit 3) (same m (pos 1)) (
        either m (not (leb 1 r.xmit && w.buf 0 == r.buf 0)) (same m (negsuc 1)) (
          either m (leb 2 r.xmit && w.buf 1 == r.buf 1) rtu_length-IsSized (
            either m (leb 2 r.xmit && r.buf 1 == with_exception_bit (w.buf 1))
              (sized m (sub_ℕ 5 r.xmit) 5) (same m (negsuc 2)))))

  rtu_check-IsSized : IsSized m (RtuCheck.msg_check c m)
  unfolding RtuCheck.msg_check
  rtu_check-IsSized =
      let (rc, m') = RtuCheck.msg_check_header c m in
      let kept : (rc : ℤ) → IsSized m (rc, m') =
        λ rc. record { resized = rtu_header-IsSized.resized } in
      either m (is_negative rc) (kept rc) (kept (RtuCheck.check_complete m'))

  tcp_unit-IsSized :
      (m' : Msg) → ((rc : ℤ) → IsSized m (rc, m')) → IsSized m (TcpCheck.check_unit m')
  unfolding TcpCheck.check_unit
  tcp_unit-IsSized m' kept =
      let w = writer m' in
      let r = reader m' in
      either m (leb 7 r.xmit && not (w.buf 6 == r.buf 6)) (kept (negsuc 4)) (
        either m (leb 8 r.xmit && not (w.buf 7 == r.buf 7))
          (either m (has_exception_bit (r.buf 7) && ltb r.xmit 9) (kept (pos 0)) (kept (negsuc 5)))
          (kept (pos 0)))

  tcp_length-IsSized : IsSized m (TcpCheck.check_length m)
  unfolding TcpCheck.check_length
  tcp_length-IsSized =
      let r = reader m in
      let n = word_at r.buf 4 + 6 in
      either m (leb 6 r.xmit && not (n == r.xmit))
        (either m (ltb 6 n && leb n frame_max)
          (tcp_unit-IsSized (set_reader m (record r { length = n })) (λ rc. sized m rc n))
          (same m (negsuc 3)))
        (tcp_unit-IsSized m (same m))

  tcp_header-IsSized : IsSized m (TcpCheck.msg_check_header m)
  unfolding TcpCheck.msg_check_header
  tcp_header-IsSized =
      let w = writer m in
      let r = reader m in
      either m (leb 2 r.xmit && not (w.buf 0 == r.buf 0 && w.buf 1 == r.buf 1)) (same m (negsuc 1))
        (either m
          (leb 4 r.xmit && not (r.buf 2 == 0 && r.buf 3 == 0 && w.buf 2 == 0 && w.buf 3 == 0))
          (same m (negsuc 2)) tcp_length-IsSized)

  tcp_check-IsSized : IsSized m (TcpCheck.msg_check m)
  unfolding TcpCheck.msg_check
  tcp_check-IsSized =
      let (rc, m') = TcpCheck.msg_check_header m in
      let kept : (rc : ℤ) → IsSized m (rc, m') =
        λ rc. record { resized = tcp_header-IsSized.resized } in
      either m (is_negative rc) (kept rc) (
        either m (not ((writer m').xmit == (writer m').length)) (kept (pos 1))
          (either m (not ((reader m').xmit == (reader m').length)) (kept (pos 2)) (kept (pos 0))))

rtu_drain : (c : Context) (f : Frame) → (RtuDrain.frame_drain c f).1.is_writer ≡ f.is_writer
unfolding RtuDrain.frame_drain RtuDrain.drain_length RtuDrain.drain_sized
rtu_drain c f = ground arith

tcp_drain : (f : Frame) → (TcpDrain.frame_drain f).1.is_writer ≡ f.is_writer
unfolding TcpDrain.frame_drain
tcp_drain f = ground arith

pub rtu-IsTransport : IsTransport rtu
rtu-IsTransport = record {
  prepare_keeps = rtu_prepare;
  header_keeps = λ c m. sized_id m (RtuCheck.msg_check_header c m) (rtu_header-IsSized c m);
  check_keeps = λ c m. sized_id m (RtuCheck.msg_check c m) (rtu_check-IsSized c m);
  prepare_min = rtu_prepare_min;
  header_first = λ c m. sized_first m (RtuCheck.msg_check_header c m) (rtu_header-IsSized c m);
  header_second = λ c m. sized_second m (RtuCheck.msg_check_header c m) (rtu_header-IsSized c m);
  drain_keeps = rtu_drain;
}

pub tcp-IsTransport : IsTransport tcp
tcp-IsTransport = record {
  prepare_keeps = tcp_prepare;
  header_keeps = λ c m. sized_id m (TcpCheck.msg_check_header m) (tcp_header-IsSized c m);
  check_keeps = λ c m. sized_id m (TcpCheck.msg_check m) (tcp_check-IsSized c m);
  prepare_min = tcp_prepare_min;
  header_first = λ c m. sized_first m (TcpCheck.msg_check_header m) (tcp_header-IsSized c m);
  header_second = λ c m. sized_second m (TcpCheck.msg_check_header m) (tcp_header-IsSized c m);
  drain_keeps = λ _. tcp_drain;
}
