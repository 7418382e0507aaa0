-- ===== src/Tcp/Accept.antt =====
-- Which answers `modbusmq_tcp_msg_check` accepts.
use modbusmq.Base.{◌+◌, ◌≤◌, ◌≡◌, ◌↔◌, arith, pos}
use modbusmq.Frame.{Frame, Msg, IsExchange, IsBytes, word_at}
use modbusmq.Tcp.Check.{msg_check, msg_check_header, check_length, check_unit}

-- A complete answer to the request `w`.
pub record IsAnswer (w r : Frame) : Type 0 where
  pub same_transaction : word_at r.buf 0 ≡ word_at w.buf 0
  pub modbus_request : word_at w.buf 2 ≡ 0
  pub modbus_answer : word_at r.buf 2 ≡ 0
  pub same_unit : r.buf 6 ≡ w.buf 6
  pub same_function : r.buf 7 ≡ w.buf 7
  pub declared : word_at r.buf 4 + 6 ≡ r.xmit
  pub whole : r.length ≡ r.xmit

module _ (m : Msg) (x : IsExchange m) (r_bytes : IsBytes m.second.buf)
    (w_bytes : IsBytes m.first.buf) (header : 9 ≤ m.second.xmit) where
  accepted_sound :
      (msg_check m).0 ≡ pos 0 → (m.first.xmit ≡ m.first.length) × IsAnswer m.first m.second
  unfolding msg_check msg_check_header check_length check_unit
  accepted_sound e = ground arith

  accepted_complete :
      m.first.xmit ≡ m.first.length → IsAnswer m.first m.second → (msg_check m).0 ≡ pos 0
  unfolding msg_check msg_check_header check_length check_unit
  accepted_complete sent a =
      ground (arith, r_bytes 0, r_bytes 1, w_bytes 0, w_bytes 1, r_bytes 2, r_bytes 3)

  -- For a request in the first frame and a second frame that reads, both of bytes, where at least
  -- the header and one byte more have come, `modbusmq_tcp_msg_check` returns 0 exactly when the
  -- request is written out and the frame received has the request's transaction id, unit and
  -- function, the protocol id 0 as the request has, and is as long as it declares and as the reader
  -- was sized.
  pub tcp_msg_check_accepts_iff :
      ((msg_check m).0 ≡ pos 0) ↔ ((m.first.xmit ≡ m.first.length) × IsAnswer m.first m.second)
  tcp_msg_check_accepts_iff = (accepted_sound, λ h. accepted_complete h.0 h.1)
