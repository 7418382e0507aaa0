-- ===== src/Server/Response.antt =====
-- The client accepts what the virtual server answers.
use modbusmq.Tcp.Accept.{tcp_msg_check_accepts_iff}
use mathlib.Core.Path.{subst, sym}
use modbusmq.Tcp.Check.{msg_check}
use modbusmq.Base.{
  refl, ℕ, ◌+◌, ◌≤◌, ◌≡◌, inl, inr, arith, false, Bool-cases, All, ◌<◌, Bool, true, if◌then◌else◌,
  not, pos, sym,
}
use modbusmq.Frame.{Frame, IsBytes, word_at, Msg, IsExchange}
use modbusmq.Codec.Encode.{TextLibrary}
use modbusmq.Codec.Bounds.Text.{ReadsSix}
use modbusmq.Server.{
  Config, Request, echo_header, write_response, payload_response, read_response, payload_size,
  serve_payload, is_refused_read, is_bad_write, clear_payload, prepare_response, request_of,
  is_write_function,
}
use modbusmq.Server.Bounds.{IsSizedInput}
use modbusmq.Server.Framed.{response-IsFramed, filled-Confined, payload_size-le}

-- The first bytes of a response to this request, but for the length.
record IsHeaded (w buf : ℕ → ℕ) : Type 0 where
  head_ids : word_at buf 0 ≡ word_at w 0
  head_protocol : word_at buf 2 ≡ 0
  head_unit : buf 6 ≡ w 6
  head_function : buf 7 ≡ w 7

echo-IsHeaded : (req res : Frame) → IsBytes req.buf → IsHeaded req.buf (echo_header req res).buf
echo-IsHeaded req res b = record {
  head_ids = ground (arith, b 0, b 1);
  head_protocol = ground arith;
  head_unit = ground (arith, b 6);
  head_function = ground (arith, b 7);
}

-- A whole response to the request, that declares its length.
record IsReply (w : ℕ → ℕ) (r : Frame) : Type 0 where
  headed : IsHeaded w r.buf
  declares : word_at r.buf 4 + 6 ≡ r.length
  at_least : 9 ≤ r.length

write-IsReply :
    (w : ℕ → ℕ) (function : ℕ) (req res : Frame)
    → IsHeaded w res.buf
    → is_bad_write function req ≡ false
    → IsReply w (write_response function req res)
unfolding write_response
write-IsReply w function req res h good = rw good (record {
  headed = record {
    head_ids = ground (arith, h.head_ids);
    head_protocol = ground (arith, h.head_protocol);
    head_unit = ground (arith, h.head_unit);
    head_function = ground (arith, h.head_function);
  };
  declares = ground arith;
  at_least = omega arith;
})

payload-IsReply :
    (w : ℕ → ℕ) (n : ℕ) (serve : (ℕ → ℕ) → ℕ → ℕ) (res : Frame)
    → IsHeaded w res.buf
    → n ≤ 250
    → ((j : ℕ) → j < 8 → serve (clear_payload n res.buf) j ≡ res.buf j)
    → 1 ≤ n
    → IsReply w (payload_response n serve res)
unfolding payload_response
payload-IsReply w n serve res h small same some_bytes =
    let filled = serve (clear_payload n res.buf) in
    let at0 = same 0 (omega arith) in
    let at1 = same 1 (omega arith) in
    let at2 = same 2 (omega arith) in
    let at3 = same 3 (omega arith) in
    let at6 = same 6 (omega arith) in
    let at7 = same 7 (omega arith) in
    record {
      headed = record {
        head_ids = ground (arith, h.head_ids, at0, at1);
        head_protocol = ground (arith, h.head_protocol, at2, at3);
        head_unit = ground (arith, h.head_unit, at6);
        head_function = ground (arith, h.head_function, at7);
      };
      declares = ground (arith, small);
      at_least = omega (arith, some_bytes);
    }

some_payload : (r : Request) → is_refused_read r ≡ false → 1 ≤ payload_size r
some_payload r h = ground (arith, h)

-- Is the request one that the server serves?
abbrev pub is_served : Frame → Bool
is_served req =
    if is_write_function (req.buf 7)
    then not (is_bad_write (req.buf 7) req)
    else not (is_refused_read (request_of req))

-- The answer as the client has received it.
abbrev pub answered_by : TextLibrary → Config → Msg → Frame → Frame → Msg
answered_by lib config m req res =
    let answer = prepare_response lib config true req res in
    record m { second = record answer { is_writer = false; xmit = answer.length } }

module _ (lib : TextLibrary) (six : ReadsSix lib) (config : Config)
    (sized : All IsSizedInput config.inputs) where
  response-IsReply :
      (req res : Frame)
      → IsBytes req.buf
      → is_served req ≡ true
      → IsReply req.buf (prepare_response lib config true req res)
  unfolding prepare_response read_response
  response-IsReply req res b served =
      let r = request_of req in
      let base = echo_header req res in
      let h = echo-IsHeaded req res b in
      elim (Bool-cases (is_write_function (req.buf 7))) [
        | inl writes ↦
            rw writes
              (write-IsReply req.buf (req.buf 7) req base h (ground (arith, served, writes)))
        | inr reads ↦ rw reads (
            let fresh : is_refused_read r ≡ false = ground (arith, served, reads) in
            let filled = filled-Confined lib six config sized r base.buf in
            rw fresh (
              payload-IsReply req.buf (payload_size r) (serve_payload lib config r) base h
                (payload_size-le r fresh)
                (λ j below. filled.same_outside j (inl (omega (arith, below))))
                (some_payload r fresh)))
      ]

  -- A request of the Modbus protocol that the client has written, and that the server serves, is answered with a frame that the TCP check of the client accepts: it has the transaction, the unit and the function of the request and is as long as it declares. The request is one of a function that the server writes or reads with a number of addresses in its limits, and the frames are of bytes; of the configured inputs of registers, every channel in use has at least the length of its format, and sscanf gives six numbers where it says so.
  pub response_accepted :
      (m : Msg) (req res : Frame)
      → IsExchange m
      → m.first.xmit ≡ m.first.length
      → IsBytes m.first.buf
      → word_at m.first.buf 2 ≡ 0
      → IsBytes res.buf
      → req.buf ≡ m.first.buf
      → is_served req ≡ true
      → (msg_check (answered_by lib config m req res)).0 ≡ pos 0
  response_accepted m req res x written bytes modbus room same served =
      let answer = prepare_response lib config true req res in
      let b : IsBytes req.buf = λ i. subst (λ w. w i < 256) (sym same) (bytes i) in
      let reply : IsReply m.first.buf answer =
        subst (λ w. IsReply w answer) same (response-IsReply req res b served) in
      let framed = response-IsFramed lib six config sized req res in
      let x' : IsExchange (answered_by lib config m req res) = record {
        first_writes = x.first_writes;
        second_reads = refl;
      } in
      (tcp_msg_check_accepts_iff (answered_by lib config m req res) x'
          (framed.within_frame.bytes_kept room) bytes reply.at_least).1
        (
          written,
          record {
            same_transaction = reply.headed.head_ids;
            modbus_request = modbus;
            modbus_answer = reply.headed.head_protocol;
            same_unit = reply.headed.head_unit;
            same_function = reply.headed.head_function;
            declared = reply.declares;
            whole = refl;
          },
        )
