-- ===== src/Tcp/Request.antt =====
-- The fields of a TCP frame, and the requests that are built in one. The arguments are the bit
-- patterns of the source's `int`s. The accessors of a request's address and count are for a
-- request only, which the source asserts.
use modbusmq.Base.{
  ℕ, ◌+◌, ◌-◌, ◌/◌, ◌%◌, Bool, true, false, ◌||◌, not, ◌==◌, ltb, leb, if◌then◌else◌, ℤ, pos,
  negsuc, Option, none, some,
}
use modbusmq.Frame.{
  Frame, Msg, Context, put, word_at, has_exception_bit, cleared, writer, reader, set_writer,
  set_reader, is_read_function,
}
use modbusmq.Frame.Function

-- `modbusmq_tcp_context`, as far as the frames depend on it.
unfoldable pub tcp_context : Context
tcp_context = record {
  slave_id = 0xff;
  transaction_id = 0;
  header_length = 8;
  req_header_min = 6;
  res_header_min = 6;
}

unfoldable pub frame_transaction_id : Frame → ℕ
frame_transaction_id f = word_at f.buf 0

unfoldable pub frame_slave : Frame → ℕ
frame_slave f = f.buf 6

-- The index in `buf` at which the payload begins.
unfoldable pub frame_data : Frame → ℕ
frame_data f = if f.is_writer then 12 else 9

unfoldable pub frame_function : Frame → ℕ
frame_function f = f.buf 7

-- `none` is the failing `assert`.
unfoldable pub frame_addr : Frame → Option ℕ
frame_addr f = if f.is_writer then some (word_at f.buf 8) else none

unfoldable pub frame_naddr : Frame → Option ℕ
frame_naddr f = if f.is_writer then some (word_at f.buf 10) else none

unfoldable pub frame_nbytes : Frame → ℤ
frame_nbytes f =
    if f.is_writer then negsuc 0 else if is_read_function (f.buf 7) then pos (f.buf 8) else negsuc 0

unfoldable pub frame_exception : Frame → ℕ
frame_exception f =
    if f.is_writer || ltb f.xmit 9
    then 0
    else if not (has_exception_bit (f.buf 7))
    then 0
    else f.buf 8

unfoldable pub msg_exception : Msg → ℕ
unfolding frame_exception
msg_exception m =
    let code = frame_exception m.second in
    if leb code 0
    then 0
    else if not (m.second.buf 0 == m.first.buf 0) || not (m.second.buf 1 == m.first.buf 1)
    then 0
    else if not (m.second.buf 6 == m.first.buf 6)
    then 0
    else if not (m.second.buf 7 % 128 == m.first.buf 7)
    then 0
    else code

unfoldable pub frame_error_code : Frame → Option ℕ
frame_error_code f = if f.is_writer then none else some (f.buf 8)

-- There is no broadcast over TCP.
unfoldable pub msg_broadcast : Msg → Bool
msg_broadcast m = false

unfoldable pub frame_init : Context → ℕ → ℕ → ℕ → Frame
frame_init c function addr nb = record cleared {
  is_writer = true;
  is_tcp = true;
  buf =
      let b6 = put cleared.buf 6 c.slave_id in
      let b7 = put b6 7 function in
      let b8 = put b7 8 (addr / 256) in
      let b9 = put b8 9 (addr % 256) in let b10 = put b9 10 (nb / 256) in put b10 11 (nb % 256);
  length = 12;
}

-- `modbusmq_tcp_msg_prepare`: number the request, write its length, and preset the answer's header.
-- The length less the header is cut to 16 bits; a request is never shorter than the header.
unfoldable pub msg_prepare : Context → Msg → Context × Msg
msg_prepare c m =
    let id = (c.transaction_id + 1) % 0xffff in
    let w = writer m in
    let body = (w.length + 65536 - 6) % 65536 in
    let w0 = put w.buf 0 (id / 256) in
    let w1 = put w0 1 (id % 256) in
    let w4 = put w1 4 (body / 256) in
    let w' = record w { buf = put w4 5 (body % 256) } in
    let sent = set_writer m w' in
    let r = reader sent in
    let r0 = put r.buf 0 (w'.buf 0) in
    let r1 = put r0 1 (w'.buf 1) in
    let r2 = put r1 2 0 in
    let r3 = put r2 3 0 in
    let r6 = put r3 6 (w'.buf 6) in
    let r7 = put r6 7 (w'.buf 7) in
    (record c { transaction_id = id }, set_reader sent (record r { buf = r7 }))

unfoldable pub read_coil_bits : Context → ℕ → ℕ → Frame
read_coil_bits c = frame_init c Function.read_coils

unfoldable pub read_input_bits : Context → ℕ → ℕ → Frame
read_input_bits c = frame_init c Function.read_discrete_inputs

unfoldable pub read_holding_registers : Context → ℕ → ℕ → Frame
read_holding_registers c = frame_init c Function.read_holding_registers

unfoldable pub read_input_registers : Context → ℕ → ℕ → Frame
read_input_registers c = frame_init c Function.read_input_registers

unfoldable pub write_coil_bit : Context → ℕ → ℕ → Frame
write_coil_bit c addr value =
    frame_init c Function.write_single_coil addr (if value == 0 then 0 else 0xff00)

unfoldable pub write_register : Context → ℕ → ℕ → Frame
write_register c = frame_init c Function.write_single_register

unfoldable pub write_coil_bits : Context → ℕ → ℕ → Frame
write_coil_bits c = frame_init c Function.write_multiple_coils

unfoldable pub write_registers : Context → ℕ → ℕ → Frame
write_registers c = frame_init c Function.write_multiple_registers

unfoldable pub write_mask_registers : Context → ℕ → ℕ → Frame
write_mask_registers c = frame_init c Function.mask_write_register
