-- ===== src/Rtu/Request.antt =====
-- The fields of a serial frame, and the requests that are built in one. The arguments are the bit
-- patterns of the source's `int`s.
use modbusmq.Base.{ℕ, ◌+◌, ◌/◌, ◌%◌, true, not, ◌==◌, ltb, leb, if◌then◌else◌, ℤ, pos, negsuc, ◌||◌}
use modbusmq.Frame.{
  Frame, Msg, Context, put, word_at, has_exception_bit, cleared, is_read_function, writer, reader,
  set_writer, set_reader,
}
use modbusmq.Frame.Function
use modbusmq.Rtu.Crc.{crc16}

-- `modbusmq_rtu_context`, as far as the frames depend on it.
unfoldable pub rtu_context : Context
rtu_context = record {
  slave_id = 0xff;
  transaction_id = 0;
  header_length = 3;
  req_header_min = 8;
  res_header_min = 3;
}

unfoldable pub frame_slave : Frame → ℕ
frame_slave f = f.buf 0

unfoldable pub frame_function : Frame → ℕ
frame_function f = f.buf 1

unfoldable pub frame_addr : Frame → ℕ
frame_addr f = word_at f.buf 2

unfoldable pub frame_naddr : Frame → ℕ
frame_naddr f = word_at f.buf 4

unfoldable pub frame_nbytes : Frame → ℤ
frame_nbytes f =
    if f.is_writer then negsuc 0 else if is_read_function (f.buf 1) then pos (f.buf 2) else negsuc 0

unfoldable pub frame_exception : Frame → ℕ
frame_exception f =
    if f.is_writer || ltb f.xmit 3
    then 0
    else if not (has_exception_bit (f.buf 1))
    then 0
    else f.buf 2

unfoldable pub msg_exception : Msg → ℕ
unfolding frame_exception
msg_exception m =
    let code = frame_exception m.second in
    if leb code 0
    then 0
    else if not (m.second.buf 0 == m.first.buf 0)
    then 0
    else if not (m.second.buf 1 % 128 == m.first.buf 1)
    then 0
    else code

unfoldable pub frame_error_code : Frame → ℕ
frame_error_code f = f.buf 2

-- The index in `buf` at which the payload begins.
unfoldable pub frame_data : Frame → ℕ
frame_data f = if f.is_writer then 6 else 3

unfoldable pub frame_init : Context → ℕ → ℕ → ℕ → Frame
frame_init c function addr naddr = record cleared {
  is_writer = true;
  buf =
      let b0 = put cleared.buf 0 c.slave_id in
      let b1 = put b0 1 function in
      let b2 = put b1 2 (addr / 256) in
      let b3 = put b2 3 (addr % 256) in let b4 = put b3 4 (naddr / 256) in put b4 5 (naddr % 256);
  length = 6;
}

-- `modbusmq_rtu_msg_prepare`: the checksum goes behind the request, low byte first.
unfoldable pub msg_prepare : Context → Msg → Context × Msg
msg_prepare c m =
    let w = writer m in
    let crc = crc16 w.buf w.length in
    let buf = put (put w.buf w.length (crc % 256)) (w.length + 1) (crc / 256) in
    let sent = set_writer m (record w { buf = buf; length = w.length + 2 }) in
    (c, set_reader sent (record (reader sent) { length = 3 }))

unfoldable pub read_coil_bits : Context → ℕ → ℕ → Frame
read_coil_bits c = frame_init c Function.read_coils

unfoldable pub read_input_bits : Context → ℕ → ℕ → Frame
read_input_bits c = frame_init c Function.read_discrete_inputs

unfoldable pub read_holding_registers : Context → ℕ → ℕ → Frame
read_holding_registers c = frame_init c Function.read_holding_registers

unfoldable pub read_input_registers : Context → ℕ → ℕ → Frame
read_input_registers c = frame_init c Function.read_input_registers

unfoldable pub write_coil_bit : Context → ℕ → ℕ → Frame
write_coil_bit c addr value =
    frame_init c Function.write_single_coil addr (if value == 0 then 0 else 0xff00)

unfoldable pub write_register : Context → ℕ → ℕ → Frame
write_register c = frame_init c Function.write_single_register

unfoldable pub write_coil_bits : Context → ℕ → ℕ → Frame
write_coil_bits c = frame_init c Function.write_multiple_coils

unfoldable pub write_registers : Context → ℕ → ℕ → Frame
write_registers c = frame_init c Function.write_multiple_registers

unfoldable pub write_mask_registers : Context → ℕ → ℕ → Frame
write_mask_registers c = frame_init c Function.mask_write_register
