-- ===== src/Rtu/Check.antt =====
-- The checks of an answer against its request.
use modbusmq.Base.{
  ℕ, ◌+◌, ◌*◌, ◌-◌, ◌/◌, Bool, false, ◌&&◌, ◌||◌, not, ◌==◌, ltb, leb, if◌then◌else◌, ℤ, pos,
  negsuc, sub_ℕ, is_negative,
}
use modbusmq.Frame.{
  Frame, Msg, Context, frame_max, has_exception_bit, with_exception_bit, writer, reader, set_reader,
}
use modbusmq.Frame.Function
use modbusmq.Rtu.Crc.{crc16}
use modbusmq.Rtu.Request.{frame_naddr, frame_function}

-- The byte count that the answer to a request must declare, or -1 where it has none.
unfoldable pub expected_nbytes : Frame → ℤ
unfolding frame_naddr frame_function
expected_nbytes w =
    let naddr = frame_naddr w in
    let fn = frame_function w in
    if fn == Function.read_coils || fn == Function.read_discrete_inputs
    then pos ((naddr + 7) / 8)
    else if fn == Function.read_holding_registers || fn == Function.read_input_registers
    then pos (naddr * 2)
    else negsuc 0

-- The end of `modbusmq_rtu_msg_check_header`: bound the length and size the read window.
unfoldable pub size_reader : ℕ → Msg → ℤ × Msg
size_reader newlen m =
    let r = reader m in
    if ltb frame_max newlen
    then (negsuc 4, m)
    else (sub_ℕ newlen r.xmit, set_reader m (record r { length = newlen }))

-- The part of it that establishes how long the answer is.
unfoldable pub check_length : Context → Msg → ℤ × Msg
unfolding expected_nbytes frame_function
check_length c m =
    let w = writer m in
    let r = reader m in
    elim (expected_nbytes w) [
      | negsuc _ ↦
          size_reader (if frame_function w == Function.mask_write_register then 10 else 8) m
      | pos expected ↦
          if not (r.buf 2 == expected)
          then (negsuc 3, m)
          else size_reader (expected + c.header_length + 2) m
    ]

-- `modbusmq_rtu_msg_check_header`.
unfoldable pub msg_check_header : Context → Msg → ℤ × Msg
msg_check_header c m =
    let w = writer m in
    let r = reader m in
    if ltb r.xmit 3
    then (pos 1, m)
    else if not (leb 1 r.xmit && w.buf 0 == r.buf 0)
    then (negsuc 1, m)
    else if leb 2 r.xmit && w.buf 1 == r.buf 1
    then check_length c m
    else if leb 2 r.xmit && r.buf 1 == with_exception_bit (w.buf 1)
    then (sub_ℕ 5 r.xmit, set_reader m (record r { length = 5 }))
    else (negsuc 2, m)

-- `modbusmq_rtu_msg_broadcast`: a write to slave 0.
unfoldable pub msg_broadcast : Msg → Bool
msg_broadcast m =
    let w = writer m in
    let fn = w.buf 1 in
    if ltb w.length 2 || not (w.buf 0 == 0)
    then false
    else (fn == Function.write_single_coil
        || fn == Function.write_single_register
        || fn == Function.write_multiple_coils
        || fn == Function.write_multiple_registers
        || fn == Function.mask_write_register)

-- The two bytes behind the `n` that they sum, low byte first.
abbrev pub crc_at : (ℕ → ℕ) → ℕ → ℕ
crc_at buf n = buf (n + 1) * 256 + buf n

-- `modbusmq_rtu_msg_check`, behind the header.
unfoldable pub check_complete : Msg → ℤ
check_complete m =
    let w = writer m in
    let r = reader m in
    if not (w.xmit == w.length)
    then pos 1
    else if msg_broadcast m
    then pos 0
    else if not (r.xmit == r.length)
    then pos 2
    else if ltb r.length 4
    then negsuc 2
    else if has_exception_bit (r.buf 1)
    then negsuc 3
    else if crc_at r.buf (r.length - 2) == crc16 r.buf (r.length - 2)
    then pos 0
    else negsuc 1

-- `modbusmq_rtu_msg_check`.
unfoldable pub msg_check : Context → Msg → ℤ × Msg
msg_check c m =
    let (rc, m') = msg_check_header c m in
    if is_negative rc then (rc, m') else (check_complete m', m')
