-- ===== src/Rtu/Drain.antt =====
-- `modbusmq_rtu_frame_drain`: a frame is sized by its own bytes and held to its checksum.
use modbusmq.Base.{ℕ, ◌+◌, ◌-◌, ◌||◌, ◌==◌, ltb, if◌then◌else◌, ℤ, pos, negsuc, Option, none, some}
use modbusmq.Frame.{is_read_function, Frame, Context, frame_max, has_exception_bit}
use modbusmq.Frame.Function
use modbusmq.Rtu.Crc.{crc16}
use modbusmq.Rtu.Check.{crc_at}

-- The length that the frame has by its own bytes, or `none` while the byte count is to come.
unfoldable pub drain_length : Context → Frame → Option ℕ
drain_length c f =
    let fn = f.buf 1 in
    if has_exception_bit fn
    then some 5
    else if is_read_function fn
    then (if ltb f.xmit 3 then none else some (c.header_length + f.buf 2 + 2))
    else some (if fn == Function.mask_write_register then 10 else 8)

unfoldable pub drain_sized : Frame → ℕ → ℤ × Frame
drain_sized f length =
    if ltb length 4 || ltb frame_max length || ltb length f.xmit
    then (negsuc 0, f)
    else if ltb f.xmit length
    then (pos 0, record f { length = length })
    else if crc_at f.buf (length - 2) == crc16 f.buf (length - 2)
    then (pos 1, f)
    else (negsuc 0, f)

unfoldable pub frame_drain : Context → Frame → ℤ × Frame
unfolding drain_length drain_sized
frame_drain c f =
    if ltb f.xmit 2
    then (pos 0, f)
    else elim (drain_length c f) [ none ↦ (pos 0, f) | some length ↦ drain_sized f length ]
