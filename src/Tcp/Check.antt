-- ===== src/Tcp/Check.antt =====
-- The checks of an answer against its request.
use modbusmq.Base.{◌+◌, ◌&&◌, not, ◌==◌, ltb, leb, if◌then◌else◌, ℤ, pos, negsuc, is_negative}
use modbusmq.Frame.{Msg, frame_max, has_exception_bit, word_at, writer, reader, set_reader}

-- The end of `modbusmq_tcp_msg_check_header`: the unit and the function.
unfoldable pub check_unit : Msg → ℤ × Msg
check_unit m =
    let w = writer m in
    let r = reader m in
    if leb 7 r.xmit && not (w.buf 6 == r.buf 6)
    then (negsuc 4, m)
    else if leb 8 r.xmit && not (w.buf 7 == r.buf 7)
    then (if has_exception_bit (r.buf 7) && ltb r.xmit 9 then (pos 0, m) else (negsuc 5, m))
    else (pos 0, m)

-- The part of it that sizes the read window by the declared length.
unfoldable pub check_length : Msg → ℤ × Msg
check_length m =
    let r = reader m in
    let msg_length = word_at r.buf 4 + 6 in
    if leb 6 r.xmit && not (msg_length == r.xmit)
    then (if ltb 6 msg_length && leb msg_length frame_max
        then check_unit (set_reader m (record r { length = msg_length }))
        else (negsuc 3, m))
    else check_unit m

-- `modbusmq_tcp_msg_check_header`.
unfoldable pub msg_check_header : Msg → ℤ × Msg
msg_check_header m =
    let w = writer m in
    let r = reader m in
    if leb 2 r.xmit && not (w.buf 0 == r.buf 0 && w.buf 1 == r.buf 1)
    then (negsuc 1, m)
    else if leb 4 r.xmit && not (r.buf 2 == 0 && r.buf 3 == 0 && w.buf 2 == 0 && w.buf 3 == 0)
    then (negsuc 2, m)
    else check_length m

-- `modbusmq_tcp_msg_check`.
unfoldable pub msg_check : Msg → ℤ × Msg
msg_check m =
    let (rc, m') = msg_check_header m in
    if is_negative rc
    then (rc, m')
    else if not ((writer m').xmit == (writer m').length)
    then (pos 1, m')
    else if not ((reader m').xmit == (reader m').length)
    then (pos 2, m')
    else (pos 0, m')
