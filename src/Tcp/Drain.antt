-- ===== src/Tcp/Drain.antt =====
-- `modbusmq_tcp_frame_drain`: a frame is sized by its own length field.
use modbusmq.Base.{◌+◌, ◌||◌, ltb, leb, if◌then◌else◌, ℤ, pos, negsuc}
use modbusmq.Frame.{Frame, frame_max, word_at}

unfoldable pub frame_drain : Frame → ℤ × Frame
frame_drain f =
    let length = word_at f.buf 4 + 6 in
    if ltb f.xmit 6
    then (pos 0, f)
    else if leb length 6 || ltb frame_max length || ltb length f.xmit
    then (negsuc 0, f)
    else if ltb f.xmit length
    then (pos 0, record f { length = length })
    else (pos 1, f)
