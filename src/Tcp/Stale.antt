-- ===== src/Tcp/Stale.antt =====
-- Answers to requests that were given up.
use modbusmq.Base.{◌+◌, ◌<◌, ◌≤◌, ◌≡◌, ◌≢◌, ◌↔◌, ◌⊎◌, arith, pos, negsuc}
use modbusmq.Frame.{Frame, Msg, IsExchange, frame_max, word_at}
use modbusmq.Tcp.Check.{msg_check, msg_check_header}
use modbusmq.Tcp.Drain.{frame_drain}

-- The drain steps over the bytes read exactly when they are one frame, whole by its length field
-- and within the buffer.
pub tcp_drain_steps_iff :
    (f : Frame)
    → ((frame_drain f).0 ≡ pos 1)
      ↔ ((6 < f.xmit) × (word_at f.buf 4 + 6 ≡ f.xmit) × (f.xmit ≤ frame_max))
unfolding frame_drain
tcp_drain_steps_iff f = ground arith

-- Whatever the bytes, the drain leaves the bytes and their count alone, and a window that it sets
-- lies within the buffer and is not yet full.
pub tcp_drain_window :
    (f : Frame)
    → ((frame_drain f).1.buf ≡ f.buf)
      × ((frame_drain f).1.xmit ≡ f.xmit)
      × (((frame_drain f).1.length ≡ f.length)
          ⊎ (f.xmit < (frame_drain f).1.length) × ((frame_drain f).1.length ≤ frame_max))
unfolding frame_drain
tcp_drain_window f = ground arith

-- As soon as two bytes have come, an answer with another transaction id than the request's is
-- refused, by both checks, and the message is left as it is.
pub other_transaction_refused :
    (m : Msg)
    → IsExchange m
    → 2 ≤ m.second.xmit
    → word_at m.second.buf 0 ≢ word_at m.first.buf 0
    → (msg_check_header m ≡ (negsuc 1, m)) × (msg_check m ≡ (negsuc 1, m))
unfolding msg_check_header msg_check
other_transaction_refused m x long other = ground arith
