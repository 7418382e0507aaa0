-- ===== src/Rtu/Stale.antt =====
-- What `modbusmq_rtu_frame_drain` steps over.
use modbusmq.Base.{◌-◌, ◌<◌, ◌≤◌, ◌≡◌, ◌⊎◌, ◌↔◌, arith, pos, some}
use modbusmq.Frame.{Frame, Context, frame_max}
use modbusmq.Rtu.Crc.{crc16}
use modbusmq.Rtu.Check.{crc_at}
use modbusmq.Rtu.Accept.{IsAnswer}
use modbusmq.Rtu.Drain.{drain_length, drain_sized, frame_drain}

-- `f` is one whole frame by its own bytes, and its checksum holds.
pub record IsWholeFrame (c : Context) (f : Frame) : Type 0 where
  pub sized : drain_length c f ≡ some f.xmit
  pub at_least : 4 ≤ f.xmit
  pub at_most : f.xmit ≤ frame_max
  pub checksum : crc_at f.buf (f.xmit - 2) ≡ crc16 f.buf (f.xmit - 2)

module _ (c : Context) (f : Frame) where
  drained_sound : (frame_drain c f).0 ≡ pos 1 → IsWholeFrame c f
  unfolding frame_drain drain_sized
  drained_sound e = ground arith

  drained_complete : IsWholeFrame c f → frame_drain c f ≡ (pos 1, f)
  unfolding frame_drain drain_sized
  drained_complete w = ground arith

  -- The drain steps over the bytes read exactly when they are one whole frame by their own
  -- function code and byte count, with the checksum of that frame.
  pub frame_drain_steps_iff : ((frame_drain c f).0 ≡ pos 1) ↔ IsWholeFrame c f
  frame_drain_steps_iff = (drained_sound, λ w. ground (arith, drained_complete w))

  -- Whatever the bytes, the drain leaves the bytes and their count alone, and a window that it
  -- sets lies within the buffer and is not yet full.
  pub frame_drain_window :
      ((frame_drain c f).1.buf ≡ f.buf)
      × ((frame_drain c f).1.xmit ≡ f.xmit)
      × (((frame_drain c f).1.length ≡ f.length)
          ⊎ (f.xmit < (frame_drain c f).1.length) × ((frame_drain c f).1.length ≤ frame_max))
  unfolding frame_drain drain_sized
  frame_drain_window = ground arith

-- An undamaged answer to any request, whatever request is waiting now, is stepped over and left as
-- it is.
pub late_answer_drained :
    (c : Context) (w r : Frame) → IsAnswer c w r → frame_drain c r ≡ (pos 1, r)
late_answer_drained c w r a = drained_complete c r (record {
  sized = unfold drain_length in ground (arith, a);
  at_least = a.at_least;
  at_most = a.at_most;
  checksum = a.checksum;
})
