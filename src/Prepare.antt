-- ===== src/Prepare.antt =====
-- `modbusmq_loop_prepare` and `modbusmq_loop_prepare_subscription` of lib/modbusmq.c. The clock is
-- read once for the pass, and does not run back.
pub mod Account
pub mod Expiry
pub mod Posts
pub mod Slot
pub mod Stamps
use modbusmq.Base.{
  ℕ, zero, suc, ◌+◌, ◌-◌, ◌%◌, ◌^◌, Bool, true, false, ◌&&◌, not, List, [], ◌∷◌, length, get_elem?,
  none, some, ◌==◌, ltb, leb, if◌then◌else◌,
}
use modbusmq.Frame.{Msg, writer, reader}
use modbusmq.Transport.{Transport}
use modbusmq.Queue.{subscribe, Wrapper, post_internal}
use modbusmq.Timer.{Timer}
use modbusmq.Slave.{slave_gate, frame_delay_left, lesser}
use modbusmq.Round.{Rounds, set_msg, loop_prepare_rounds}
use modbusmq.Exchange.{Ready, counted, frame_incomplete}
use modbusmq.Loop.{Loop, queue, set_queue, link_of, timeout, fail, give_up_stream, count_error}

-- Is the request of the message on the wire?
unfoldable pub request_sent : Msg → Bool
request_sent m = let w = writer m in ltb 0 w.length && w.xmit == w.length

-- The time from which a head waits to be sent.
unfoldable pub head_since : ℕ → Wrapper → ℕ
head_since now w = if w.head_since_ms == 0 then now else w.head_since_ms

-- What both timeouts do to the stream and to the counters; the time of the last write is forgotten.
unfoldable pub forget_write : Loop → Loop
forget_write l =
    give_up_stream
      (record (count_error l) { stream = record (count_error l).stream { last_write_ms = 0 } })

-- The first part of `modbusmq_loop_prepare`, by the queue: a head that has waited too long is given
-- up.
unfoldable pub expire_head : ℕ → List Wrapper → Loop → Loop
unfolding head_since
expire_head now [] l = l
expire_head now (w ∷ q) l =
    let l' = set_queue (record w { head_since_ms = head_since now w } ∷ q) l in
    if request_sent w.msg
    then (if leb l.frame_timeout_ms (now - l.stream.last_write_ms)
        then (let f = forget_write (fail now timeout w.msg l') in
            record f { tx = counted f.tx; stream = record f.stream { last_read_ms = now } })
        else l')
    else if leb l.frame_timeout_ms (now - head_since now w)
    then forget_write (fail now timeout w.msg l')
    else l'

unfoldable pub expire : ℕ → Loop → Loop
expire now l = expire_head now (queue l) l

-- Is a poll of this timer on the queue?
unfoldable pub is_queued : ℕ → List Wrapper → Bool
is_queued timer_id [] = false
is_queued timer_id (w ∷ q) = if w.msg.msg_id == timer_id then true else is_queued timer_id q

-- `elem->timer_next_time += elem->timer_interval`, for timer `i`.
unfoldable pub advance : List Timer → ℕ → List Timer
advance [] i = []
advance (t ∷ ts) zero = record t { timer_next_time = t.timer_next_time + t.timer_interval } ∷ ts
advance (t ∷ ts) (suc i) = t ∷ advance ts i

-- A due timer with no poll on the queue: posted if the gate lets it.
unfoldable pub post_due : Transport → ℕ → ℕ → Timer → Rounds → Rounds
post_due t now i timer r =
    let (pass, timers) = slave_gate timer now r.timers in
    let (outbox, msg) =
      post_internal t r.outbox (record timer.msg { msg_id = timer.timer_id }) subscribe in
    if pass
    then record r { outbox = outbox; timers = advance (set_msg timers i msg) i }
    else record r { timers = advance timers i }

-- The time until `next`, in the 64 bits of a `millitime_t`.
unfoldable pub time_left : ℕ → ℕ → ℕ
time_left next now = (next + 2 ^ 64 - now) % 2 ^ 64

-- The body of the walk, for timer `i`, with the sleep so far.
unfoldable pub walk_one : Transport → ℕ → ℕ → Timer → ℕ × Rounds → ℕ × Rounds
walk_one t now i timer (sleep, r) =
    if leb timer.timer_next_time now && not (is_queued timer.timer_id r.outbox.queue)
    then (
      lesser sleep (time_left (timer.timer_next_time + timer.timer_interval) now),
      post_due t now i timer r,
    )
    else (lesser sleep (time_left timer.timer_next_time now), r)

unfoldable pub walk : Transport → ℕ → ℕ → ℕ → ℕ × Rounds → ℕ × Rounds
walk t now zero i s = s
walk t now (suc left) i s = elim (get_elem? s.1.timers i) [
  | none ↦ s
  | some timer ↦ walk t now left (i + 1) (walk_one t now i timer s)
]

-- `modbusmq_loop_prepare_subscription`, with the sleep in and out; `rounds` is whether the query mode
-- is rounds.
unfoldable pub prepare_subscription : Transport → Bool → ℕ → ℕ → Rounds → ℕ × Rounds
prepare_subscription t rounds now sleep_time r =
    if rounds
    then loop_prepare_rounds t now sleep_time r
    else walk t now (length r.timers) 0 ((if ltb 0 sleep_time then sleep_time else 1000), r)

-- `writer->is_writer = 1; reader->is_writer = 0;`, where the first frame is the writer if it says so.
unfoldable pub mark_frames : Msg → Msg
mark_frames m =
    if m.first.is_writer
    then record m { second = record m.second { is_writer = false } }
    else record m {
      first = record m.first { is_writer = false };
      second = record m.second { is_writer = true };
    }

-- The end of `modbusmq_loop_prepare`: the events to poll for, and the sleep.
unfoldable pub prepare_events : ℕ → ℕ → Loop → Ready × ℕ
prepare_events now sleep l = elim (queue l) [
  | [] ↦ (record { pollin = false; pollout = false }, sleep)
  | w ∷ q ↦
      let link = link_of l in
      let m = mark_frames w.msg in
      let left = frame_delay_left link.frame_delay_ms link.last_read_ms now in
      if not (frame_incomplete link.context (writer m) == 0)
      then (if (writer m).xmit == 0 && ltb 0 left
          then (record { pollin = false; pollout = false }, lesser left sleep)
          else (record { pollin = false; pollout = true }, sleep))
      else (
        record { pollin = not (frame_incomplete link.context (reader m) == 0); pollout = false },
        sleep,
      )
]

-- What the end of `modbusmq_loop_prepare` changes.
unfoldable pub mark_first : List Wrapper → List Wrapper
unfolding mark_frames
mark_first [] = []
mark_first (w ∷ q) = record w { msg = mark_frames w.msg } ∷ q

unfoldable pub mark_head : Loop → Loop
mark_head l = set_queue (mark_first (queue l)) l

-- `modbusmq_loop_prepare` with an open descriptor: the events, the sleep and the context.
unfoldable pub loop_prepare : Transport → Bool → ℕ → ℕ → Loop → Ready × ℕ × Loop
loop_prepare t rounds now sleep_time l =
    let expired = expire now l in
    let (sleep, r) = prepare_subscription t rounds now sleep_time expired.rounds in
    let l' = record expired { rounds = r } in
    let (ready, sleep') = prepare_events now sleep l' in (ready, sleep', mark_head l')
