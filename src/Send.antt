-- ===== src/Send.antt =====
-- `modbusmq_send` of lib/modbusmq.c: a request that is sent past the queue, and waited for. What the
-- clock, `poll`, the system call that writes and `modbusmq_read` do in a turn of the loop is an
-- argument, so the turns are a list; `none` is a wait that goes on behind them.
pub mod Answer
pub mod Ending
pub mod Queue
pub mod Result
use modbusmq.Base.{
  ℕ, ◌+◌, ◌-◌, ◌%◌, ◌^◌, Bool, true, false, ◌&&◌, not, List, [], ◌∷◌, Option, none, some, ◌==◌, ltb,
  if◌then◌else◌, ℤ, pos, negsuc,
}
use modbusmq.Frame.{Msg, Frame, writer, reader}
use modbusmq.Transport.{Transport}
use modbusmq.Queue.{next_req_id}
use modbusmq.Slave.{frame_delay_left, lesser}
use modbusmq.Exchange.{
  Link, Ready, is_zero, frame_incomplete, handle_write_read, err_transport, err_protocol,
}
use modbusmq.Loop.{
  Loop, Failure, transport, protocol, timeout, exception, report_error, reject_reason,
  give_up_stream, link_of,
}

-- What `poll` gives: an error, EINTR, nothing in time, or the events.
pub data Poll : Type 0 where
  poll_failed interrupted nothing_ready : Poll
  events_ready : Ready → Poll

-- One turn: the time at its start and at its step, and what the kernel does.
pub record Turn : Type 0 where
  pub now : ℕ
  pub step_now : ℕ
  pub poll : Ready → ℕ → Poll
  pub sent : ℤ
  pub read : Frame → ℤ × Frame

pub record Sending : Type 0 where
  pub result : ℤ
  pub msg : Msg
  pub loop : Loop

-- The events that a turn polls for, and for how long.
unfoldable pub poll_request : ℕ → Link → Msg → Ready × ℕ
poll_request now l m =
    let w = writer m in
    let delay_left =
      if w.xmit == 0 then frame_delay_left l.frame_delay_ms l.last_read_ms now else 0 in
    if not (frame_incomplete l.context w == 0)
    then (if ltb 0 delay_left
        then (record { pollin = false; pollout = false }, lesser 100 delay_left)
        else (record { pollin = false; pollout = true }, 100))
    else (
      record { pollin = not (frame_incomplete l.context (reader m) == 0); pollout = false },
      100,
    )

-- `modbusmq_report_error`, with the report that it makes.
abbrev pub tell : ℕ → Failure → Msg → Loop → Loop
tell now error m l =
    let (outcome, l') = report_error now error m l in
    record l' { reports = record { msg = m; outcome = outcome } ∷ l'.reports }

-- A whole frame is checked before it is a success.
unfoldable pub send_check : Transport → ℕ → Msg → Loop → Sending
send_check t now m l =
    let (rc, m') = t.msg_check l.rounds.outbox.context m in
    if is_zero rc then record { result = rc; msg = m'; loop = l } else record {
      result = err_protocol;
      msg = m';
      loop = tell now (reject_reason t m') m' (give_up_stream l);
    }

-- What a turn makes of the result of the step; the flag is its `break`.
unfoldable pub after_send_step : Transport → ℕ → ℤ → ℤ → Msg → Loop → Bool × Sending
after_send_step t now result (pos n) m l =
    if n == 0
    then (true, send_check t now m l)
    else (false, record { result = result; msg = m; loop = l })
after_send_step t now result (negsuc n) m l =
    if n == 1
    then (false, record { result = err_protocol; msg = m; loop = tell now (reject_reason t m) m l })
    else if n == 3
    then (true, record { result = err_protocol; msg = m; loop = tell now exception m l })
    else (true, record { result = err_transport; msg = m; loop = tell now transport m l })

unfoldable pub send_ready : Transport → Turn → Ready → Sending → Bool × Sending
send_ready t turn ready s =
    if not ready.pollin && not ready.pollout
    then (false, s)
    else (let (rc, stream, m) =
          handle_write_read t turn.step_now ready turn.sent turn.read (link_of s.loop) s.msg in
        after_send_step t turn.step_now s.result rc m (record s.loop { stream = stream }))

-- By what `poll` gave.
unfoldable pub send_polled : Transport → Turn → Poll → Sending → Bool × Sending
send_polled t turn poll_failed s = (true, record s { result = err_transport })
send_polled t turn interrupted s = (false, s)
send_polled t turn nothing_ready s = (false, s)
send_polled t turn (events_ready ready) s = send_ready t turn ready s

unfoldable pub send_turn : Transport → Turn → Sending → Bool × Sending
send_turn t turn s =
    let (events, millisleep) = poll_request turn.now (link_of s.loop) s.msg in
    send_polled t turn (turn.poll events millisleep) s

-- `(time_now - start_time_ms) < wait_ms`
unfoldable pub still_waiting : ℕ → ℕ → ℕ → Bool
still_waiting start wait now = ltb ((now + 2 ^ 64 - start) % 2 ^ 64) wait

unfoldable pub send_loop : Transport → ℕ → ℕ → List Turn → Sending → Option Sending
send_loop t start wait [] s = none
send_loop t start wait (turn ∷ turns) s =
    let (stop, s') = send_turn t turn s in
    let rest = send_loop t start wait turns s' in
    if stop then some s' else if still_waiting start wait turn.now then rest else some s'

-- What follows the loop, at time `now`, by its result.
unfoldable pub send_end_by : ℕ → ℤ → Sending → Sending
send_end_by now (pos n) s = if n == 0 then s else record s { loop = tell now timeout s.msg s.loop }
send_end_by now (negsuc n) s = s

unfoldable pub send_end : ℕ → Sending → Sending
send_end now s = send_end_by now s.result s

-- The request with its id, prepared.
unfoldable pub send_begin : Transport → Msg → Loop → Sending
send_begin t msg l =
    let id = next_req_id l.rounds.outbox.req_id_next in
    let (context, m) = t.msg_prepare l.rounds.outbox.context (record msg { req_id = id }) in
    record {
      result = pos 1;
      msg = m;
      loop = record l {
        rounds = record l.rounds {
          outbox = record l.rounds.outbox { context = context; req_id_next = id };
        };
      };
    }

abbrev pub map_end : ℕ → Option Sending → Option Sending
map_end now none = none
map_end now (some s) = some (send_end now s)

-- `modbusmq_send`, that begins at `start` and ends at `finish`; a negative `mswait` is 0.
unfoldable pub send : Transport → ℕ → ℤ → List Turn → ℕ → Msg → Loop → Option Sending
send t start mswait turns finish msg l =
    let wait : ℕ = elim mswait [ pos n ↦ n | negsuc n ↦ 0 ] in
    map_end finish (send_loop t start wait turns (send_begin t msg l))
