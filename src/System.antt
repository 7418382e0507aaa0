-- ===== src/System.antt =====
-- The library as a whole: what an application does to a context, one call after another. What a call
-- is given from outside (the time, the events, the bytes) is arbitrary. What a callback calls is a
-- step behind the call that it came from. So it is assumed that no callback calls
-- `modbusmq_reset_queue`, which frees the head that the caller is about to free, or posts while that
-- function calls it back, since the queue then holds wrappers that are freed, and what is posted is
-- forgotten. The last call, `modbusmq_free`, has no step.
pub mod Once
pub mod Slot
pub mod Timeout
use modbusmq.Base.{ℕ, Bool, true, ℤ, pos, negsuc, Option, some, ◌≡◌}
use modbusmq.Send.{Turn, Sending, send}
use modbusmq.Frame.{Frame, Msg}
use modbusmq.Transport.{Transport}
use modbusmq.Queue.{post_msg}
use modbusmq.Raw.{raw_request}
use modbusmq.Base.{List}
use modbusmq.Timer.{Tier}
use modbusmq.Slave.{once_rearm}
use modbusmq.Exchange.{Ready}
use modbusmq.Exchange.Shape.{KeepsMark}
use modbusmq.Round.{set_focus}
use modbusmq.Loop.{Loop, Input, loop_write_read, reset_queue, set_timers}
use modbusmq.Prepare.{loop_prepare}
use modbusmq.Subscribe.{QueryMode, subscribe_timer}

-- `modbusmq_post`
abbrev pub post_request : Transport → Msg → Loop → Loop
post_request t m l = record l {
  rounds = record l.rounds { outbox = (post_msg t l.rounds.outbox m).0 };
}

-- `modbusmq_connect`, where the transport has connected: the stream is drained before it is used.
unfoldable pub connected : Loop → Loop
connected l = record l { stream = record l.stream { resync_pending = true } }

-- `modbusmq_frame_timeout`
unfoldable pub frame_timeout : ℤ → Loop → ℤ × Loop
frame_timeout (pos ms) l = (pos 0, record l { frame_timeout_ms = ms })
frame_timeout (negsuc ms) l = (negsuc 0, l)

-- `modbusmq_set_slave`
unfoldable pub set_slave : ℕ → Loop → Loop
set_slave slave_id l = record l {
  rounds = record l.rounds {
    outbox = record l.rounds.outbox {
      context = record l.rounds.outbox.context { slave_id = slave_id };
    };
  };
}

-- `modbusmq_set_config`, with what the loop reads of the configuration.
unfoldable pub set_config :
    List Input → (slave_retry_max_ms frame_delay_ms round_interval_ms : ℕ) → Loop → Loop
set_config inputs slave_retry_max_ms frame_delay_ms round_interval_ms l = record l {
  inputs = inputs;
  slave_retry_max_ms = slave_retry_max_ms;
  stream = record l.stream { frame_delay_ms = frame_delay_ms };
  rounds = record l.rounds { round_interval_ms = round_interval_ms };
}

-- The functions that set the three callbacks.
unfoldable pub set_callbacks : (message subscription error : Bool) → Loop → Loop
set_callbacks message subscription error l = record l {
  has_message_cb = message;
  has_subscribe_cb = subscription;
  has_error_cb = error;
}

-- The calls; `modbusmq_send` only where the application `sends`, and `modbusmq_frame_timeout` only
-- where it `sets` it. `modbusmq_close` closes the descriptor and leaves the rest alone.
pub data Step (t : Transport) (sends sets : Bool) : Loop → Loop → Type 0 where
  prepare :
      (rounds : Bool) (now sleep_time : ℕ) (l : Loop)
      → Step t sends sets l (loop_prepare t rounds now sleep_time l).2
  write_read :
      (now : ℕ) (ready : Ready) (hung_up : Bool) (sent : ℤ) (read : Frame → ℤ × Frame)
      (marks : KeepsMark read) (l : Loop)
      → Step t sends sets l (loop_write_read t now ready hung_up sent read l).1
  request : (m : Msg) (l : Loop) → Step t sends sets l (post_request t m l)
  subscribe :
      (mode : QueryMode) (id now : ℕ) (interval : Option ℕ) (slave : ℕ) (tier : Tier) (m : Msg)
      (l : Loop)
      → Step t sends sets l
          (set_timers (subscribe_timer mode id now interval slave tier m l.rounds.timers) l)
  focus :
      (rounds : Bool) (slave : Option ℕ) (l : Loop)
      → Step t sends sets l (record l { rounds = (set_focus rounds slave l.rounds).1 })
  rearm : (now : ℕ) (l : Loop) → Step t sends sets l (set_timers (once_rearm now l.rounds.timers) l)
  connect : (l : Loop) → Step t sends sets l (connected l)
  raw_text :
      (strtol : List ℕ → ℤ × ℕ) (behind : ℕ → ℕ) (writes : Bool) (text : List ℕ) (l : Loop)
      → Step t sends sets l (raw_request t strtol behind writes text l).1
  reset : (now : ℕ) (l : Loop) → Step t sends sets l (reset_queue now l)
  use_slave : (slave_id : ℕ) (l : Loop) → Step t sends sets l (set_slave slave_id l)
  use_config :
      (inputs : List Input) (slave_retry_max_ms frame_delay_ms round_interval_ms : ℕ) (l : Loop)
      → Step t sends sets l
          (set_config inputs slave_retry_max_ms frame_delay_ms round_interval_ms l)
  use_callbacks :
      (message subscription error : Bool) (l : Loop)
      → Step t sends sets l (set_callbacks message subscription error l)
  close : (l : Loop) → Step t sends sets l l
  send_now :
      sends ≡ true
      → (start : ℕ) (wait : ℤ) (turns : List Turn) (finish : ℕ) (msg : Msg) (l : Loop) (s : Sending)
      → send t start wait turns finish msg l ≡ some s
      → Step t sends sets l s.loop
  set_timeout : sets ≡ true → (ms : ℤ) (l : Loop) → Step t sends sets l (frame_timeout ms l).1

pub data Reach (t : Transport) (sends sets : Bool) (start : Loop) : Loop → Type 0 where
  here : Reach t sends sets start start
  next :
      {l l' : Loop}
      → Reach t sends sets start l
      → Step t sends sets l l'
      → Reach t sends sets start l'
