-- ===== src/System/Timeout.antt =====
-- A request that is on the wire comes to an end in time.
use modbusmq.Slave.{once_rearm}
use modbusmq.Round.{set_focus}
use modbusmq.Timer.{Timer}
use modbusmq.Subscribe.{subscribe_timer}
use modbusmq.Prepare.{loop_prepare}
use modbusmq.Exchange.Shape.{KeepsMark}
use modbusmq.Queue.{post_msg}
use modbusmq.Loop.Account.{count_ended}
use modbusmq.Prepare.Expiry.{IsOut}
use modbusmq.Transport.{Transport}
use modbusmq.Frame.{Frame}
use modbusmq.Loop.{Loop}
use mathlib.Core.Path.{sym, ap}
use modbusmq.Base.{ℕ, ◌<◌, ◌⊎◌, sym, ap}
use modbusmq.System.{
  Transport, Loop, post_msg, KeepsMark, loop_prepare, subscribe_timer, set_focus, once_rearm,
}

abbrev IsOver : ℕ → Loop → Type 0
IsOver id l = 0 < count_ended id l.reports

-- The request is on the wire still, since the same write, or it has ended.
abbrev IsFollowed : ℕ → ℕ → ℕ → Loop → Type 0
IsFollowed id since limit l = IsOut id since limit l ⊎ IsOver id l
