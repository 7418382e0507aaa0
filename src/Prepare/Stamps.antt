-- ===== src/Prepare/Stamps.antt =====
-- The ids that a pass over the timers stamps.
use modbusmq.Base.{ℕ, Bool}
use modbusmq.Transport.{Transport}
use modbusmq.Transport.Laws.{IsTransport}
use modbusmq.Queue.{subscribe}
use modbusmq.Queue.Stamps.{Stamps, Stamps-none, Stamps-then, post_internal-Stamps}
use modbusmq.Round.{Rounds}
use modbusmq.Round.Posts.{IsKept}
use modbusmq.Prepare.{prepare_subscription}
use modbusmq.Prepare.Posts.{prepare_subscription_keeps}

module _ (t : Transport) (laws : IsTransport t) where
  Stamps-kept : IsKept t Stamps
  Stamps-kept = record {
    unchanged = Stamps-none;
    chained = Stamps-then;
    posted = λ o m. post_internal-Stamps t laws o m subscribe;
  }

  pub prepare_subscription-Stamps :
      (now : ℕ) (rounds : Bool) (sleep_time : ℕ) (r : Rounds)
      → Stamps r.outbox (prepare_subscription t rounds now sleep_time r).1.outbox
  prepare_subscription-Stamps now rounds sleep_time r =
      prepare_subscription_keeps t Stamps Stamps-kept now rounds sleep_time r
