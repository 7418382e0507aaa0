-- ===== src/System/Slot.antt =====
-- The raw request in flight waits on the queue, so that it gets its reply.
use modbusmq.System.Once.{set_focus_outbox}
use modbusmq.Raw.Safety.{message, raw_request_cases}
use modbusmq.Prepare.Slot.{loop_prepare-IsAsked, post_internal-KeepsAsked, posted_asked}
use modbusmq.Loop.Slot.{IsAsked, loop_write_read-IsAsked, is_asked, reset_queue-IsAsked}
use modbusmq.Loop.{Loop, queue}
use modbusmq.Queue.{post_msg, post, Outbox}
use modbusmq.Frame.{Frame}
use modbusmq.Transport.Laws.{IsTransport}
use modbusmq.Transport.{Transport}
use modbusmq.Raw.{post_raw, accepted}
use mathlib.Core.Path.{subst}
use modbusmq.Send.Queue.{Leaves, send-Leaves}
use modbusmq.Base.{ℕ, Bool, pos, negsuc, ◌≡◌, arith, none, some, true, sym, ap, ◌∙◌, inl, inr}
use modbusmq.System.{
  Step, Reach, prepare, write_read, request, subscribe, focus, rearm, connect, reset, raw_text,
  here, next, connected, close, use_slave, use_config, use_callbacks, set_slave, set_config,
  set_callbacks, send_now, set_timeout, frame_timeout,
}

posted-IsAsked :
    (t : Transport) (laws : IsTransport t) (f : Frame) (l : Loop)
    → IsAsked (post_raw t (accepted f) l).1
unfolding post_raw
posted-IsAsked t laws f l id flying =
    subst (λ k. is_asked k (post_msg t l.rounds.outbox (message f)).0.queue ≡ true)
      (ground (arith, flying)) (posted_asked t laws l.rounds.outbox (message f))

left-IsAsked : (l l' : Loop) → Leaves l l' → IsAsked l → IsAsked l'
left-IsAsked l l' (same, inl kept) asked id flying =
    ap (is_asked id) same ∙ asked id (sym kept ∙ flying)
left-IsAsked l l' (same, inr gone) asked id flying = absurd (ground (arith, gone, flying))

module _ (t : Transport) (laws : IsTransport t) (sends sets : Bool) where
  Step-IsAsked : {l l' : Loop} → Step t sends sets l l' → IsAsked l → IsAsked l'
  unfolding connected post_msg frame_timeout set_slave set_config set_callbacks
  Step-IsAsked (prepare rounds now sleep_time l) asked =
      loop_prepare-IsAsked t rounds now sleep_time l asked
  Step-IsAsked (write_read now ready hung_up sent read marks l) asked =
      loop_write_read-IsAsked t laws now ready hung_up sent read l asked
  Step-IsAsked (request m l) asked =
      λ id flying. post_internal-KeepsAsked t l.rounds.outbox m post id (asked id flying)
  Step-IsAsked (subscribe mode i now interval slave tier m l) asked = asked
  Step-IsAsked (focus rounds slave l) asked = λ id flying.
      ap (λ (o : Outbox). is_asked id o.queue) (set_focus_outbox rounds slave l.rounds)
      ∙ asked id flying
  Step-IsAsked (rearm now l) asked = asked
  Step-IsAsked (connect l) asked = asked
  Step-IsAsked (raw_text strtol behind writes text l) asked =
      elim (raw_request_cases t strtol behind writes text l) [
        | inl (reason, e) ↦ subst IsAsked (sym (ap (λ p. p.1) e)) asked
        | inr (f, free, built, e) ↦
            subst IsAsked (sym (ap (λ p. p.1) e)) (posted-IsAsked t laws f l)
      ]
  Step-IsAsked (reset now l) asked = reset_queue-IsAsked now l asked
  Step-IsAsked (use_slave slave_id l) asked = asked
  Step-IsAsked (use_config inputs retry delay interval l) asked = asked
  Step-IsAsked (use_callbacks posts polls errors l) asked = asked
  Step-IsAsked (close l) asked = asked
  Step-IsAsked (send_now may start wait turns finish msg l s e) asked =
      left-IsAsked l s.loop (send-Leaves t start wait turns finish msg l s e) asked
  Step-IsAsked (set_timeout may (pos ms) l) asked = asked
  Step-IsAsked (set_timeout may (negsuc ms) l) asked = asked

  -- Whatever an application calls, before modbusmq_free, on a context with no raw request in flight,
  -- and whatever the wire gives, provided that reading in modbusmq_loop_write_read leaves the marks of
  -- the frames alone and that no callback resets the queue, or posts while it is being reset: while a raw
  -- request is in flight, it waits on the queue as a post under its id.
  pub raw_request_waits :
      {start l : Loop}
      → start.raw ≡ none
      → Reach t sends sets start l
      → (id : ℕ) → l.raw ≡ some id
      → is_asked id (queue l) ≡ true
  raw_request_waits free here id flying = absurd (ground (arith, sym free ∙ flying))
  raw_request_waits free (next r s) id flying = Step-IsAsked s (raw_request_waits free r) id flying
