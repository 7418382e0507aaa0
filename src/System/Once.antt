-- ===== src/System/Once.antt =====
-- Every request comes to one outcome, whatever the application does.
use modbusmq.Base.{
  ℕ, ◌≡◌, sym, ◌∙◌, arith, List, [], Bool, pos, negsuc, false, Option, ◌++◌, inl, ap, inr,
}
use modbusmq.Transport.{Transport}
use modbusmq.Transport.Laws.{IsTransport}
use modbusmq.Queue.{post, post_msg}
use modbusmq.Queue.Stamps.{IsStamped, count, count-append, IsStamped-append, post_internal-Stamps}
use modbusmq.Round.{Rounds, set_focus}
use modbusmq.Loop.{Loop, queue, loop_write_read, reset_queue}
use modbusmq.Loop.Account.{
  Conserves, held, loop_write_read-Conserves, reset_queue-Conserves, Conserves-same,
}
use modbusmq.Prepare.Account.{Grows, loop_prepare-Grows}
use mathlib.Core.Path.{subst, ap}
use modbusmq.Raw.Safety.{raw_request_cases, message}
use modbusmq.Raw.{post_raw}
use modbusmq.System.{
  raw_text, Step, Reach, prepare, write_read, request, subscribe, focus, rearm, connect, reset,
  here, next, connected, close, use_slave, use_config, use_callbacks, set_slave, set_config,
  set_callbacks, send_now, set_timeout, frame_timeout,
}

-- Nothing has been asked for yet.
pub record IsStart (l : Loop) : Type 0 where
  pub no_requests : queue l ≡ []
  pub no_reports : l.reports ≡ []

Grows-of : (l l' : Loop) → Conserves l l' → Grows l l'
Grows-of l l' (same, last) = ([], sym last, λ x. omega (arith, same x))

Grows-then : (k l m : Loop) → Grows k l → Grows l m → Grows k m
Grows-then k l m (a, sa, ca) (b, sb, cb) = (
  a ++ b,
  IsStamped-append k.rounds.outbox.req_id_next a l.rounds.outbox.req_id_next b
      m.rounds.outbox.req_id_next sa sb,
  λ x. omega (arith, ca x, cb x, count-append x a b),
)

pub set_focus_outbox :
    (rounds : Bool) (slave : Option ℕ) (r : Rounds) → (set_focus rounds slave r).1.outbox ≡ r.outbox
unfolding set_focus
set_focus_outbox rounds slave r = ground arith

module _ (t : Transport) (laws : IsTransport t) (sets : Bool) where
  Step-Grows : {l l' : Loop} → Step t false sets l l' → Grows l l'
  unfolding connected post_msg post_raw frame_timeout set_slave set_config set_callbacks
  Step-Grows (prepare rounds now sleep_time l) = loop_prepare-Grows t laws rounds now sleep_time l
  Step-Grows (write_read now ready hung_up sent read marks l) =
      Grows-of l (loop_write_read t now ready hung_up sent read l).1
        (loop_write_read-Conserves t laws now ready hung_up sent read l)
  Step-Grows (request m l) =
      let (ids, stamped, counts) = post_internal-Stamps t laws l.rounds.outbox m post in
      (ids, stamped, λ x. omega (arith, counts x))
  Step-Grows (subscribe mode id now interval slave tier m l) = Grows-of l l (Conserves-same l)
  Step-Grows (focus rounds slave l) =
      let same = set_focus_outbox rounds slave l.rounds in
      Grows-of l (record l { rounds = (set_focus rounds slave l.rounds).1 })
        (λ x. ground (arith, same), ground (arith, same))
  Step-Grows (rearm now l) = Grows-of l l (Conserves-same l)
  Step-Grows (connect l) = Grows-of l l (Conserves-same l)
  Step-Grows (raw_text strtol behind writes text l) =
      elim (raw_request_cases t strtol behind writes text l) [
        | inl (reason, e) ↦
            subst (Grows l) (sym (ap (λ p. p.1) e)) (Grows-of l l (Conserves-same l))
        | inr (f, free, built, e) ↦ subst (Grows l) (sym (ap (λ p. p.1) e)) (
            let (ids, stamped, counts) =
              post_internal-Stamps t laws l.rounds.outbox (message f) post in
            (ids, stamped, λ x. omega (arith, counts x)))
      ]
  Step-Grows (reset now l) = Grows-of l (reset_queue now l) (reset_queue-Conserves now l)
  Step-Grows (use_slave slave_id l) = Grows-of l l (Conserves-same l)
  Step-Grows (use_config inputs retry delay interval l) = Grows-of l l (Conserves-same l)
  Step-Grows (use_callbacks posts polls errors l) = Grows-of l l (Conserves-same l)
  Step-Grows (close l) = Grows-of l l (Conserves-same l)
  Step-Grows (send_now never start wait turns finish msg l s e) = absurd (cc never)
  Step-Grows (set_timeout may (pos ms) l) = Grows-of l l (Conserves-same l)
  Step-Grows (set_timeout may (negsuc ms) l) = Grows-of l l (Conserves-same l)

  Reach-Grows : {start l : Loop} → Reach t false sets start l → Grows start l
  Reach-Grows {start} here = Grows-of start start (Conserves-same start)
  Reach-Grows {start} {l} (next {l = k} r s) = Grows-then start k l (Reach-Grows r) (Step-Grows s)

  -- Whatever an application calls on a fresh context before modbusmq_free, in any order, but for
  -- modbusmq_send, whose requests never go on the queue, and whatever the wire gives, provided that
  -- reading leaves the marks of the frames alone and that no callback resets the queue, or posts while it is being reset: the requests that wait on the queue or have ended are those
  -- that have been stamped, one after another, and each of them is there as often as it was stamped.
  pub request_ends_once :
      {start l : Loop}
      → IsStart start
      → Reach t false sets start l
      → (ids : List ℕ) × IsStamped start.rounds.outbox.req_id_next ids l.rounds.outbox.req_id_next
        × ((x : ℕ) → held x l ≡ count x ids)
  request_ends_once {start} {l} fresh r =
      let (ids, stamped, counts) = Reach-Grows r in
      (ids, stamped, λ x. counts x ∙ ground (arith, fresh.no_requests, fresh.no_reports))
