-- ===== src/Prepare/Expiry.antt =====
-- A request that is on the wire, and the passes of `modbusmq_loop_prepare`.
use modbusmq.Prepare.Posts.{prepare_subscription_keeps}
use modbusmq.Loop.Account.{count_ended}
use modbusmq.Queue.Stamps.{one, one_same}
use mathlib.Core.Path.{subst, sym}
use modbusmq.Loop.Ending.{Ends, KeepsEnded, fail-Ends}
use modbusmq.Round.{Rounds}
use modbusmq.Round.Posts.{IsKept}
use modbusmq.Transport.Laws.{IsTransport}
use modbusmq.Prepare.{
  expire, request_sent, expire_head, Wrapper, Rounds, post_internal, subscribe, mark_head,
  forget_write, head_since, mark_first, mark_frames, loop_prepare, prepare_subscription,
}
use modbusmq.Transport.{Transport}
use modbusmq.Queue.{enqueue, Outbox, Wrapper, post_internal, Flags, next_req_id, is_post, splice}
use modbusmq.Loop.{Loop, queue, set_queue, timeout}
use modbusmq.Frame.{Context, Msg, IsExchange}
use modbusmq.Base.{
  ℕ, ◌≡◌, arith, ◌∙◌, List, true, ◌<◌, ◌+◌, ◌∷◌, ◌≤◌, ◌⊎◌, Bool-cases, refl, ap, inl, inr, ◌++◌, [],
  sym, leb, ◌-◌, Bool,
}

-- The request of the message is in the first frame, and all of it has been written.
pub record IsWritten (c : Context) (m : Msg) : Type 0 where
  pub exchange : IsExchange m
  pub not_empty : 0 < m.first.length
  pub at_least : c.req_header_min ≤ m.first.length
  pub whole : m.first.xmit ≡ m.first.length

-- Request `id` is at the head of the queue and on the wire, where the last write was at `since` and a
-- request is given up after `limit`.
pub record IsOut (id since limit : ℕ) (l : Loop) : Type 0 where
  pub head : Wrapper
  pub behind : List Wrapper
  pub at_head : queue l ≡ head ∷ behind
  pub same_id : head.msg.req_id ≡ id
  pub written : IsWritten l.rounds.outbox.context head.msg
  pub write_time : l.stream.last_write_ms ≡ since
  pub time_limit : l.frame_timeout_ms ≡ limit

-- The head stays, and so does the least length of a request.
abbrev pub Heads : Outbox → Outbox → Type 0
Heads o o' =
    ((w : Wrapper) (q : List Wrapper) → o.queue ≡ w ∷ q → (q' : List Wrapper) × (o'.queue ≡ w ∷ q'))
    × (o'.context.req_header_min ≡ o.context.req_header_min)

enqueue_head :
    (v w : Wrapper) (q : List Wrapper) → (q' : List Wrapper) × (enqueue v (w ∷ q) ≡ w ∷ q')
unfolding enqueue
enqueue_head v w q = elim (Bool-cases (is_post v.flags)) [
  | inl posts ↦ rw posts (splice v q, refl)
  | inr polls ↦ rw polls (q ++ v ∷ [], refl)
]

pub Heads-same : (o o' : Outbox) → o' ≡ o → Heads o o'
Heads-same o o' same = (
  λ w q e. (q, ap (λ (p : Outbox). p.queue) same ∙ e),
  ap (λ (p : Outbox). p.context.req_header_min) same,
)

Heads-then : (o p r : Outbox) → Heads o p → Heads p r → Heads o r
Heads-then o p r (a, same) (b, same') = (λ w q e. let (q', e') = a w q e in b w q' e', same' ∙ same)

module _ (t : Transport) (laws : IsTransport t) where
  pub post_internal-Heads :
      (o : Outbox) (m : Msg) (flags : Flags) → Heads o (post_internal t o m flags).0
  unfolding post_internal
  post_internal-Heads o m flags =
      let stamped = record m { req_id = next_req_id o.req_id_next } in
      let wrapper : Wrapper = record {
        flags = flags;
        head_since_ms = 0;
        msg = (t.msg_prepare o.context stamped).1;
      } in
      (
        λ w q e. let (q', e') = enqueue_head wrapper w q in (q', ap (enqueue wrapper) e ∙ e'),
        laws.prepare_min o.context stamped,
      )

  Heads-kept : IsKept t Heads
  Heads-kept = record {
    unchanged = λ o. (λ w q e. (q, e), refl);
    chained = Heads-then;
    posted = λ o m. post_internal-Heads o m subscribe;
  }

  -- The head is kept by whatever keeps the head of the outbox.
  pub Heads-IsOut :
      (id since limit : ℕ) (l : Loop) (r : Rounds)
      → Heads l.rounds.outbox r.outbox
      → IsOut id since limit l
      → IsOut id since limit (record l { rounds = r })
  Heads-IsOut id since limit l r (heads, same) out =
      let (q', e) = heads out.head out.behind out.at_head in
      record {
        head = out.head;
        behind = q';
        at_head = e;
        same_id = out.same_id;
        written = record {
          exchange = out.written.exchange;
          not_empty = out.written.not_empty;
          at_least = omega (arith, same, out.written.at_least);
          whole = out.written.whole;
        };
        write_time = out.write_time;
        time_limit = out.time_limit;
      }

request_sent_lem : (c : Context) (m : Msg) → IsWritten c m → request_sent m ≡ true
unfolding request_sent
request_sent_lem c m out =
    let whole = out.whole in
    let not_empty = out.not_empty in rw out.exchange.first_writes (ground (arith, whole, not_empty))

module _ (now id since limit : ℕ) (l : Loop) (out : IsOut id since limit l) where
  -- Where the request has time left, it is out still, and else it has ended.
  abbrev Expires : Loop → Type 0
  Expires l' = (IsOut id since limit l' × (now < since + limit)) ⊎ Ends id l l'

  expire_head_cases : Expires (expire_head now (out.head ∷ out.behind) l)
  unfolding expire_head forget_write
  expire_head_cases =
      let w = out.head in
      let w' = record w { head_since_ms = head_since now w } in
      let l' = set_queue (w' ∷ out.behind) l in
      rw (request_sent_lem l.rounds.outbox.context w.msg out.written)
        (elim (Bool-cases (leb l.frame_timeout_ms (now - l.stream.last_write_ms))) [
          | inl late ↦
              rw late
                (inr (λ x. omega (arith, fail-Ends now timeout w.msg l' x, ap (one x) out.same_id)))
          | inr early ↦ rw early (
              inl (
                record {
                  head = w';
                  behind = out.behind;
                  at_head = refl;
                  same_id = out.same_id;
                  written = out.written;
                  write_time = out.write_time;
                  time_limit = out.time_limit;
                },
                ground (arith, early, out.write_time, out.time_limit),
              ))
        ])

  expire_cases : Expires (expire now l)
  unfolding expire
  expire_cases = subst (λ q. Expires (expire_head now q l)) (sym out.at_head) expire_head_cases

expire-KeepsEnded : (now : ℕ) (q : List Wrapper) (l : Loop) → KeepsEnded l (expire_head now q l)
unfolding expire_head forget_write
expire-KeepsEnded now [] l x = omega arith
expire-KeepsEnded now (w ∷ q) l x =
    let l' = set_queue (record w { head_since_ms = head_since now w } ∷ q) l in
    ground (arith, fail-Ends now timeout w.msg l' x)

mark_head-IsOut :
    (id since limit : ℕ) (l : Loop) → IsOut id since limit l → IsOut id since limit (mark_head l)
unfolding mark_head mark_first mark_frames
mark_head-IsOut id since limit l out =
    let x = out.written.exchange in
    record {
      head = record out.head { msg = mark_frames out.head.msg };
      behind = out.behind;
      at_head = ap mark_first out.at_head;
      same_id = ground (arith, out.same_id);
      written = record {
        exchange = record { first_writes = ground (arith, x); second_reads = ground (arith, x) };
        not_empty = ground (arith, x, out.written.not_empty);
        at_least = ground (arith, x, out.written.at_least);
        whole = ground (arith, x, out.written.whole);
      };
      write_time = out.write_time;
      time_limit = out.time_limit;
    }

module _ (t : Transport) (laws : IsTransport t) (rounds : Bool) (now sleep_time : ℕ) where
  pub loop_prepare-KeepsEnded : (l : Loop) → KeepsEnded l (loop_prepare t rounds now sleep_time l).2
  unfolding loop_prepare mark_head expire
  loop_prepare-KeepsEnded l = expire-KeepsEnded now (queue l) l

  -- After a pass of `modbusmq_loop_prepare`, a request that was on the wire is so still and has time
  -- left, or it has ended.
  pub loop_prepare-IsOut :
      (id since limit : ℕ) (l : Loop)
      → IsOut id since limit l
      → (IsOut id since limit (loop_prepare t rounds now sleep_time l).2 × (now < since + limit))
        ⊎ (0 < count_ended id (loop_prepare t rounds now sleep_time l).2.reports)
  unfolding loop_prepare mark_head
  loop_prepare-IsOut id since limit l out =
      let expired = expire now l in
      let r = (prepare_subscription t rounds now sleep_time expired.rounds).1 in
      elim (expire_cases now id since limit l out) [
        | inl (still, early) ↦ inl (
          mark_head-IsOut id since limit (record expired { rounds = r })
              (Heads-IsOut t laws id since limit expired r
                (prepare_subscription_keeps t Heads (Heads-kept t laws) now rounds sleep_time
                  expired.rounds)
                still),
          early,
        )
        | inr ends ↦ inr (omega (arith, ends id, one_same id))
      ]
