-- ===== src/Prepare/Slot.antt =====
-- The raw request in flight, and the passes of `modbusmq_loop_prepare`.
use modbusmq.Prepare.Posts.{prepare_subscription_keeps}
use modbusmq.Prepare.Account.{mark_frames_id}
use modbusmq.Loop.{Loop, queue, set_queue, fail, timeout}
use modbusmq.Round.Posts.{IsKept}
use modbusmq.Transport.Laws.{IsTransport}
use modbusmq.Frame.{Msg}
use modbusmq.Loop.Slot.{is_asked, IsAsked, marked_asked, fail-IsAsked}
use modbusmq.Prepare.{
  mark_first, loop_prepare, expire_head, forget_write, Msg, mark_head, expire, Loop, subscribe,
  mark_frames, prepare_subscription, head_since, request_sent,
}
use modbusmq.Transport.{Transport}
use modbusmq.Queue.{
  post_internal, post_msg, splice, Wrapper, enqueue, Outbox, Flags, is_post, next_req_id, post,
}
use mathlib.Core.Path.{subst}
use modbusmq.Base.{
  ℕ, ◌≡◌, arith, List, true, ◌∷◌, ◌++◌, Bool, [], refl, Bool-cases, inl, leb, ◌-◌, inr,
}

-- A post that waits goes on waiting.
abbrev pub KeepsAsked : Outbox → Outbox → Type 0
KeepsAsked o o' = (id : ℕ) → is_asked id o.queue ≡ true → is_asked id o'.queue ≡ true

asked_splice :
    (id : ℕ) (w : Wrapper) (q : List Wrapper)
    → is_asked id q ≡ true
    → is_asked id (splice w q) ≡ true
unfolding splice
asked_splice id w [] e = ground (arith, e)
asked_splice id w (next ∷ q) e = ground (arith, e, asked_splice id w q)

asked_append :
    (id : ℕ) (w : Wrapper) (q : List Wrapper)
    → is_asked id q ≡ true
    → is_asked id (q ++ w ∷ []) ≡ true
asked_append id w [] e = ground (arith, e)
asked_append id w (next ∷ q) e = ground (arith, e, asked_append id w q)

asked_enqueue :
    (id : ℕ) (w : Wrapper) (q : List Wrapper)
    → is_asked id q ≡ true
    → is_asked id (enqueue w q) ≡ true
unfolding enqueue
asked_enqueue id w [] e = ground (arith, e)
asked_enqueue id w (next ∷ q) e = ground (arith, e, asked_splice id w q, asked_append id w q)

-- What is posted is on the queue.
new_splice :
    (w : Wrapper) (q : List Wrapper)
    → is_post w.flags ≡ true
    → is_asked w.msg.req_id (splice w q) ≡ true
unfolding splice
new_splice w [] e = ground (arith, e)
new_splice w (next ∷ q) e = ground (arith, e, new_splice w q e)

new_enqueue :
    (w : Wrapper) (q : List Wrapper)
    → is_post w.flags ≡ true
    → is_asked w.msg.req_id (enqueue w q) ≡ true
unfolding enqueue
new_enqueue w [] e = ground (arith, e)
new_enqueue w (next ∷ q) e = ground (arith, e, new_splice w q e)

pub post_internal-KeepsAsked :
    (t : Transport) (o : Outbox) (m : Msg) (flags : Flags)
    → KeepsAsked o (post_internal t o m flags).0
unfolding post_internal
post_internal-KeepsAsked t o m flags id =
    asked_enqueue id
      (record {
        flags = flags;
        head_since_ms = 0;
        msg = (t.msg_prepare o.context (record m { req_id = next_req_id o.req_id_next })).1;
      })
      o.queue

pub posted_asked :
    (t : Transport) (laws : IsTransport t) (o : Outbox) (m : Msg)
    → is_asked (post_msg t o m).1.req_id (post_msg t o m).0.queue ≡ true
unfolding post_msg post_internal
posted_asked t laws o m =
    let stamped = record m { req_id = next_req_id o.req_id_next } in
    let w : Wrapper = record {
      flags = post;
      head_since_ms = 0;
      msg = (t.msg_prepare o.context stamped).1;
    } in
    subst (λ id. is_asked id (enqueue w o.queue) ≡ true) (laws.prepare_keeps o.context stamped)
      (new_enqueue w o.queue refl)

asked_kept : (t : Transport) → IsKept t KeepsAsked
asked_kept t = record {
  unchanged = λ o id e. e;
  chained = λ o p q a b id e. b id (a id e);
  posted = λ o m. post_internal-KeepsAsked t o m subscribe;
}

expire_head-IsAsked :
    (now : ℕ) (q : List Wrapper) (l : Loop)
    → queue l ≡ q
    → IsAsked l
    → IsAsked (expire_head now q l)
unfolding expire_head forget_write
expire_head-IsAsked now [] l e asked = asked
expire_head-IsAsked now (w ∷ q) l e asked =
    let w' = record w { head_since_ms = head_since now w } in
    let l' = set_queue (w' ∷ q) l in
    let kept : IsAsked l' = λ id flying.
      marked_asked id w w' q refl refl (subst (λ v. is_asked id v ≡ true) e (asked id flying)) in
    let failed : IsAsked (fail now timeout w.msg l') =
      fail-IsAsked w' q w.msg refl now timeout l' refl kept in
    elim (Bool-cases (request_sent w.msg)) [
      | inl sent ↦
          rw sent (elim (Bool-cases (leb l.frame_timeout_ms (now - l.stream.last_write_ms))) [
            | inl late ↦ rw late failed
            | inr early ↦ rw early kept
          ])
      | inr unsent ↦
          rw unsent (elim (Bool-cases (leb l.frame_timeout_ms (now - head_since now w))) [
            | inl late ↦ rw late failed
            | inr early ↦ rw early kept
          ])
    ]

mark_first_asked :
    (id : ℕ) (q : List Wrapper) → is_asked id q ≡ true → is_asked id (mark_first q) ≡ true
unfolding mark_first
mark_first_asked id [] e = e
mark_first_asked id (w ∷ q) e =
    marked_asked id w (record w { msg = mark_frames w.msg }) q (mark_frames_id w.msg) refl e

pub loop_prepare-IsAsked :
    (t : Transport) (rounds : Bool) (now sleep_time : ℕ) (l : Loop)
    → IsAsked l
    → IsAsked (loop_prepare t rounds now sleep_time l).2
unfolding loop_prepare mark_head expire
loop_prepare-IsAsked t rounds now sleep_time l asked id flying =
    let expired = expire now l in
    let r = (prepare_subscription t rounds now sleep_time expired.rounds).1 in
    mark_first_asked id r.outbox.queue (
      prepare_subscription_keeps t KeepsAsked (asked_kept t) now rounds sleep_time expired.rounds id
        (expire_head-IsAsked now (queue l) l refl asked id flying))
