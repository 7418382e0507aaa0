-- ===== src/Prepare/Account.antt =====
-- What a pass of `modbusmq_loop_prepare` does to the requests.
use mathlib.Core.Path.{subst}
use modbusmq.Base.{
  ℕ, ◌+◌, ◌-◌, ◌≡◌, refl, ap, arith, Bool, inl, inr, Bool-cases, List, [], ◌∷◌, leb,
}
use modbusmq.Frame.{Msg}
use modbusmq.Transport.{Transport}
use modbusmq.Transport.Laws.{IsTransport}
use modbusmq.Queue.{Wrapper}
use modbusmq.Queue.Stamps.{IsStamped, count, count_waiting, one}
use modbusmq.Loop.{Loop, queue, set_queue, fail, timeout}
use modbusmq.Loop.Account.{Conserves, held, fail-Conserves, Conserves-then, Conserves-same}
use modbusmq.Prepare.{
  expire_head, expire, request_sent, head_since, prepare_subscription, mark_frames, mark_first,
  mark_head, loop_prepare, forget_write,
}
use modbusmq.Prepare.Stamps.{prepare_subscription-Stamps}

-- From one loop to another: some ids have been stamped, and are held as well.
abbrev pub Grows : Loop → Loop → Type 0
Grows l l' =
    (ids : List ℕ) × IsStamped l.rounds.outbox.req_id_next ids l'.rounds.outbox.req_id_next
    × ((x : ℕ) → held x l' ≡ held x l + count x ids)

expire_head-Conserves :
    (now : ℕ) (q : List Wrapper) (l : Loop) → queue l ≡ q → Conserves l (expire_head now q l)
unfolding expire_head forget_write
expire_head-Conserves now [] l e = Conserves-same l
expire_head-Conserves now (w ∷ q) l e =
    let w' = record w { head_since_ms = head_since now w } in
    let l' = set_queue (w' ∷ q) l in
    let kept : Conserves l l' = (λ x. omega (arith, ap (count_waiting x) e), refl) in
    let failed : Conserves l (fail now timeout w.msg l') =
      Conserves-then l l' (fail now timeout w.msg l') kept
        (fail-Conserves w' q w.msg refl now timeout l' refl) in
    elim (Bool-cases (request_sent w.msg)) [
      | inl sent ↦
          rw sent (elim (Bool-cases (leb l.frame_timeout_ms (now - l.stream.last_write_ms))) [
            | inl late ↦ rw late failed
            | inr early ↦ rw early kept
          ])
      | inr unsent ↦
          rw unsent (elim (Bool-cases (leb l.frame_timeout_ms (now - head_since now w))) [
            | inl late ↦ rw late failed
            | inr early ↦ rw early kept
          ])
    ]

pub mark_frames_id : (m : Msg) → (mark_frames m).req_id ≡ m.req_id
unfolding mark_frames
mark_frames_id m = ground arith

count-mark_first : (x : ℕ) (q : List Wrapper) → count_waiting x (mark_first q) ≡ count_waiting x q
unfolding mark_first
count-mark_first x [] = refl
count-mark_first x (w ∷ q) = omega (arith, ap (one x) (mark_frames_id w.msg))

-- A pass that prepares the loop stamps ids one after another, and each of them is held then, besides
-- those that were.
pub loop_prepare-Grows :
    (t : Transport)
    → IsTransport t
    → (rounds : Bool) (now sleep_time : ℕ) (l : Loop)
    → Grows l (loop_prepare t rounds now sleep_time l).2
unfolding loop_prepare mark_head expire
loop_prepare-Grows t laws rounds now sleep_time l =
    let expired = expire now l in
    let first : Conserves l expired = expire_head-Conserves now (queue l) l refl in
    let r = (prepare_subscription t rounds now sleep_time expired.rounds).1 in
    let (ids, stamped, counts) =
      prepare_subscription-Stamps t laws now rounds sleep_time expired.rounds in
    (
      ids,
      subst (λ last. IsStamped last ids r.outbox.req_id_next) first.1 stamped,
      λ x. omega (arith, counts x, first.0 x, count-mark_first x r.outbox.queue),
    )
