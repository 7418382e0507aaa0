-- ===== src/Queue.antt =====
-- The request queue of lib/modbusmq.c: `modbusmq_post_internal`, `modbusmq_post`, the request ids,
-- and the removal of the head. That memory for a wrapper is there is assumed.
pub mod Order
pub mod Ids
pub mod Refine
pub mod Stamps
use modbusmq.Base.{ℕ, ◌+◌, ◌%◌, ◌^◌, Bool, true, false, List, [], ◌∷◌, ◌++◌, ◌==◌, if◌then◌else◌}
use modbusmq.Frame.{Context, Msg}
use modbusmq.Transport.{Transport}

-- MODBUSMQ_MSG_POST and MODBUSMQ_MSG_SUBSCRIBE
pub data Flags : Type 0 where
  post subscribe : Flags

abbrev pub is_post : Flags → Bool
is_post post = true
is_post subscribe = false

-- `modbusmq_msg_wrapper_t`, without its `next`: the queue is a list.
pub record Wrapper : Type 0 where
  pub flags : Flags
  pub head_since_ms : ℕ
  pub msg : Msg

-- `modbusmq_next_req_id`, in the field's 32 bits.
unfoldable pub next_req_id : ℕ → ℕ
next_req_id last = let next = (last + 1) % 2 ^ 32 in if next == 0 then 1 else next

-- The walk behind the head for a post: past the posts, ahead of the first poll.
unfoldable pub splice : Wrapper → List Wrapper → List Wrapper
splice w [] = w ∷ []
splice w (next ∷ q) = if is_post next.flags then next ∷ splice w q else w ∷ next ∷ q

unfoldable pub enqueue : Wrapper → List Wrapper → List Wrapper
enqueue w [] = w ∷ []
enqueue w (head ∷ q) = if is_post w.flags then head ∷ splice w q else head ∷ (q ++ w ∷ [])

-- What a post changes.
pub record Outbox : Type 0 where
  pub context : Context
  pub req_id_next : ℕ
  pub queue : List Wrapper

-- `modbusmq_post_internal`. The message comes back with its id; the queued copy is prepared.
unfoldable pub post_internal : Transport → Outbox → Msg → Flags → Outbox × Msg
post_internal t o msg flags =
    let id = next_req_id o.req_id_next in
    let stamped = record msg { req_id = id } in
    let (context, copy) = t.msg_prepare o.context stamped in
    let wrapper : Wrapper = record { flags = flags; head_since_ms = 0; msg = copy } in
    (record { context = context; req_id_next = id; queue = enqueue wrapper o.queue }, stamped)

-- `modbusmq_post`
unfoldable pub post_msg : Transport → Outbox → Msg → Outbox × Msg
post_msg t o msg = post_internal t o msg post

-- Removing the head when it is answered or given up.
unfoldable pub dequeue : List Wrapper → List Wrapper
dequeue [] = []
dequeue (head ∷ q) = q
