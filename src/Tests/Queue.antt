-- ===== src/Tests/Queue.antt =====
-- A queue with a poll at its head, one post and one poll behind it.
use modbusmq.Queue.Ids.{ids_on, ids_differ, next_req_id_lem}
use modbusmq.Queue.Refine.{Command, put_on, take_off, run_queue, run_lines, queue_refines}
use modbusmq.Queue.Order.{IsQueue, enqueue_order, enqueue-IsQueue}
use modbusmq.Queue.{enqueue, Flags, Wrapper, post, next_req_id, subscribe}
use modbusmq.Base.{ℕ, ◌≡◌, List, [], ◌∷◌, ◌<◌, arith, ◌≢◌, ◌^◌}
use modbusmq.Frame.{Msg, cleared}

abbrev message : ℕ → Msg
message id = record { msg_id = id; req_id = 0; first = cleared; second = cleared }

abbrev waiting : Flags → ℕ → Wrapper
waiting flags id = record { flags = flags; head_since_ms = 0; msg = message id }

abbrev queue : List Wrapper
queue = waiting subscribe 1 ∷ waiting post 2 ∷ waiting subscribe 3 ∷ []

queue-IsQueue : IsQueue queue
queue-IsQueue = ground arith

enqueue_order_test :
    enqueue (waiting post 4) queue
    ≡ waiting subscribe 1 ∷ waiting post 2 ∷ waiting post 4 ∷ waiting subscribe 3 ∷ []
enqueue_order_test =
    enqueue_order (waiting post 4) (waiting subscribe 1) (waiting post 2 ∷ waiting subscribe 3 ∷ [])
      queue-IsQueue

enqueue-IsQueue_test : IsQueue (enqueue (waiting subscribe 5) queue)
enqueue-IsQueue_test = enqueue-IsQueue (waiting subscribe 5) queue queue-IsQueue

next_req_id_lem_test : (0 < next_req_id 0xffffffff) × (next_req_id 0xffffffff < 2 ^ 32)
next_req_id_lem_test = next_req_id_lem 0xffffffff

ids_differ_test : ids_on 3 0xfffffffe ≢ 0xfffffffe
ids_differ_test = ids_differ 3 0xfffffffe (omega arith) (omega arith) (omega arith) (omega arith)

-- The first poll is served, and the post that comes last goes ahead of the poll that waits.
abbrev commands : List Command
commands =
    put_on (waiting subscribe 1)
    ∷ put_on (waiting subscribe 2)
    ∷ put_on (waiting post 3)
    ∷ take_off
    ∷ put_on (waiting post 4)
    ∷ []

queue_refines_example :
    run_queue commands [] ≡ waiting post 3 ∷ waiting post 4 ∷ waiting subscribe 2 ∷ []
unfolding run_lines
queue_refines_example = queue_refines commands
