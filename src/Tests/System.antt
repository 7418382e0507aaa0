-- ===== src/Tests/System.antt =====
-- A request on the wire that gets no answer, and a request that is posted to a fresh context.
use modbusmq.System.Slot.{raw_request_waits}
use modbusmq.Raw.{raw_request}
use modbusmq.Loop.Slot.{is_asked}
use modbusmq.Transport.Laws.{rtu-IsTransport}
use modbusmq.System.Once.{request_ends_once}
use modbusmq.Queue.Stamps.{IsStamped, count}
use modbusmq.Loop.Account.{held}
use modbusmq.Loop.{Loop, set_queue, queue}
use modbusmq.Transport.{rtu}
use modbusmq.Tests.Loop.{loop}
use modbusmq.Tests.Exchange as Wire
use modbusmq.Base.{ℕ, ◌≡◌, List, [], refl, false, true}
use modbusmq.Tests.Raw.{one_digit, behind, text, in_flight}
use modbusmq.System.{raw_text, request, here, next, post_request}

abbrev fresh : Loop
fresh = set_queue [] loop

request_ends_once_example :
    (ids : List ℕ) × IsStamped 2 ids (post_request rtu Wire.unsent fresh).rounds.outbox.req_id_next
    × ((x : ℕ) → held x (post_request rtu Wire.unsent fresh) ≡ count x ids)
request_ends_once_example =
    request_ends_once rtu rtu-IsTransport true (record { no_requests = refl; no_reports = refl })
      (next here (request Wire.unsent fresh))

raw_request_waits_example :
    is_asked 3 (queue (raw_request rtu one_digit behind false text loop).1) ≡ true
raw_request_waits_example =
    raw_request_waits rtu rtu-IsTransport true true refl
      (next here (raw_text one_digit behind false text loop)) 3 in_flight
