-- ===== src/Queue/Stamps.antt =====
-- Which ids are on the queue, and which have been stamped.
use mathlib.Core.Path.{subst}
use modbusmq.Base.{ℕ, ◌+◌, ◌≡◌, refl, sym, ap, arith, List, [], ◌∷◌, ◌++◌, ◌==◌, if◌then◌else◌}
use modbusmq.Frame.{Msg}
use modbusmq.Transport.{Transport}
use modbusmq.Transport.Laws.{IsTransport}
use modbusmq.Queue.{Flags, Wrapper, Outbox, next_req_id, splice, enqueue, post_internal}

abbrev pub one : ℕ → ℕ → ℕ
one x id = if id == x then 1 else 0

-- How often an id stands in a list.
abbrev pub count : ℕ → List ℕ → ℕ
count x [] = 0
count x (id ∷ ids) = one x id + count x ids

abbrev pub count_waiting : ℕ → List Wrapper → ℕ
count_waiting x [] = 0
count_waiting x (w ∷ q) = one x w.msg.req_id + count_waiting x q

pub one_same : (x : ℕ) → one x x ≡ 1
one_same x = ground arith

-- The ids are those that are stamped one after another, behind `last` and up to `latest`.
abbrev pub IsStamped : ℕ → List ℕ → ℕ → Type 0
IsStamped last [] latest = last ≡ latest
IsStamped last (id ∷ ids) latest = (id ≡ next_req_id last) × IsStamped id ids latest

-- From one outbox to another: some ids have been stamped, and stand on the queue as well.
abbrev pub Stamps : Outbox → Outbox → Type 0
Stamps o o' =
    (ids : List ℕ) × IsStamped o.req_id_next ids o'.req_id_next
    × ((x : ℕ) → count_waiting x o'.queue ≡ count_waiting x o.queue + count x ids)

pub count-append : (x : ℕ) (a b : List ℕ) → count x (a ++ b) ≡ count x a + count x b
count-append x [] b = omega arith
count-append x (id ∷ a) b = omega (arith, count-append x a b)

pub IsStamped-append :
    (last : ℕ) (a : List ℕ) (middle : ℕ) (b : List ℕ) (latest : ℕ)
    → IsStamped last a middle
    → IsStamped middle b latest
    → IsStamped last (a ++ b) latest
IsStamped-append last [] middle b latest e h = subst (λ k. IsStamped k b latest) (sym e) h
IsStamped-append last (id ∷ a) middle b latest (e, g) h =
    (e, IsStamped-append id a middle b latest g h)

pub Stamps-none : (o : Outbox) → Stamps o o
Stamps-none o = ([], refl, λ x. omega arith)

pub Stamps-then : (o p r : Outbox) → Stamps o p → Stamps p r → Stamps o r
Stamps-then o p r (a, sa, ca) (b, sb, cb) = (
  a ++ b,
  IsStamped-append o.req_id_next a p.req_id_next b r.req_id_next sa sb,
  λ x. omega (arith, ca x, cb x, count-append x a b),
)

count-splice :
    (x : ℕ) (w : Wrapper) (q : List Wrapper)
    → count_waiting x (splice w q) ≡ count_waiting x q + one x w.msg.req_id
unfolding splice
count-splice x w [] = omega arith
count-splice x w (next ∷ q) = ground (arith, count-splice x w q)

count-tail :
    (x : ℕ) (w : Wrapper) (q : List Wrapper)
    → count_waiting x (q ++ w ∷ []) ≡ count_waiting x q + one x w.msg.req_id
count-tail x w [] = omega arith
count-tail x w (next ∷ q) = omega (arith, count-tail x w q)

count-enqueue :
    (x : ℕ) (w : Wrapper) (q : List Wrapper)
    → count_waiting x (enqueue w q) ≡ count_waiting x q + one x w.msg.req_id
unfolding enqueue
count-enqueue x w [] = omega arith
count-enqueue x w (head ∷ q) = ground (arith, count-splice x w q, count-tail x w q)

-- A message that is posted is stamped, and goes on the queue under that id.
pub post_internal-Stamps :
    (t : Transport) (laws : IsTransport t) (o : Outbox) (m : Msg) (flags : Flags)
    → Stamps o (post_internal t o m flags).0
unfolding post_internal
post_internal-Stamps t laws o m flags =
    let id = next_req_id o.req_id_next in
    let stamped = record m { req_id = id } in
    let copy = (t.msg_prepare o.context stamped).1 in
    let wrapper : Wrapper = record { flags = flags; head_since_ms = 0; msg = copy } in
    (
      id ∷ [],
      (refl, refl),
      λ x. omega (
        arith,
        count-enqueue x wrapper o.queue,
        ap (one x) (laws.prepare_keeps o.context stamped),
      ),
    )
