-- ===== src/Queue/Order.antt =====
-- The queue behind its head is two queues: the posts, and then the polls.
use modbusmq.Base.{true, false, List, [], ◌∷◌, ◌++◌, ◌≡◌, refl, arith, if◌then◌else◌}
use mathlib.Core.List.{append_assoc}
use modbusmq.Queue.{is_post, Wrapper, splice, enqueue, dequeue}

-- The wrappers of one kind, in their order.
abbrev pub posts : List Wrapper → List Wrapper
posts [] = []
posts (w ∷ q) = let rest = posts q in if is_post w.flags then w ∷ rest else rest

abbrev pub polls : List Wrapper → List Wrapper
polls [] = []
polls (w ∷ q) = let rest = polls q in if is_post w.flags then rest else w ∷ rest

-- Every post stands ahead of every poll.
abbrev pub IsOrdered : List Wrapper → Type 0
IsOrdered [] = Unit
IsOrdered (w ∷ q) = (is_post w.flags ≡ false → posts q ≡ []) × IsOrdered q

-- A queue whose waiting part, behind the head, is ordered.
abbrev pub IsQueue : List Wrapper → Type 0
IsQueue [] = Unit
IsQueue (head ∷ q) = IsOrdered q

pub ordered_split : (q : List Wrapper) → IsOrdered q → q ≡ posts q ++ polls q
ordered_split [] o = refl
ordered_split (w ∷ q) o = ground (arith, ordered_split q o.1)

splice_order :
    (w : Wrapper) (q : List Wrapper) → IsOrdered q → splice w q ≡ posts q ++ (w ∷ polls q)
unfolding splice
splice_order w [] o = refl
splice_order w (x ∷ q) o = ground (arith, splice_order w q o.1, ordered_split q o.1)

-- On an ordered queue a post goes behind the posts that wait and ahead of every poll, a poll goes
-- behind all, and neither touches the head or the order of what was there.
pub enqueue_order :
    (w head : Wrapper) (q : List Wrapper)
    → IsQueue (head ∷ q)
    → enqueue w (head ∷ q)
      ≡ head
        ∷ (if is_post w.flags then posts q ++ (w ∷ polls q) else posts q ++ (polls q ++ w ∷ []))
unfolding enqueue
enqueue_order w head q o =
    ground (arith, splice_order w q o, ordered_split q o, append_assoc (posts q) (polls q) (w ∷ []))

pub posts-append : (p q : List Wrapper) → posts (p ++ q) ≡ posts p ++ posts q
posts-append [] q = refl
posts-append (x ∷ p) q = ground (arith, posts-append p q)

splice-posts :
    (w : Wrapper) (q : List Wrapper) → is_post w.flags ≡ true → IsOrdered q → IsOrdered (splice w q)
unfolding splice
splice-posts w [] p o = ground arith
splice-posts w (x ∷ q) p o = ground (arith, splice-posts w q p o.1)

append_poll-IsOrdered :
    (w : Wrapper) (q : List Wrapper)
    → is_post w.flags ≡ false
    → IsOrdered q
    → IsOrdered (q ++ w ∷ [])
append_poll-IsOrdered w [] p o = ground arith
append_poll-IsOrdered w (x ∷ q) p o =
    ground (arith, append_poll-IsOrdered w q p o.1, posts-append q (w ∷ []))

-- A post or a poll put on a queue leaves the part behind the head ordered if it was.
pub enqueue-IsQueue : (w : Wrapper) (q : List Wrapper) → IsQueue q → IsQueue (enqueue w q)
unfolding enqueue
enqueue-IsQueue w [] o = tt
enqueue-IsQueue w (head ∷ q) o = ground (arith, splice-posts w q, append_poll-IsOrdered w q)

-- When the head is removed, the part behind the new head is ordered if that behind the old one was.
pub dequeue-IsQueue : (q : List Wrapper) → IsQueue q → IsQueue (dequeue q)
unfolding dequeue
dequeue-IsQueue [] o = tt
dequeue-IsQueue (head ∷ []) o = tt
dequeue-IsQueue (head ∷ x ∷ q) o = o.1
