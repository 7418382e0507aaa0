-- ===== src/Queue/Refine.antt =====
-- The list of wrappers implements a head with two lines of first come, first served behind it.
use modbusmq.Base.{
  true, false, List, [], ◌∷◌, ◌++◌, ◌≡◌, refl, ap, ◌∙◌, arith, if◌then◌else◌, Option, none, some,
  Bool,
}
use mathlib.Core.List.{append-nil}
use modbusmq.Queue.{is_post, Wrapper, splice, enqueue, dequeue}
use modbusmq.Queue.Order.{
  posts, polls, IsOrdered, IsQueue, ordered_split, enqueue-IsQueue, dequeue-IsQueue, posts-append,
}

-- The contract: the request that is served, and who waits.
pub record Lines : Type 0 where
  pub served : Option Wrapper
  pub waiting_posts : List Wrapper
  pub waiting_polls : List Wrapper

abbrev pub empty_lines : Lines
empty_lines = record { served = none; waiting_posts = []; waiting_polls = [] }

-- A request is served at once where none is, and else goes to the end of its line.
abbrev pub join_behind : Option Wrapper → Wrapper → Lines → Lines
join_behind none w l = record l { served = some w }
join_behind (some head) w l =
    if is_post w.flags
    then record l { waiting_posts = l.waiting_posts ++ w ∷ [] }
    else record l { waiting_polls = l.waiting_polls ++ w ∷ [] }

abbrev pub join : Wrapper → Lines → Lines
join w l = join_behind l.served w l

-- The next to be served is the first post, or the first poll where no post waits.
abbrev pub next_of : List Wrapper → List Wrapper → Lines
next_of (w ∷ ps) qs = record { served = some w; waiting_posts = ps; waiting_polls = qs }
next_of [] (w ∷ qs) = record { served = some w; waiting_posts = []; waiting_polls = qs }
next_of [] [] = empty_lines

abbrev pub leave : Lines → Lines
leave l = next_of l.waiting_posts l.waiting_polls

abbrev pub listing : Lines → List Wrapper
listing l = elim l.served [ none ↦ [] | some w ↦ w ∷ (l.waiting_posts ++ l.waiting_polls) ]

-- What is done to a queue.
pub data Command : Type 0 where
  put_on : Wrapper → Command
  take_off : Command

unfoldable pub run_queue : List Command → List Wrapper → List Wrapper
run_queue [] q = q
run_queue (put_on w ∷ commands) q = run_queue commands (enqueue w q)
run_queue (take_off ∷ commands) q = run_queue commands (dequeue q)

unfoldable pub run_lines : List Command → Lines → Lines
run_lines [] l = l
run_lines (put_on w ∷ commands) l = run_lines commands (join w l)
run_lines (take_off ∷ commands) l = run_lines commands (leave l)

abbrev lines_of : List Wrapper → Lines
lines_of [] = empty_lines
lines_of (head ∷ q) = record {
  served = some head;
  waiting_posts = posts q;
  waiting_polls = polls q;
}

spliced_lines :
    (w : Wrapper) (q : List Wrapper)
    → is_post w.flags ≡ true
    → IsOrdered q
    → (posts (splice w q) ≡ posts q ++ w ∷ []) × (polls (splice w q) ≡ polls q)
unfolding splice
spliced_lines w [] p o = (ground (arith, p), ground (arith, p))
spliced_lines w (x ∷ q) p o = (
  ground (arith, spliced_lines w q p o.1, o.0, p),
  ground (arith, spliced_lines w q p o.1, o.0, p),
)

polls-append : (p q : List Wrapper) → polls (p ++ q) ≡ polls p ++ polls q
polls-append [] q = refl
polls-append (x ∷ p) q = ground (arith, polls-append p q)

joined :
    (w head : Wrapper) (q : List Wrapper) (is_post_w : Bool)
    → is_post w.flags ≡ is_post_w
    → IsOrdered q
    → lines_of (if is_post_w then head ∷ splice w q else head ∷ (q ++ w ∷ [])) ≡ (
        if is_post_w
        then record {
          served = some head;
          waiting_posts = posts q ++ w ∷ [];
          waiting_polls = polls q;
        }
        else record {
          served = some head;
          waiting_posts = posts q;
          waiting_polls = polls q ++ w ∷ [];
        })
joined w head q true e o =
    let (ps, qs) = spliced_lines w q e o in
    ap (λ l. record { served = some head; waiting_posts = l; waiting_polls = polls (splice w q) })
      ps
    ∙ ap (λ l. record { served = some head; waiting_posts = posts q ++ w ∷ []; waiting_polls = l })
        qs
joined w head q false e o =
    let ps : posts (q ++ w ∷ []) ≡ posts q =
      ground (arith, posts-append q (w ∷ []), e, append-nil (posts q)) in
    let qs : polls (q ++ w ∷ []) ≡ polls q ++ w ∷ [] = ground (arith, polls-append q (w ∷ []), e) in
    ap (λ l. record { served = some head; waiting_posts = l; waiting_polls = polls (q ++ w ∷ []) })
      ps
    ∙ ap (λ l. record { served = some head; waiting_posts = posts q; waiting_polls = l }) qs

enqueue_joins :
    (w : Wrapper) (q : List Wrapper) → IsQueue q → lines_of (enqueue w q) ≡ join w (lines_of q)
unfolding enqueue
enqueue_joins w [] o = refl
enqueue_joins w (head ∷ q) o = joined w head q (is_post w.flags) refl o

served_next :
    (x : Wrapper) (q : List Wrapper) (is_post_x : Bool)
    → (is_post_x ≡ false → posts q ≡ [])
    → record { served = some x; waiting_posts = posts q; waiting_polls = polls q }
      ≡ next_of
          (if is_post_x then x ∷ posts q else posts q)
          (if is_post_x then polls q else x ∷ polls q)
served_next x q true o = refl
served_next x q false o = rw (o refl) refl

dequeue_leaves : (q : List Wrapper) → IsQueue q → lines_of (dequeue q) ≡ leave (lines_of q)
unfolding dequeue
dequeue_leaves [] o = refl
dequeue_leaves (head ∷ []) o = refl
dequeue_leaves (head ∷ x ∷ q) o = served_next x q (is_post x.flags) o.0

listed : (q : List Wrapper) → IsQueue q → q ≡ listing (lines_of q)
listed [] o = refl
listed (head ∷ q) o = ap (λ r. head ∷ r) (ordered_split q o)

run_refines :
    (commands : List Command) (q : List Wrapper)
    → IsQueue q
    → run_queue commands q ≡ listing (run_lines commands (lines_of q))
unfolding run_queue run_lines
run_refines [] q o = listed q o
run_refines (put_on w ∷ commands) q o =
    run_refines commands (enqueue w q) (enqueue-IsQueue w q o)
    ∙ ap (λ l. listing (run_lines commands l)) (enqueue_joins w q o)
run_refines (take_off ∷ commands) q o =
    run_refines commands (dequeue q) (dequeue-IsQueue q o)
    ∙ ap (λ l. listing (run_lines commands l)) (dequeue_leaves q o)

-- The request queue does what its contract promises: after any sequence of requests put on it and heads taken off, it is the request that is served, then the posts that wait and then the polls that wait, where each of the two lines is served in the order of its arrivals and a poll only when no post waits.
pub queue_refines :
    (commands : List Command) → run_queue commands [] ≡ listing (run_lines commands empty_lines)
queue_refines commands = run_refines commands [] tt
