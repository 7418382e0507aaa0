-- ===== src/Round/Turn.antt =====
-- The slaves with deep inputs take turns.
use modbusmq.Base.{
  ℕ, zero, suc, ◌+◌, ◌%◌, ◌<◌, ◌≤◌, ◌≡◌, ◌≢◌, inl, inr, refl, ap, ◌∙◌, true, false, List, [], ◌∷◌,
  ◌++◌, length, get_or, some, ==_refl, arith, Bool-cases, ltb,
}
use modbusmq.Timer.{Timer}
use modbusmq.Round.{Rounds, contains, deep_order, turn_loop, next_turn, next_deep_slave}

abbrev pub IsDistinct : List ℕ → Type 0
IsDistinct [] = Unit
IsDistinct (x ∷ xs) = (contains x xs ≡ false) × IsDistinct xs

contains-append :
    (s x : ℕ) (xs : List ℕ) → contains s xs ≡ false → x ≢ s → contains s (xs ++ x ∷ []) ≡ false
contains-append s x [] h ne = ground arith
contains-append s x (y ∷ xs) h ne = ground (arith, contains-append s x xs)

append-IsDistinct :
    (x : ℕ) (xs : List ℕ) → contains x xs ≡ false → IsDistinct xs → IsDistinct (xs ++ x ∷ [])
append-IsDistinct x [] h d = (refl, tt)
append-IsDistinct x (y ∷ xs) h d =
    ground (arith, contains-append y x xs d.0, append-IsDistinct x xs)

deep_order_keeps :
    (now : ℕ) (ts : List Timer) (order : List ℕ)
    → IsDistinct order
    → IsDistinct (deep_order now ts order)
unfolding deep_order
deep_order_keeps now [] order d = d
deep_order_keeps now (t ∷ ts) order d =
    deep_order_keeps now ts _ (ground (arith, append-IsDistinct t.slave order))

-- No slave stands twice in the order of a round.
pub deep_order-IsDistinct : (now : ℕ) (ts : List Timer) → IsDistinct (deep_order now ts [])
deep_order-IsDistinct now ts = deep_order_keeps now ts [] tt

contains_get : (xs : List ℕ) (i : ℕ) → i < length xs → contains (get_or xs i 0) xs ≡ true
contains_get [] i h = absurd (omega arith)
contains_get (x ∷ xs) zero h = ground arith
contains_get (x ∷ xs) (suc i) h = ground (arith, contains_get xs i (omega arith))

get_or_ne :
    (xs : List ℕ) (i j : ℕ) → IsDistinct xs → j < i → i < length xs → get_or xs j 0 ≢ get_or xs i 0
get_or_ne [] i j d h k e = absurd (omega arith)
get_or_ne (x ∷ xs) zero j d h k e = absurd (omega arith)
get_or_ne (x ∷ xs) (suc i) zero d h k e = ground (arith, contains_get xs i (omega arith))
get_or_ne (x ∷ xs) (suc i) (suc j) d h k e = get_or_ne xs i j d.1 (omega arith) (omega arith) e

module _ (order : List ℕ) (d : IsDistinct order) where
  abbrev at : ℕ → ℕ
  at i = get_or order i 0

  abbrev after : ℕ → ℕ
  after i = (i + 1) % length order

  turn_found :
      (left j i : ℕ)
      → j ≤ i
      → i < j + left
      → i < length order
      → turn_loop order (some (at i)) left j ≡ some (at (after i))
  unfolding turn_loop
  turn_found zero j i h k l = absurd (omega arith)
  turn_found (suc left) j i h k l = elim (Bool-cases (ltb j i)) [
    | inl before ↦ ground (arith, get_or_ne order i j d, turn_found left (j + 1) i)
    | inr reached ↦ let e : j ≡ i = ground arith in rw (e, ==_refl (at i))
  ]

  pub next_turn_lem :
      (i : ℕ) → i < length order → next_turn order (some (at i)) ≡ some (at (after i))
  unfolding next_turn
  next_turn_lem i l = ground (arith, turn_found (length order) 0 i)

-- Where the deep slave that was read last is in the order of those that can be read now, the next
-- one is the one behind it, and the first again behind the last.
pub next_deep_slave_rotates :
    (now : ℕ) (r : Rounds) (i : ℕ)
    → let order = deep_order now r.timers [] in
      i < length order
      → r.round_deep_slave ≡ some (get_or order i 0)
      → next_deep_slave now r ≡ some (get_or order ((i + 1) % length order) 0)
unfolding next_deep_slave
next_deep_slave_rotates now r i l last =
    let order = deep_order now r.timers [] in
    ap (next_turn order) last ∙ next_turn_lem order (deep_order-IsDistinct now r.timers) i l
