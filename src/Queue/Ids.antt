-- ===== src/Queue/Ids.antt =====
-- The ids that are stamped on requests.
use modbusmq.Queue.Stamps.{IsStamped, count}
use modbusmq.Base.{
  ℕ, suc, zero, ◌+◌, ◌%◌, ◌^◌, ◌<◌, ◌≡◌, ◌≢◌, arith, ◌-◌, List, length, ◌∷◌, ◌≤◌, ◌∙◌, Bool-cases,
  ap, ◌==◌, inl, sym, ==→eq, [], inr, refl,
}
use modbusmq.Queue.{next_req_id}

-- A request is never stamped 0, which stands for one that was not stamped, and the id fits 32 bits.
pub next_req_id_lem : (last : ℕ) → (0 < next_req_id last) × (next_req_id last < 2 ^ 32)
unfolding next_req_id
next_req_id_lem last = ground arith

-- The id behind `n` requests more.
abbrev pub ids_on : ℕ → ℕ → ℕ
ids_on zero last = last
ids_on (suc n) last = next_req_id (ids_on n last)

ids_on_lem :
    (n last : ℕ)
    → 0 < last
    → last < 2 ^ 32
    → ids_on n last ≡ (last + n + (2 ^ 32 - 2)) % (2 ^ 32 - 1) + 1
unfolding next_req_id
ids_on_lem zero last p h = omega arith
ids_on_lem (suc n) last p h = ground (arith, ids_on_lem n last p h)

-- From an id that was stamped, the next 4294967294 requests get other ids than it.
pub ids_differ :
    (n last : ℕ) → 0 < last → last < 2 ^ 32 → 0 < n → n < 2 ^ 32 - 1 → ids_on n last ≢ last
ids_differ n last p h later near e = omega (arith, ids_on_lem n last p h)

next_on : (n x : ℕ) → next_req_id (ids_on n x) ≡ ids_on (n + 1) x
next_on n x = let e : n + 1 ≡ suc n = omega arith in rw e

fresh :
    (last latest n x : ℕ) (ids : List ℕ)
    → IsStamped last ids latest
    → last ≡ ids_on n x
    → 0 < x
    → x < 2 ^ 32
    → n + length ids < 2 ^ 32 - 1
    → count x ids ≡ 0
fresh last latest n x [] s e p h near = refl
fresh last latest n x (id ∷ ids) (first, s) e p h near =
    let here : id ≡ ids_on (n + 1) x = first ∙ ap next_req_id e ∙ next_on n x in
    let differs : id ≢ x =
      λ same. ids_differ (n + 1) x p h (omega arith) (omega arith) (sym here ∙ same) in
    ground (arith, fresh id latest (n + 1) x ids s here p h (omega arith))

-- Among fewer than 4294967295 ids that are stamped one after another, none stands twice.
pub stamped_once :
    (last latest x : ℕ) (ids : List ℕ)
    → IsStamped last ids latest
    → length ids < 2 ^ 32 - 1
    → count x ids ≤ 1
stamped_once last latest x [] s near = omega arith
stamped_once last latest x (id ∷ ids) (first, s) near =
    let bounds = next_req_id_lem last in
    let rest = stamped_once id latest x ids s (omega arith) in
    elim (Bool-cases (id == x)) [
      | inl same ↦
          let e : id ≡ x = ==→eq id x same in
          let none_left : count x ids ≡ 0 =
            fresh id latest 0 x ids s e (omega (arith, bounds, first))
              (omega (arith, bounds, first)) (omega arith) in
          ground (arith, none_left)
      | inr other ↦ ground (arith, rest)
    ]
