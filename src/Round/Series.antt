-- ===== src/Round/Series.antt =====
-- The slaves with deep inputs take turns over a series of rounds.
use mathlib.Core.Path.{subst}
use native.Mathlib.Nat.{mod-eq_of_lt, mod-add-mod, add-mod_right}
use native.Mathlib.Decide.{dec_lt}
use modbusmq.Base.{
  ℕ, zero, suc, ◌+◌, ◌-◌, ◌%◌, ◌^◌, ◌<◌, ◌≤◌, ◌≡◌, refl, ap, ◌∙◌, arith, inl, inr, List, [], ◌∷◌,
  length, get_or, get_elem?, Option, none, some, Option-cases, Bool-cases, ◌==◌, true, false,
}
use modbusmq.Transport.{Transport}
use modbusmq.Timer.{Timer, Tier, fast, deep}
use modbusmq.Round.{
  Rounds, deep_order, turn_loop, next_turn, next_deep_slave, post_one, post_loop, round_post,
  post_deeps, post_focus, start_round, same_slave,
}
use modbusmq.Round.Turn.{IsDistinct, deep_order-IsDistinct, next_turn_lem}

-- Rounds that start one after another, with the slave that each chooses to read the deep inputs of.
-- All have the same `order` of slaves to choose from. Between two of them anything may happen, but
-- for the field that only a round sets.
pub data Series (t : Transport) (order : List ℕ) : Rounds → List (Option ℕ) → Type 0 where
  over : (r : Rounds) → Series t order r []
  round :
      (now : ℕ) (r r' : Rounds) (reads : List (Option ℕ))
      → deep_order now r.timers [] ≡ order
      → r'.round_deep_slave ≡ (start_round t now r).round_deep_slave
      → Series t order r' reads
      → Series t order r (next_deep_slave now r ∷ reads)

module _ (t : Transport) where
  post_one_last :
      (tier : Tier) (slave : Option ℕ) (now i : ℕ) (timer : Timer) (r : Rounds)
      → (post_one t tier slave now i timer r).round_deep_slave ≡ r.round_deep_slave
  unfolding post_one
  post_one_last tier slave now i timer r = ground arith

  post_loop_last :
      (tier : Tier) (slave : Option ℕ) (now left i : ℕ) (r : Rounds)
      → (post_loop t tier slave now left i r).round_deep_slave ≡ r.round_deep_slave
  unfolding post_loop
  post_loop_last tier slave now zero i r = refl
  post_loop_last tier slave now (suc left) i r = elim (Option-cases (get_elem? r.timers i)) [
    | inl gone ↦ rw (gone, post_loop) refl
    | inr (timer, found) ↦
        rw (found, post_loop)
          (post_loop_last tier slave now left (i + 1) (post_one t tier slave now i timer r)
            ∙ post_one_last tier slave now i timer r)
  ]

  round_post_last :
      (tier : Tier) (slave : Option ℕ) (now : ℕ) (r : Rounds)
      → (round_post t tier slave now r).round_deep_slave ≡ r.round_deep_slave
  unfolding round_post
  round_post_last tier slave now r = post_loop_last tier slave now (length r.timers) 0 r

  post_focus_last :
      (now : ℕ) (focus deep_slave : Option ℕ) (r : Rounds)
      → (post_focus t now focus deep_slave r).round_deep_slave ≡ r.round_deep_slave
  unfolding post_focus
  post_focus_last now none deep_slave r = refl
  post_focus_last now (some f) deep_slave r = elim (Bool-cases (same_slave (some f) deep_slave)) [
    | inl same ↦ rw same refl
    | inr other ↦ rw other (round_post_last deep (some f) now r)
  ]

  post_deeps_last :
      (now s : ℕ) (deep_slave : Option ℕ) (r : Rounds)
      → deep_slave ≡ some s
      → (post_deeps t now deep_slave r).round_deep_slave ≡ some s
  unfolding post_deeps
  post_deeps_last now s none r e = absurd (cc e)
  post_deeps_last now s (some x) r e = e

  -- A round stores the slave that it reads.
  start_round_last :
      (now s : ℕ) (r : Rounds)
      → next_deep_slave now r ≡ some s
      → (start_round t now r).round_deep_slave ≡ some s
  unfolding start_round
  start_round_last now s r e =
      let started : Rounds = record r {
        round_active = true;
        round_start_ms = now;
        round_count = (r.round_count + 1) % 2 ^ 32;
      } in
      let deep_slave = next_deep_slave now r in
      let deeps = post_deeps t now deep_slave (round_post t fast none now started) in
      post_focus_last now deeps.round_focus deep_slave deeps
      ∙ post_deeps_last now s deep_slave (round_post t fast none now started) e

module _ (order : List ℕ) where
  abbrev at : ℕ → ℕ
  at i = get_or order i 0

  abbrev IsOfOrder : Option ℕ → Type 0
  IsOfOrder slave = (j : ℕ) × (j < length order) × (slave ≡ some (at j))

  turn_somewhere :
      (last : Option ℕ) (left i : ℕ) → 0 < length order → IsOfOrder (turn_loop order last left i)
  unfolding turn_loop
  turn_somewhere last zero i h = (0, h, refl)
  turn_somewhere none (suc left) i h = turn_somewhere none left (i + 1) h
  turn_somewhere (some s) (suc left) i h = elim (Bool-cases (at i == s)) [
    | inl here ↦ rw here ((i + 1) % length order, omega (arith, h), refl)
    | inr other ↦ rw other (turn_somewhere (some s) left (i + 1) h)
  ]

  next_turn_somewhere : (last : Option ℕ) → 0 < length order → IsOfOrder (next_turn order last)
  unfolding next_turn
  next_turn_somewhere last h =
      let filled : (length order == 0) ≡ false = ground (arith, h) in
      rw filled (turn_somewhere last (length order) 0 h)

  -- The read of the round `m`, where that of the first is at `j`.
  reads_lem :
      (t : Transport) (d : IsDistinct order) {r : Rounds} {reads : List (Option ℕ)}
      → Series t order r reads
      → (j m : ℕ) → j < length order
      → next_turn order r.round_deep_slave ≡ some (at j)
      → m < length reads
      → get_or reads m none ≡ some (at ((j + m) % length order))
  unfolding next_deep_slave
  reads_lem t d (over r) j m hj first hm = absurd (omega (arith, hm))
  reads_lem t d (round now r r' reads same kept rest) j zero hj first hm =
      let e : (j + 0) % length order ≡ j = grind (arith, mod-eq_of_lt) in
      rw e (ap (λ o. next_turn o r.round_deep_slave) same ∙ first)
  reads_lem t d (round now r r' reads same kept rest) j (suc m) hj first hm =
      let last : r'.round_deep_slave ≡ some (at j) =
        kept
        ∙ start_round_last t now (at j) r (ap (λ o. next_turn o r.round_deep_slave) same ∙ first) in
      let next : next_turn order r'.round_deep_slave ≡ some (at ((j + 1) % length order)) =
        ap (next_turn order) last ∙ next_turn_lem order d j hj in
      let e : ((j + 1) % length order + m) % length order ≡ (j + suc m) % length order =
        mod-add-mod (j + 1) (length order) m ∙ ap (λ i. i % length order) (omega arith) in
      reads_lem t d rest ((j + 1) % length order) m (omega (arith, hj)) next (omega (arith, hm))
      ∙ ap (λ i. some (at i)) e

  -- Between 0 and the length there is a distance from each place to each, all around.
  distance :
      (j k : ℕ)
      → j < length order
      → k < length order
      → (m : ℕ) × (m < length order) × ((j + m) % length order ≡ k)
  distance j k hj hk = elim (dec_lt k j) [
    | yes behind ↦
        let there : j + (k + length order - j) ≡ k + length order = omega arith in
        (
          k + length order - j,
          omega arith,
          rw there (add-mod_right k (length order) ∙ mod-eq_of_lt hk),
        )
    | no ahead ↦
        let there : j + (k - j) ≡ k = omega arith in
        (k - j, omega arith, rw there (mod-eq_of_lt hk))
  ]

  Series-IsDistinct :
      {t : Transport} {r : Rounds} {reads : List (Option ℕ)}
      → Series t order r reads
      → 0 < length reads
      → IsDistinct order
  Series-IsDistinct (over r) some_round = absurd (omega (arith, some_round))
  Series-IsDistinct (round now r r' reads same kept rest) some_round =
      subst IsDistinct same (deep_order-IsDistinct now r.timers)

  -- Whatever slave had the last turn, and whatever happens between the rounds: each of the slaves
  -- with deep inputs that can be read is the one that modbusmq_round_next_deep_slave chooses for a
  -- round, within as many rounds as there are such slaves, provided that in these rounds the slaves
  -- and their order stay the same, and that only the rounds store the last slave.
  pub every_slave_has_turn :
      {t : Transport} {r : Rounds} {reads : List (Option ℕ)}
      → Series t order r reads
      → length order ≤ length reads
      → (k : ℕ) → k < length order
      → (m : ℕ) × (m < length order) × (get_or reads m none ≡ some (at k))
  every_slave_has_turn {t} {r} {reads} s enough k hk =
      let (j, hj, first) = next_turn_somewhere r.round_deep_slave (omega (arith, hk)) in
      let (m, hm, there) = distance j k hj hk in
      let d = Series-IsDistinct s (omega (arith, enough, hk)) in
      (
        m,
        hm,
        reads_lem t d s j m hj first (omega (arith, enough, hm)) ∙ ap (λ i. some (at i)) there,
      )
