-- ===== src/Round.antt =====
-- `input.query_mode = rounds` of lib/modbusmq.c: which polls a round queues, when a round is over
-- and when the next one starts. The calls of `millitime` in one pass give one time, `now`; times
-- are far below 2 ^ 64. -1 for a slave is `none`.
pub mod Series
pub mod Turn
pub mod Start
pub mod Posts
use modbusmq.Base.{
  ℕ, zero, suc, ◌+◌, ◌-◌, ◌%◌, ◌^◌, Bool, true, false, ◌&&◌, ◌||◌, not, List, [], ◌∷◌, ◌++◌, length,
  get_or, get_elem?, Option, none, some, ◌==◌, ltb, leb, if◌then◌else◌, ℤ, pos, negsuc,
}
use modbusmq.Frame.{Context, Msg}
use modbusmq.Transport.{Transport}
use modbusmq.Queue.{Flags, subscribe, is_post, Wrapper, Outbox, post_internal}
use modbusmq.Timer.{Tier, fast, deep, is_deep, Timer, never}
use modbusmq.Slave.{slave_gate, lesser}

pub record Rounds : Type 0 where
  pub outbox : Outbox
  pub timers : List Timer
  pub round_active : Bool
  pub round_start_ms : ℕ
  pub round_count : ℕ
  pub round_last_ms : ℕ
  pub round_deep_slave : Option ℕ
  pub round_focus : Option ℕ
  pub round_interval_ms : ℕ

-- `modbusmq_round_busy`
unfoldable pub round_busy : List Wrapper → Bool
round_busy [] = false
round_busy (w ∷ q) = if not (is_post w.flags) then true else round_busy q

abbrev pub contains : ℕ → List ℕ → Bool
contains s [] = false
contains s (x ∷ xs) = if x == s then true else contains s xs

-- The first loop of `modbusmq_round_next_deep_slave`; what `seen` marks is what `order` holds.
unfoldable pub deep_order : ℕ → List Timer → List ℕ → List ℕ
deep_order now [] order = order
deep_order now (t ∷ ts) order =
    let skip =
      not (is_deep t.tier)
      || ltb 255 t.slave
      || contains t.slave order
      || t.unresponsive && ltb now t.retry_at in
    deep_order now ts (if skip then order else order ++ t.slave ∷ [])

-- The second loop, at index `i`, with `left` rounds to go.
unfoldable pub turn_loop : List ℕ → Option ℕ → ℕ → ℕ → Option ℕ
turn_loop order last zero i = some (get_or order 0 0)
turn_loop order last (suc left) i =
    let rest = turn_loop order last left (i + 1) in
    elim last [
      | none ↦ rest
      | some s ↦
          if get_or order i 0 == s then some (get_or order ((i + 1) % length order) 0) else rest
    ]

unfoldable pub next_turn : List ℕ → Option ℕ → Option ℕ
unfolding turn_loop
next_turn order last = if length order == 0 then none else turn_loop order last (length order) 0

-- `modbusmq_round_next_deep_slave`
unfoldable pub next_deep_slave : ℕ → Rounds → Option ℕ
next_deep_slave now r = next_turn (deep_order now r.timers []) r.round_deep_slave

-- The message template of timer `i`.
unfoldable pub set_msg : List Timer → ℕ → Msg → List Timer
set_msg [] i m = []
set_msg (t ∷ ts) zero m = record t { msg = m } ∷ ts
set_msg (t ∷ ts) (suc i) m = t ∷ set_msg ts i m

-- `elem->tier != tier || (slave >= 0 && elem->slave != slave)`
abbrev pub is_chosen : Tier → Option ℕ → Timer → Bool
is_chosen tier slave t =
    (if is_deep tier then is_deep t.tier else not (is_deep t.tier))
    && elim slave [ none ↦ true | some s ↦ t.slave == s ]

-- The body of the loop of `modbusmq_round_post`, for timer `i`.
unfoldable pub post_one : Transport → Tier → Option ℕ → ℕ → ℕ → Timer → Rounds → Rounds
post_one t tier slave now i timer r =
    if not (is_chosen tier slave timer)
    then r
    else if timer.is_once && timer.timer_next_time == never
    then r
    else (let (pass, timers) = slave_gate timer now r.timers in
        if not pass
        then r
        else (let (outbox, msg) =
              post_internal t r.outbox (record timer.msg { msg_id = timer.timer_id }) subscribe in
            record r { outbox = outbox; timers = set_msg timers i msg }))

unfoldable pub post_loop : Transport → Tier → Option ℕ → ℕ → ℕ → ℕ → Rounds → Rounds
post_loop t tier slave now zero i r = r
post_loop t tier slave now (suc left) i r = elim (get_elem? r.timers i) [
  | none ↦ r
  | some timer ↦ post_loop t tier slave now left (i + 1) (post_one t tier slave now i timer r)
]

-- `modbusmq_round_post`
unfoldable pub round_post : Transport → Tier → Option ℕ → ℕ → Rounds → Rounds
round_post t tier slave now r = post_loop t tier slave now (length r.timers) 0 r

-- The first part of `modbusmq_loop_prepare_rounds`: a round with no poll left is over.
unfoldable pub finish_round : ℕ → Rounds → Rounds
finish_round now r =
    if r.round_active && not (round_busy r.outbox.queue)
    then record r { round_active = false; round_last_ms = now - r.round_start_ms }
    else r

abbrev pub same_slave : Option ℕ → Option ℕ → Bool
same_slave none none = true
same_slave (some a) (some b) = a == b
same_slave _ _ = false

-- `if (deep_slave >= 0)`
unfoldable pub post_deeps : Transport → ℕ → Option ℕ → Rounds → Rounds
post_deeps t now none r = r
post_deeps t now (some s) r = record (round_post t deep (some s) now r) {
  round_deep_slave = some s;
}

-- `if (context->round_focus >= 0 && context->round_focus != deep_slave)`
unfoldable pub post_focus : Transport → ℕ → Option ℕ → Option ℕ → Rounds → Rounds
post_focus t now none deep_slave r = r
post_focus t now (some f) deep_slave r =
    if same_slave (some f) deep_slave then r else round_post t deep (some f) now r

-- What a round queues.
unfoldable pub start_round : Transport → ℕ → Rounds → Rounds
start_round t now r =
    let deep_slave = next_deep_slave now r in
    let started = record r {
      round_active = true;
      round_start_ms = now;
      round_count = (r.round_count + 1) % 2 ^ 32;
    } in
    let deeps = post_deeps t now deep_slave (round_post t fast none now started) in
    post_focus t now deeps.round_focus deep_slave deeps

-- `modbusmq_loop_prepare_rounds`, with the sleep in and out.
unfoldable pub loop_prepare_rounds : Transport → ℕ → ℕ → Rounds → ℕ × Rounds
loop_prepare_rounds t now sleep_time r =
    let millisleep = if ltb 0 sleep_time then sleep_time else 1000 in
    let r' = finish_round now r in
    let due = r'.round_start_ms + r'.round_interval_ms in
    if not r'.round_active && not (length r'.timers == 0)
    then (if leb due now
        then (millisleep, start_round t now r')
        else (lesser millisleep (due - now), r'))
    else (millisleep, r')

abbrev pub has_deep : ℕ → List Timer → Bool
has_deep s [] = false
has_deep s (t ∷ ts) = if is_deep t.tier && t.slave == s then true else has_deep s ts

-- `modbusmq_set_focus`: `rounds` is whether the mode is rounds, and the result 0 or -1.
unfoldable pub set_focus : Bool → Option ℕ → Rounds → ℤ × Rounds
set_focus rounds slave r = if not rounds then (negsuc 0, r) else elim slave [
  | none ↦ (pos 0, record r { round_focus = none })
  | some s ↦
      if has_deep s r.timers then (pos 0, record r { round_focus = some s }) else (negsuc 0, r)
]

-- `modbusmq_module_slave`, with `module_count` and `module_slave_first` of the configuration.
unfoldable pub module_slave : ℕ → ℕ → ℕ → ℤ
module_slave module_count module_slave_first index =
    if leb module_count index then negsuc 0 else pos (module_slave_first + index)
