-- ===== src/Exchange/Outcome.antt =====
-- What the results of a step of the exchange mean.
use mathlib.Core.Path.{subst, sym}
use modbusmq.Slave.{frame_delay_left}
use modbusmq.Transport.{Transport}
use modbusmq.Base.{◌≤◌, ◌≡◌, arith, ℤ, pos, ℕ, true, ◌⊎◌, ◌<◌, inl, sym, inr, refl}
use modbusmq.Frame.{Msg, Context, writer, reader, Frame, set_reader, set_writer, IsExchange}
use modbusmq.Exchange.{
  is_zero, pending, settle, at_least_one, read_answer, refused, wrote, Transport, Link, Ready,
  Frame, set_reader, awaiting, write_request, frame_delay_left, resync, write_frame, set_writer,
  before_write, handle_write_read, frame_incomplete,
}

-- Both frames have all of their bytes, and the answer has at least its header.
abbrev pub IsComplete : Context → Msg → Type 0
IsComplete c m =
    ((writer m).xmit ≡ (writer m).length)
    × ((reader m).xmit ≡ (reader m).length)
    × (c.res_header_min ≤ (reader m).length)

pending_zero : (c : Context) (m : Msg) → pending c m ≡ pos 0 → IsComplete c m
unfolding pending is_zero at_least_one
pending_zero c m e = ground arith

settle_zero : (c : Context) (rc : ℤ) (m : Msg) → settle c rc m ≡ pos 0 → IsComplete c m
unfolding settle is_zero
settle_zero c rc m e = ground (arith, pending_zero c m)

wrote_zero :
    (t : Transport) (l : Link) (rc : ℤ) (m : Msg)
    → (wrote t l rc m).0 ≡ pos 0
    → ((t.msg_broadcast m ≡ true)
        × ((writer m).xmit ≡ (writer m).length)
        × ((wrote t l rc m).2 ≡ m))
      ⊎ IsComplete l.context (wrote t l rc m).2
unfolding wrote
wrote_zero t l rc m e = ground (
  arith,
  settle_zero l.context rc m,
  settle_zero l.context rc (set_reader m (awaiting l.context)),
)

refused_zero :
    (t : Transport) (l : Link) (m : Msg)
    → (refused t l m).0 ≡ pos 0
    → IsComplete l.context (refused t l m).2
unfolding refused
refused_zero t l m e = ground (
  arith,
  pending_zero l.context (set_reader m (awaiting l.context)),
  pending_zero l.context (set_reader m (t.frame_drain l.context (reader m)).1),
)

read_zero :
    (t : Transport) (now : ℕ) (ready : Ready) (read : Frame → ℤ × Frame) (l : Link) (m : Msg)
    → (read_answer t now ready read l m).0 ≡ pos 0
    → IsComplete l.context (read_answer t now ready read l m).2
unfolding read_answer
read_zero t now ready read l m e =
    let m' = set_reader m (read (reader m)).1 in
    let m'' = (t.msg_check_header l.context m').1 in
    ground (
      arith,
      pending_zero l.context m,
      pending_zero l.context m'',
      settle_zero l.context (read (reader m)).0 m'',
      refused_zero t (record l { last_read_ms = now }) m'',
    )

-- The device is to be left alone for a while yet, and nothing of the request has been written.
abbrev pub IsGap : ℕ → Link → Msg → Type 0
IsGap now l m = ((writer m).xmit ≡ 0) × (0 < frame_delay_left l.frame_delay_ms l.last_read_ms now)

-- A broadcast that has been written.
abbrev pub IsBroadcast : Transport → Msg → Type 0
IsBroadcast t m = (t.msg_broadcast m ≡ true) × ((writer m).xmit ≡ (writer m).length)

before_write_context : (now : ℕ) (l : Link) (w : Frame) → (before_write now l w).context ≡ l.context
unfolding before_write resync
before_write_context now l w = ground arith

module _ (t : Transport) (now : ℕ) (ready : Ready) (sent : ℤ) (l : Link) (m : Msg) where
  abbrev written : ℤ × Link × Msg
  written =
      wrote t (before_write now l (writer m)) (write_frame sent (writer m)).0
        (set_writer m (write_frame sent (writer m)).1)

  write_cases :
      (write_request t now ready sent l m ≡ (pending l.context m, l, m))
      ⊎ (IsGap now l m × (write_request t now ready sent l m ≡ (pos 0, l, m)))
      ⊎ (write_request t now ready sent l m ≡ written)
  unfolding write_request
  write_cases = ground arith

  abbrev IsExplained : ℤ × Link × Msg → Type 0
  IsExplained res =
      res.0 ≡ pos 0 → IsGap now l m × (res.2 ≡ m) ⊎ IsBroadcast t res.2 ⊎ IsComplete l.context res.2

  written-IsExplained : IsExplained written
  written-IsExplained e = ground (
    arith,
    before_write_context now l (writer m),
    wrote_zero t (before_write now l (writer m)) (write_frame sent (writer m)).0
        (set_writer m (write_frame sent (writer m)).1),
  )

  write-IsExplained : IsExplained (write_request t now ready sent l m)
  write-IsExplained = elim write_cases [
    | inl waits ↦ subst IsExplained (sym waits) (λ e. inr (inr (pending_zero l.context m e)))
    | inr (inl (gap, same)) ↦ subst IsExplained (sym same) (λ e. inl (gap, refl))
    | inr (inr goes) ↦ subst IsExplained (sym goes) written-IsExplained
  ]

  module _ (read : Frame → ℤ × Frame) (x : IsExchange m)
      (sized : 0 < l.context.res_header_min) where
    abbrev step : ℤ × Link × Msg
    step = handle_write_read t now ready sent read l m

    handle_cases :
        (step ≡ write_request t now ready sent l m)
        ⊎ (step ≡ read_answer t now ready read l m)
        ⊎ ((step ≡ (pos 0, l, m)) × IsComplete l.context m)
    unfolding handle_write_read frame_incomplete
    handle_cases = ground (arith, x)

    explained : IsExplained step
    explained = elim handle_cases [
      | inl writes ↦ subst IsExplained (sym writes) write-IsExplained
      | inr (inl reads) ↦
          subst IsExplained (sym reads) (λ e. inr (inr (read_zero t now ready read l m e)))
      | inr (inr (done, whole)) ↦ subst IsExplained (sym done) (λ e. inr (inr whole))
    ]

    -- With a least header that is not 0, a step returns 0 only where nothing is left to be done: in
    -- the pause before a request of which nothing has been written, with the message as it was; when
    -- a broadcast is written; or when the request is written and the answer read, both to their
    -- length, and the answer has at least its least header.
    pub handle_write_read_zero :
        step.0 ≡ pos 0
        → IsGap now l m × (step.2 ≡ m) ⊎ IsBroadcast t step.2 ⊎ IsComplete l.context step.2
    handle_write_read_zero = explained
