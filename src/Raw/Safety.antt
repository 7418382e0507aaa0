-- ===== src/Raw/Safety.antt =====
-- What a raw request may put on the wire, and that a refusal changes nothing.
use modbusmq.Queue.{post_msg, post_internal, next_req_id}
use modbusmq.Loop.{Loop}
use modbusmq.Build.{
  frame_read_coil_bits, frame_read_input_bits, frame_read_holding_registers,
  frame_read_input_registers,
}
use modbusmq.Frame.{Frame, Context, Msg, cleared}
use modbusmq.Transport.{Transport}
use mathlib.Core.Path.{ap, sym}
use modbusmq.Base.{
  ℕ, ◌≡◌, arith, ℤ, Bool, false, ◌⊎◌, ◌<◌, inl, ◌≤◌, true, inr, refl, List, ◌∷◌, [], Bool-cases,
  leb, ◌&&◌, none, ◌==◌, ◌||◌, ◌≢◌, some, ap, pos, negsuc, sym, ◌∙◌, Option,
}
use modbusmq.Raw.{
  refused, accepted, Request, Result, Frame, Transport, Reason, read_takes_one_count, read_frame,
  built_frame, frame_read_coil_bits, request_frame, parsed_frame, raw_frame, Loop, write_frame_of,
  raw_request, is_within, post_raw, post_msg, magnitude, broadcast_needs_raw_write,
  slave_or_addr_outside, write_needs_raw_write, fc_unknown, parse, if_free, busy,
}

-- A request of one of the four functions that read, to one slave and no broadcast.
abbrev pub IsRead : Transport → Context → Frame → Type 0
IsRead t c f =
    (slave : ℕ) × (addr : ℕ) × (count : ℕ) × (0 < slave)
    × (slave ≤ 247)
    × ((f ≡ t.read_coil_bits (record c { slave_id = slave }) addr count)
        ⊎ (f ≡ t.read_input_bits (record c { slave_id = slave }) addr count)
        ⊎ (f ≡ t.read_holding_registers (record c { slave_id = slave }) addr count)
        ⊎ (f ≡ t.read_input_registers (record c { slave_id = slave }) addr count))

abbrev pub message : Frame → Msg
message f = record { msg_id = 0; req_id = 0; first = f; second = cleared }

result_cases :
    {A : Type 0} (r : Result A)
    → ((reason : Reason) × (r ≡ refused reason)) ⊎ ((a : A) × (r ≡ accepted a))
result_cases (refused reason) = inl (reason, refl)
result_cases (accepted a) = inr (a, refl)

-- The value that is accepted, or the default.
abbrev value : {A : Type 0} → A → Result A → A
value d (refused reason) = d
value d (accepted a) = a

abbrev is_accepted : {A : Type 0} → Result A → Bool
is_accepted (refused reason) = false
is_accepted (accepted a) = true

module _ (t : Transport) (c : Context) where
  abbrev Reads : Context → ℕ → ℕ → Result Frame → Type 0
  Reads c addr count r =
      (r ≡ refused read_takes_one_count)
      ⊎ ((r ≡ accepted (t.read_coil_bits c addr count))
          ⊎ (r ≡ accepted (t.read_input_bits c addr count))
          ⊎ (r ≡ accepted (t.read_holding_registers c addr count))
          ⊎ (r ≡ accepted (t.read_input_registers c addr count)))

  read_frame_cases :
      (fc addr : ℕ) (values : List ℕ)
      → (count : ℕ) × Reads c addr count (read_frame t c fc addr values)
  unfolding read_frame built_frame frame_read_coil_bits frame_read_input_bits
      frame_read_holding_registers frame_read_input_registers
  read_frame_cases fc addr [] = (0, inl refl)
  read_frame_cases fc addr (count ∷ []) = (count, ground arith)
  read_frame_cases fc addr (count ∷ other ∷ more) = (0, inl refl)

within_most : (m n : ℕ) (a b : ℤ) → is_within m a && is_within n b ≡ true → magnitude a ≤ m
within_most m n (pos v) b e = ground (arith, e)
within_most m n (negsuc v) b e = ground (arith, e)

module _ (t : Transport) (c : Context) where
  -- What a request without leave to write comes to.
  abbrev Outcome : Result Frame → Type 0
  Outcome r = (f : Frame) → r ≡ accepted f → IsRead t c f

  refused-Outcome : (reason : Reason) → Outcome (refused reason)
  refused-Outcome reason f e = ground (arith, e)

  read-Outcome :
      (slave fc addr : ℕ) (values : List ℕ)
      → 0 < slave
      → slave ≤ 247
      → Outcome (read_frame t (record c { slave_id = slave }) fc addr values)
  read-Outcome slave fc addr values some_slave most f e =
      let c' = record c { slave_id = slave } in
      let (count, cases) = read_frame_cases t c' fc addr values in
      let same : (x : Frame) → read_frame t c' fc addr values ≡ accepted x → f ≡ x =
        λ x a. ap (value f) (sym e ∙ a) in
      (
        slave,
        addr,
        count,
        some_slave,
        most,
        elim cases [
          | inl refusal ↦ absurd (ground (arith, sym refusal ∙ e))
          | inr (inl a) ↦ inl (same _ a)
          | inr (inr (inl a)) ↦ inr (inl (same _ a))
          | inr (inr (inr (inl a))) ↦ inr (inr (inl (same _ a)))
          | inr (inr (inr (inr a))) ↦ inr (inr (inr (same _ a)))
        ],
      )

  raw-Outcome :
      (behind : ℕ → ℕ) (slave fc addr : ℕ) (values : List ℕ)
      → 0 < slave
      → slave ≤ 247
      → Outcome (raw_frame t behind false (record c { slave_id = slave }) fc addr values)
  unfolding raw_frame write_frame_of
  raw-Outcome behind slave fc addr values some_slave most =
      elim (Bool-cases (leb 1 fc && leb fc 4)) [
        | inl reads ↦ rw reads (read-Outcome slave fc addr values some_slave most)
        | inr other ↦ rw other (elim (Bool-cases (fc == 5 || fc == 6 || fc == 15 || fc == 16)) [
          | inl writes ↦ rw writes (refused-Outcome write_needs_raw_write)
          | inr unknown ↦ rw unknown (refused-Outcome fc_unknown)
        ])
      ]

  request-Outcome : (behind : ℕ → ℕ) (q : Request) → Outcome (request_frame t behind false c q)
  unfolding request_frame
  request-Outcome behind q = elim (Bool-cases (is_within 247 q.slave && is_within 0xffff q.addr)) [
    | inl inside ↦ rw inside (elim (Bool-cases (magnitude q.slave == 0)) [
      | inl broadcast ↦ rw broadcast (refused-Outcome broadcast_needs_raw_write)
      | inr single ↦ rw single (
          raw-Outcome behind (magnitude q.slave) (magnitude q.fc) (magnitude q.addr) q.values
            (ground (arith, single)) (within_most 247 0xffff q.slave q.addr inside))
    ])
    | inr outside ↦ rw outside (refused-Outcome slave_or_addr_outside)
  ]

  parsed-Outcome : (behind : ℕ → ℕ) (r : Result Request) → Outcome (parsed_frame t behind false c r)
  unfolding parsed_frame
  parsed-Outcome behind (refused reason) = refused-Outcome reason
  parsed-Outcome behind (accepted q) = request-Outcome behind q

if_free_cases :
    (o : Option ℕ) (result : Option Reason × Loop) (l : Loop)
    → (if_free o result l ≡ (some busy, l)) ⊎ ((o ≡ none) × (if_free o result l ≡ result))
unfolding if_free
if_free_cases (some id) result l = inl refl
if_free_cases none result l = inr (refl, refl)

post_refused :
    (t : Transport) (l : Loop) (r : Result Frame) (reason : Reason)
    → r ≡ refused reason
    → post_raw t r l ≡ (some reason, l)
unfolding post_raw
post_refused t l r reason e = rw e refl

module _ (t : Transport) (strtol : List ℕ → ℤ × ℕ) (behind : ℕ → ℕ) (writes : Bool) (text : List ℕ)
    (l : Loop) where
  -- A raw request is refused, and nothing changes; or its frame is posted.
  pub raw_request_cases :
      ((reason : Reason) × (raw_request t strtol behind writes text l ≡ (some reason, l)))
      ⊎ ((f : Frame) × (l.raw ≡ none)
          × (parsed_frame t behind writes l.rounds.outbox.context (parse strtol text) ≡ accepted f)
          × (raw_request t strtol behind writes text l ≡ post_raw t (accepted f) l))
  unfolding raw_request
  raw_request_cases =
      let r = parsed_frame t behind writes l.rounds.outbox.context (parse strtol text) in
      elim (if_free_cases l.raw (post_raw t r l) l) [
        | inl flying ↦ inl (busy, flying)
        | inr (free, goes) ↦ elim (result_cases r) [
          | inl (reason, e) ↦ inl (reason, goes ∙ post_refused t l r reason e)
          | inr (f, e) ↦ inr (f, free, e, goes ∙ ap (λ k. post_raw t k l) e)
        ]
      ]

  -- A raw request that is refused leaves the context as it was, and one that comes while another is
  -- in flight is refused; one that is posted is the one in flight then, under the id that it was
  -- stamped with.
  pub raw_request_one_at_a_time :
      let (reason, l') = raw_request t strtol behind writes text l in
      ((reason ≢ none) × (l' ≡ l))
      ⊎ ((reason ≡ none)
          × (l.raw ≡ none)
          × (l'.raw ≡ some (next_req_id l.rounds.outbox.req_id_next))
          × (l'.rounds.outbox.req_id_next ≡ next_req_id l.rounds.outbox.req_id_next))
  unfolding post_raw post_msg post_internal
  raw_request_one_at_a_time = elim raw_request_cases [
    | inl (reason, e) ↦
        inl (λ none_given. ground (arith, sym (ap (λ p. p.0) e) ∙ none_given), ap (λ p. p.1) e)
    | inr (f, free, built, e) ↦
        inr (ap (λ p. p.0) e, free, ap (λ p. p.1.raw) e, ap (λ p. p.1.rounds.outbox.req_id_next) e)
  ]

module _ (t : Transport) (strtol : List ℕ → ℤ × ℕ) (behind : ℕ → ℕ) (text : List ℕ) (l : Loop) where
  -- Where `raw_write` is not set, a raw request that is posted is a read of coils, inputs or
  -- registers from one slave, 1 to 247, and the post of that message is all that the queue sees of
  -- it; whatever the text, and whatever strtol makes of it.
  pub raw_request_reads :
      (raw_request t strtol behind false text l).0 ≡ none
      → (f : Frame) × IsRead t l.rounds.outbox.context f
        × ((raw_request t strtol behind false text l).1.rounds.outbox
            ≡ (post_msg t l.rounds.outbox (message f)).0)
  unfolding post_raw
  raw_request_reads done = elim (raw_request_cases t strtol behind false text l) [
    | inl (reason, e) ↦ absurd (ground (arith, sym (ap (λ p. p.0) e) ∙ done))
    | inr (f, free, built, e) ↦ (
      f,
      parsed-Outcome t l.rounds.outbox.context behind (parse strtol text) f built,
      ap (λ p. p.1.rounds.outbox) e,
    )
  ]
