-- ===== src/Raw.antt =====
-- `modbusmq_raw_request` of lib/modbusmq.c, and the parser of its text. A text is the list of its
-- characters. `strtol` with base 0 is an argument: of a text that begins with no blank it gives the
-- value and the number of characters that it took. The line of reply is its reason here; memory for
-- it is assumed to be there.
pub mod Coils
pub mod Safety
use modbusmq.Queue.{post_msg}
use modbusmq.Loop.{Loop}
use modbusmq.Build.{
  frame_write_coil_bit, frame_read_coil_bits, frame_read_input_bits, frame_write_register,
  frame_read_holding_registers, frame_write_coil_bits, frame_write_registers,
  frame_read_input_registers,
}
use modbusmq.Transport.{Transport}
use modbusmq.Base.{
  ℕ, ◌+◌, ◌*◌, Bool, true, false, ◌&&◌, ◌||◌, not, List, [], ◌∷◌, length, Option, none, some, ◌==◌,
  ltb, leb, if◌then◌else◌, ℤ, pos, negsuc, ◌-◌, suc, get_or, zero,
}
use modbusmq.Frame.{Frame, Context, cleared}

-- Why a request is refused.
pub data Reason : Type 0 where
  busy expected_slave_fc_addr more_than_123_values value_outside_16_bits not_a_number : Reason
  slave_or_addr_outside broadcast_needs_raw_write read_takes_one_count : Reason
  write_needs_raw_write values_do_not_fit fc_unknown frame_not_built : Reason

pub data Result {ℓ} (A : Type ℓ) : Type ℓ where
  refused : Reason → Result A
  accepted : A → Result A

-- A number of a raw request, and what follows it.
pub data Number : Type 0 where
  parsed : ℤ → List ℕ → Number
  ended garbled : Number

abbrev is_blank : ℕ → Bool
is_blank c = c == 32 || c == 9

-- `p += strspn(p, " \t")`
unfoldable pub skip_blanks : List ℕ → List ℕ
skip_blanks [] = []
skip_blanks (c ∷ cs) = if is_blank c then skip_blanks cs else c ∷ cs

-- `p += strcspn(p, " \t")`
unfoldable pub skip_word : List ℕ → List ℕ
skip_word [] = []
skip_word (c ∷ cs) = if is_blank c then c ∷ cs else skip_word cs

-- `start = text + strspn(text, " \t\r\n")`
abbrev is_space : ℕ → Bool
is_space c = is_blank c || c == 13 || c == 10

unfoldable pub trim_start : List ℕ → List ℕ
trim_start [] = []
trim_start (c ∷ cs) = if is_space c then trim_start cs else c ∷ cs

abbrev is_empty : List ℕ → Bool
is_empty [] = true
is_empty (c ∷ cs) = false

-- The loop that shortens `n`.
unfoldable pub trim_end : List ℕ → List ℕ
trim_end [] = []
trim_end (c ∷ cs) = let rest = trim_end cs in if is_space c && is_empty rest then [] else c ∷ rest

abbrev ends_number : List ℕ → Bool
ends_number [] = true
ends_number (c ∷ cs) = is_blank c

unfoldable pub drop : ℕ → List ℕ → List ℕ
drop zero cs = cs
drop (suc n) [] = []
drop (suc n) (c ∷ cs) = drop n cs

-- `modbusmq_raw_number`
unfoldable pub raw_number : (List ℕ → ℤ × ℕ) → List ℕ → Number
raw_number strtol p =
    let text = skip_blanks p in
    let (value, used) = strtol text in
    if is_empty text
    then ended
    else if used == 0 || not (ends_number (drop used text))
    then garbled
    else parsed value (drop used text)

-- `value < -32768 || value > 0xFFFF`, and else `(uint16_t)value`.
unfoldable pub word_of : ℤ → Option ℕ
word_of (pos v) = if ltb 0xffff v then none else some v
word_of (negsuc v) = if ltb 32767 v then none else some (0xffff - v)

unfoldable pub prepend : ℕ → Result (List ℕ) → Result (List ℕ)
prepend v (refused reason) = refused reason
prepend v (accepted vs) = accepted (v ∷ vs)

-- The loop over the values, with room for `left` more.
unfoldable pub raw_values : (List ℕ → ℤ × ℕ) → ℕ → List ℕ → Result (List ℕ)
raw_values strtol zero p = elim (raw_number strtol p) [
  | parsed v rest ↦ refused more_than_123_values
  | ended ↦ accepted []
  | garbled ↦ refused not_a_number
]
raw_values strtol (suc left) p = elim (raw_number strtol p) [
  | parsed v rest ↦ elim (word_of v) [
    | none ↦ refused value_outside_16_bits
    | some word ↦ prepend word (raw_values strtol left rest)
  ]
  | ended ↦ accepted []
  | garbled ↦ refused not_a_number
]

-- What a request asks for.
pub record Request : Type 0 where
  pub slave : ℤ
  pub fc : ℤ
  pub addr : ℤ
  pub values : List ℕ

unfoldable pub with_values : ℤ → ℤ → ℤ → Result (List ℕ) → Result Request
with_values slave fc addr (refused reason) = refused reason
with_values slave fc addr (accepted values) =
    accepted (record { slave = slave; fc = fc; addr = addr; values = values })

-- `slave fc addr`, and the values.
unfoldable pub parse_fields : (List ℕ → ℤ × ℕ) → List ℕ → Result Request
parse_fields strtol p = elim (raw_number strtol p) [
  | parsed slave p1 ↦ elim (raw_number strtol p1) [
    | parsed fc p2 ↦ elim (raw_number strtol p2) [
      | parsed addr p3 ↦ with_values slave fc addr (raw_values strtol 123 p3)
      | _ ↦ refused expected_slave_fc_addr
    ]
    | _ ↦ refused expected_slave_fc_addr
  ]
  | _ ↦ refused expected_slave_fc_addr
]

-- The whole text: trimmed, and a tag that begins with `@` is stepped over.
unfoldable pub parse : (List ℕ → ℤ × ℕ) → List ℕ → Result Request
parse strtol text = elim (trim_end (trim_start text)) [
  | [] ↦ parse_fields strtol []
  | c ∷ cs ↦ parse_fields strtol (if c == 64 then skip_word (c ∷ cs) else c ∷ cs)
]

abbrev is_within : ℕ → ℤ → Bool
is_within limit (pos v) = leb v limit
is_within limit (negsuc v) = false

abbrev magnitude : ℤ → ℕ
magnitude (pos v) = v
magnitude (negsuc v) = 0

-- The `uint8_t bits[16]` of function 15, eight values a byte; what stands behind it on the stack is
-- `behind`.
unfoldable pub pack_values : List ℕ → ℕ → ℕ → ℕ
pack_values values zero i = 0
pack_values values (suc left) i =
    (if get_or values i 0 == 0 then 0 else 1) + 2 * pack_values values left (i + 1)

unfoldable pub raw_bits : (ℕ → ℕ) → List ℕ → ℕ → ℕ
raw_bits behind values i = if ltb i 16 then pack_values values 8 (i * 8) else behind (i - 16)

-- A built frame, or the -1 of its builder.
unfoldable pub built_frame : ℤ × Frame → Result Frame
built_frame (pos n, f) = accepted f
built_frame (negsuc n, f) = refused frame_not_built

-- Functions 1 to 4, with the one count.
unfoldable pub read_frame : Transport → Context → ℕ → ℕ → List ℕ → Result Frame
read_frame t c fc addr (count ∷ []) =
    if ltb count 1 || ltb 2000 count || (leb 3 fc && ltb 125 count) || c.slave_id == 0
    then refused read_takes_one_count
    else if fc == 1
    then built_frame (frame_read_coil_bits t c addr count)
    else if fc == 2
    then built_frame (frame_read_input_bits t c addr count)
    else if fc == 3
    then built_frame (frame_read_holding_registers t c addr count)
    else built_frame (frame_read_input_registers t c addr count)
read_frame t c fc addr _ = refused read_takes_one_count

-- Functions 5, 6, 15 and 16.
unfoldable pub write_frame_of : Transport → (ℕ → ℕ) → Bool → Context → ℕ → ℕ → List ℕ → Result Frame
write_frame_of t behind writes c fc addr values =
    if not writes
    then refused write_needs_raw_write
    else if ltb (length values) 1 || (leb fc 6 && not (length values == 1))
    then refused values_do_not_fit
    else if fc == 5
    then built_frame (frame_write_coil_bit t c addr (if get_or values 0 0 == 0 then 0 else 1))
    else if fc == 6
    then built_frame (frame_write_register t c addr (get_or values 0 0))
    else if fc == 15
    then built_frame
        (frame_write_coil_bits t c addr (length values) (raw_bits behind values) cleared)
    else built_frame
        (frame_write_registers t c addr (length values) (λ i. get_or values i 0) cleared)

-- The `switch`, with the context set to the slave.
unfoldable pub raw_frame : Transport → (ℕ → ℕ) → Bool → Context → ℕ → ℕ → List ℕ → Result Frame
raw_frame t behind writes c fc addr values =
    if leb 1 fc && leb fc 4
    then read_frame t c fc addr values
    else if fc == 5 || fc == 6 || fc == 15 || fc == 16
    then write_frame_of t behind writes c fc addr values
    else refused fc_unknown

-- The checks of the fields, and the frame.
unfoldable pub request_frame : Transport → (ℕ → ℕ) → Bool → Context → Request → Result Frame
request_frame t behind writes c q =
    if not (is_within 247 q.slave && is_within 0xffff q.addr)
    then refused slave_or_addr_outside
    else if magnitude q.slave == 0 && not writes
    then refused broadcast_needs_raw_write
    else raw_frame t behind writes (record c { slave_id = magnitude q.slave }) (magnitude q.fc)
        (magnitude q.addr) q.values

unfoldable pub parsed_frame : Transport → (ℕ → ℕ) → Bool → Context → Result Request → Result Frame
parsed_frame t behind writes c (refused reason) = refused reason
parsed_frame t behind writes c (accepted q) = request_frame t behind writes c q

-- The message is posted, and its id is remembered.
unfoldable pub post_raw : Transport → Result Frame → Loop → Option Reason × Loop
post_raw t (refused reason) l = (some reason, l)
post_raw t (accepted f) l =
    let (outbox, m) =
      post_msg t l.rounds.outbox (record { msg_id = 0; req_id = 0; first = f; second = cleared }) in
    (none, record l { rounds = record l.rounds { outbox = outbox }; raw = some m.req_id })

-- The first test: one request at a time.
unfoldable pub if_free : Option ℕ → Option Reason × Loop → Loop → Option Reason × Loop
if_free (some id) result l = (some busy, l)
if_free none result l = result

-- `modbusmq_raw_request`; `writes` is `raw_write` of the configuration. `none` is 0, and a reason -1
-- with a reply.
unfoldable pub raw_request :
    Transport → (List ℕ → ℤ × ℕ) → (ℕ → ℕ) → Bool → List ℕ → Loop → Option Reason × Loop
raw_request t strtol behind writes text l =
    if_free l.raw
      (post_raw t (parsed_frame t behind writes l.rounds.outbox.context (parse strtol text)) l) l
