-- ===== src/Rtu/Accept.antt =====
-- Which answers `modbusmq_rtu_msg_check` accepts.
use modbusmq.Base.{
  ℕ, ◌+◌, ◌*◌, ◌-◌, ◌/◌, ◌≤◌, ◌≡◌, ◌⊎◌, arith, false, ◌==◌, if◌then◌else◌, pos, Option, none, some,
  Bool, true, ltb, negsuc, sub_ℕ, ◌<◌, ◌≢◌, is_negative, ◌↔◌,
}
use modbusmq.Frame.{
  Frame, Msg, Context, IsExchange, frame_max, has_exception_bit, word_at, with_exception_bit,
}
use modbusmq.Frame.Function
use modbusmq.Rtu.Crc.{crc16}
use modbusmq.Rtu.Check.{
  crc_at, msg_broadcast, check_length, check_complete, size_reader, msg_check_header, msg_check,
}

-- The payload that the protocol gives the answer to a read: a bit for each coil or input, in whole
-- bytes, or two bytes for each register. `none` is the answer to a write, which has no count.
abbrev pub payload : ℕ → ℕ → Option ℕ
payload fn naddr =
    if fn == Function.read_coils
    then some ((naddr + 7) / 8)
    else if fn == Function.read_discrete_inputs
    then some ((naddr + 7) / 8)
    else if fn == Function.read_holding_registers
    then some (naddr * 2)
    else if fn == Function.read_input_registers
    then some (naddr * 2)
    else none

abbrev pub request_payload : Frame → Option ℕ
request_payload w = payload (w.buf 1) (word_at w.buf 4)

-- Header, payload and checksum; or the echo of a write, with two masks or with one value.
abbrev pub answer_length : Context → Frame → ℕ
answer_length c w = elim (request_payload w) [
  | some n ↦ n + c.header_length + 2
  | none ↦ if w.buf 1 == Function.mask_write_register then 10 else 8
]

-- A complete and undamaged answer to the request `w`.
pub record IsAnswer (c : Context) (w r : Frame) : Type 0 where
  pub same_slave : r.buf 0 ≡ w.buf 0
  pub same_function : r.buf 1 ≡ w.buf 1
  pub no_exception : has_exception_bit (r.buf 1) ≡ false
  pub counted : (request_payload w ≡ none) ⊎ (request_payload w ≡ some (r.buf 2))
  pub whole : r.xmit ≡ answer_length c w
  pub at_least : 4 ≤ r.xmit
  pub at_most : r.xmit ≤ frame_max
  pub checksum : crc_at r.buf (r.xmit - 2) ≡ crc16 r.buf (r.xmit - 2)

abbrev count_matches : Frame → Frame → Bool
count_matches w r = elim (request_payload w) [ some n ↦ r.buf 2 == n | none ↦ true ]

-- The answer with its read window set to the whole of it.
abbrev pub sized : Context → Msg → Msg
sized c m = record m { second = record m.second { length = answer_length c m.first } }

module _ (c : Context) (m : Msg) (x : IsExchange m) where
  size_reader_cases :
      (n : ℕ)
      → size_reader n m ≡ (
          if ltb frame_max n
          then (negsuc 4, m)
          else (sub_ℕ n m.second.xmit, record m { second = record m.second { length = n } }))
  unfolding size_reader
  size_reader_cases n = ground arith

  check_length_cases : check_length c m ≡ (
      if count_matches m.first m.second
      then size_reader (answer_length c m.first) m
      else (negsuc 3, m))
  unfolding check_length
  check_length_cases = ground arith

  check_complete_sound :
      (r : Frame)
      → r.is_writer ≡ false
      → msg_broadcast (record m { second = r }) ≡ false
      → check_complete (record m { second = r }) ≡ pos 0
      → (m.first.xmit ≡ m.first.length)
        × (r.xmit ≡ r.length)
        × (4 ≤ r.length)
        × (has_exception_bit (r.buf 1) ≡ false)
        × (crc_at r.buf (r.length - 2) ≡ crc16 r.buf (r.length - 2))
  unfolding check_complete
  check_complete_sound r reads nb e = ground arith

  -- Only the request decides whether it is a broadcast.
  pub broadcast_of_first : (r : Frame) → msg_broadcast (record m { second = r }) ≡ msg_broadcast m
  unfolding msg_broadcast
  broadcast_of_first r = ground arith

  header_of_answer :
      3 ≤ m.second.xmit
      → m.second.buf 0 ≡ m.first.buf 0
      → m.second.buf 1 ≡ m.first.buf 1
      → msg_check_header c m ≡ check_length c m
  unfolding msg_check_header
  header_of_answer long slave fn = ground arith

  -- What the header check returns where the two frames do not match.
  header_of_other :
      (m.second.buf 0 ≢ m.first.buf 0) ⊎ (m.second.buf 1 ≢ m.first.buf 1)
      → 3 ≤ m.second.xmit
      → (is_negative (msg_check_header c m).0 ≡ true)
        ⊎ ((m.second.buf 1 ≡ with_exception_bit (m.first.buf 1))
            × ((msg_check_header c m).1 ≡ record m { second = record m.second { length = 5 } }))
  unfolding msg_check_header
  header_of_other other long = ground arith

  header_of_short : m.second.xmit < 3 → msg_check_header c m ≡ (pos 1, m)
  unfolding msg_check_header
  header_of_short short = ground arith

  msg_check_sized : IsAnswer c m.first m.second → msg_check_header c m ≡ (pos 0, sized c m)
  msg_check_sized a =
      ground
        (arith, header_of_answer, check_length_cases, size_reader_cases (answer_length c m.first))

  module _ (nb : msg_broadcast m ≡ false) where
    complete_of_accepted :
        (msg_check c m).0 ≡ pos 0
        → (is_negative (msg_check_header c m).0 ≡ false)
          × (check_complete (msg_check_header c m).1 ≡ pos 0)
    unfolding msg_check
    complete_of_accepted e = ground arith

    long_of_accepted : (msg_check c m).0 ≡ pos 0 → 3 ≤ m.second.xmit
    long_of_accepted e = ground (
      arith,
      complete_of_accepted e,
      header_of_short,
      check_complete_sound m.second x.second_reads nb,
    )

    same_of_accepted :
        (msg_check c m).0 ≡ pos 0
        → (m.second.buf 0 ≡ m.first.buf 0) × (m.second.buf 1 ≡ m.first.buf 1)
    same_of_accepted e = ground (
      arith,
      complete_of_accepted e,
      long_of_accepted e,
      header_of_other,
      broadcast_of_first (record m.second { length = 5 }),
      check_complete_sound (record m.second { length = 5 }) x.second_reads,
    )

    accepted_sound :
        (msg_check c m).0 ≡ pos 0 → (m.first.xmit ≡ m.first.length) × IsAnswer c m.first m.second
    accepted_sound e = ground (
      arith,
      complete_of_accepted e,
      long_of_accepted e,
      same_of_accepted e,
      header_of_answer,
      check_length_cases,
      size_reader_cases (answer_length c m.first),
      broadcast_of_first (record m.second { length = answer_length c m.first }),
      check_complete_sound (record m.second { length = answer_length c m.first }) x.second_reads,
    )

    accepted_complete :
        m.first.xmit ≡ m.first.length → IsAnswer c m.first m.second → (msg_check c m).0 ≡ pos 0
    unfolding msg_check check_complete
    accepted_complete sent a =
        ground (arith, msg_check_sized a, broadcast_of_first (sized c m).second)

    -- For a request in the first frame that is not a broadcast, and a second frame that reads,
    -- `modbusmq_rtu_msg_check` returns 0 exactly when the request is written out and the frame
    -- received is a complete, undamaged answer to it: its slave and function, no exception, the
    -- byte count and the length that the request implies, at most 260 bytes, and the checksum of
    -- its bytes.
    pub msg_check_accepts_iff :
        ((msg_check c m).0 ≡ pos 0)
        ↔ ((m.first.xmit ≡ m.first.length) × IsAnswer c m.first m.second)
    msg_check_accepts_iff = (accepted_sound, λ h. accepted_complete h.0 h.1)
