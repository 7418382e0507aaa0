-- ===== src/Tests/Raw.antt =====
-- A raw read, and a raw write of two coils. A number has one digit.
use modbusmq.Build.{frame_read_holding_registers}
use modbusmq.Raw.Coils.{raw_coils_lost}
use modbusmq.Queue.{post_msg, next_req_id, post_internal}
use modbusmq.Transport.{rtu}
use modbusmq.Raw.Safety.{IsRead, message, raw_request_reads, raw_request_one_at_a_time}
use modbusmq.Frame.{Frame, frame_max}
use modbusmq.Raw.{
  trim_end, raw_request, write_frame_of, if_free, post_raw, parsed_frame, accepted, request_frame,
  raw_frame, read_frame, built_frame, parse, parse_fields, with_values, raw_values, prepend,
  word_of, raw_number, skip_blanks, skip_word, trim_start, drop,
}
use modbusmq.Rtu.Request as RtuRequest
use modbusmq.Tests.Loop.{loop}
use modbusmq.Tests.Rtu.{context}
use modbusmq.Base.{
  ℕ, ◌≡◌, arith, ℤ, List, ◌∷◌, pos, true, [], ◌-◌, false, ◌+◌, ◌≢◌, ◌≤◌, none, ◌/◌, ◌^◌, ◌⊎◌, some,
  ◌%◌, refl,
}

abbrev pub one_digit : List ℕ → ℤ × ℕ
one_digit [] = (pos 0, 0)
one_digit (c ∷ cs) = (pos (c - 48), 1)

abbrev pub behind : ℕ → ℕ
behind i = 0

-- "1 3 0 2": slave 1, function 3, address 0, two registers.
abbrev pub text : List ℕ
text = 49 ∷ 32 ∷ 51 ∷ 32 ∷ 48 ∷ 32 ∷ 50 ∷ []

posted : (raw_request rtu one_digit behind false text loop).0 ≡ none
unfolding raw_request if_free post_raw parsed_frame request_frame raw_frame read_frame built_frame
    parse parse_fields with_values raw_values prepend word_of raw_number skip_blanks skip_word
    trim_start trim_end drop frame_read_holding_registers
posted = refl

pub in_flight : (raw_request rtu one_digit behind false text loop).1.raw ≡ some 3
unfolding post_msg post_internal next_req_id raw_request if_free post_raw parsed_frame request_frame
    raw_frame read_frame built_frame parse parse_fields with_values raw_values prepend word_of
    raw_number skip_blanks skip_word trim_start trim_end drop frame_read_holding_registers
in_flight = refl

raw_request_reads_example :
    (f : Frame) × IsRead rtu context f
    × ((raw_request rtu one_digit behind false text loop).1.rounds.outbox
        ≡ (post_msg rtu loop.rounds.outbox (message f)).0)
raw_request_reads_example = raw_request_reads rtu one_digit behind text loop posted

raw_request_one_at_a_time_example :
    let (reason, l') = raw_request rtu one_digit behind false text loop in
    ((reason ≢ none) × (l' ≡ loop))
    ⊎ ((reason ≡ none)
        × (loop.raw ≡ none)
        × (l'.raw ≡ some (next_req_id 2))
        × (l'.rounds.outbox.req_id_next ≡ next_req_id 2))
raw_request_one_at_a_time_example = raw_request_one_at_a_time rtu one_digit behind false text loop

-- Coil 5 is to be off and coil 6 on.
abbrev values : List ℕ
values = 0 ∷ 1 ∷ []

header_fits : (rtu.write_coil_bits context 5 2).length + 2 ≤ frame_max
unfolding RtuRequest.write_coil_bits RtuRequest.frame_init
header_fits = omega arith

raw_coils_lost_example :
    (f : Frame) × (write_frame_of rtu behind true context 15 5 values ≡ accepted f)
    × (f.buf ((rtu.write_coil_bits context 5 2).length + 1) / 2 ^ 1 % 2 ≡ 0)
raw_coils_lost_example =
    raw_coils_lost rtu behind context 5 values 1 header_fits (omega arith) (omega arith)
      (omega arith)
