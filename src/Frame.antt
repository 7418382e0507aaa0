-- ===== src/Frame.antt =====
-- lib/modbusmq.h and lib/modbusmq_internal.h: frames, messages and the part of the context that
-- the transports read. A byte of `buf` is below 256; a read or write of `buf` is by index.
pub mod Function
use modbusmq.Base.{ℕ, ◌+◌, ◌*◌, ◌/◌, ◌%◌, ◌<◌, Bool, true, false, ◌≡◌, ◌==◌, if◌then◌else◌, ◌||◌}

-- MODBUSMQ_FRAME_MAX
abbrev pub frame_max : ℕ
frame_max = 260

pub record Frame : Type 0 where
  pub is_writer : Bool
  pub is_tcp : Bool
  pub length : ℕ
  pub xmit : ℕ
  pub buf : ℕ → ℕ

-- `frame[0]` and `frame[1]` of a message.
pub record Msg : Type 0 where
  pub msg_id : ℕ
  pub req_id : ℕ
  pub first : Frame
  pub second : Frame

-- `slave_id` is the bit pattern of the source's `int`; `transaction_id` stands in the TCP part.
pub record Context : Type 0 where
  pub slave_id : ℕ
  pub transaction_id : ℕ
  pub header_length : ℕ
  pub req_header_min : ℕ
  pub res_header_min : ℕ

-- memset(frame, 0, sizeof(*frame))
abbrev pub cleared : Frame
cleared = record { is_writer = false; is_tcp = false; length = 0; xmit = 0; buf = λ _. 0 }

-- A store into a `uint8_t`.
abbrev pub byte : ℕ → ℕ
byte v = v % 256

abbrev pub put : (ℕ → ℕ) → ℕ → ℕ → ℕ → ℕ
put buf i v = λ j. if j == i then byte v else buf j

-- `buf[i] << 8 | buf[i + 1]`: the two bytes share no bit.
abbrev pub word_at : (ℕ → ℕ) → ℕ → ℕ
word_at buf i = buf i * 256 + buf (i + 1)

-- `b & 0x80`
abbrev pub has_exception_bit : ℕ → Bool
has_exception_bit b = b / 128 % 2 == 1

-- `b | 0x80` of a byte
abbrev pub with_exception_bit : ℕ → ℕ
with_exception_bit b = b % 128 + 128

-- The frame that is sent: `frame[0].is_writer ? &frame[0] : &frame[1]`.
abbrev pub writer : Msg → Frame
writer m = if m.first.is_writer then m.first else m.second

-- The frame that is received: `frame[1].is_writer == 0 ? &frame[1] : &frame[0]`. Where neither
-- frame is a writer this is the frame that `writer` selects too.
abbrev pub reader : Msg → Frame
reader m = if m.second.is_writer then m.first else m.second

abbrev pub set_writer : Msg → Frame → Msg
set_writer m f = if m.first.is_writer then record m { first = f } else record m { second = f }

abbrev pub set_reader : Msg → Frame → Msg
set_reader m f = if m.second.is_writer then record m { first = f } else record m { second = f }

-- A request in `frame[0]` and the place for its answer in `frame[1]`.
pub record IsExchange (m : Msg) : Type 0 where
  pub first_writes : m.first.is_writer ≡ true
  pub second_reads : m.second.is_writer ≡ false

abbrev pub IsBytes : (ℕ → ℕ) → Type 0
IsBytes buf = (i : ℕ) → buf i < 256

-- The four functions whose answer carries a byte count.
abbrev pub is_read_function : ℕ → Bool
is_read_function fn =
    fn == Function.read_coils
    || fn == Function.read_discrete_inputs
    || fn == Function.read_holding_registers
    || fn == Function.read_input_registers
