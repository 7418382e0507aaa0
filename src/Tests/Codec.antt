-- ===== src/Tests/Codec.antt =====
-- Registers that are written and read back.
use modbusmq.Codec.Digits.{encode_bcd_reads_back}
use modbusmq.Codec.Text.{encode_bcd, is_digit, text_bcd, cleared_field}
use modbusmq.Codec.RoundTrip.{encode_value_refuses_iff}
use modbusmq.Codec.Window.{Agree, read_channel_window}
use modbusmq.Codec.Decode.{ClockLibrary, TextChannel, text_trim, trim_front, trim_back, text_of}
use modbusmq.Codec.Decode.Ascii.{encode_text_reads_back}
use modbusmq.Codec.Encode.{encode_text}
use modbusmq.Tests.Server.{library}
use modbusmq.Tests.{buffer}
use modbusmq.Codec.{
  format_ascii_ba, format_ab, format_ascii_ab, Double, encode_value, Channel, Block, read_channel,
  read_value,
}
use modbusmq.Base.{
  ℕ, ◌≡◌, arith, negsuc, is_negative, ◌∷◌, [], false, none, true, pos, ◌↔◌, inl, some, refl, ◌<◌,
  List, get_or, length, suc, zero, if◌then◌else◌, ltb, ◌-◌, ◌≤◌, ◌+◌, ◌%◌,
}

abbrev minus_fifty : Double
minus_fifty = record { truncated = negsuc 49; bits = 0 }

abbrev nothing : ℕ → ℕ
nothing = buffer []

encode_value_refuses_iff_test :
    (is_negative (encode_value format_ascii_ab minus_fifty nothing).0 ≡ true)
    ↔ (read_value format_ascii_ab nothing 0 ≡ none)
encode_value_refuses_iff_test =
    encode_value_refuses_iff format_ascii_ab minus_fifty nothing nothing 0

abbrev received : ℕ → ℕ
received = buffer (1 ∷ 2 ∷ 3 ∷ 4 ∷ [])

abbrev stale : ℕ → ℕ
stale = buffer (1 ∷ 2 ∷ 3 ∷ 4 ∷ 9 ∷ 9 ∷ [])

abbrev input : Block
input = record { is_bit = false; address_offset = pos 0 }

abbrev second_register : Channel
second_register = record { format = format_ab; offset = pos 2; length = 0 }

same_payload : Agree 4 received stale
same_payload j h = ground (arith, h)

read_channel_window_example :
    read_channel none (pos 4) received input second_register
    ≡ read_channel none (pos 4) stale input second_register
read_channel_window_example =
    read_channel_window 4 received stale same_payload none input second_register (inl refl)

-- "123", in two registers less a byte, and swapped.
abbrev digits : List ℕ
digits = 49 ∷ 50 ∷ 51 ∷ []

all_digits : (n : ℕ) → n < 3 → is_digit (get_or digits n 0) ≡ true
all_digits zero h = refl
all_digits (suc zero) h = refl
all_digits (suc (suc zero)) h = refl
all_digits (suc (suc (suc n))) h = absurd (omega (arith, h))

encode_bcd_reads_back_example :
    (out' : ℕ → ℕ) × (chars : List ℕ) × (encode_bcd true digits 3 (cleared_field 3 nothing)
      ≡ (true, out'))
    × (text_bcd out' 3 true 7 ≡ some chars)
    × (length chars ≡ 6)
    × ((j : ℕ) → 3 ≤ j → out' j ≡ nothing j)
    × ((n : ℕ) → n < 6 → get_or chars n 0 ≡ (if ltb n 3 then 48 else get_or digits (n - 3) 0))
encode_bcd_reads_back_example =
    encode_bcd_reads_back true digits 3 7 nothing all_digits (omega arith) (omega arith)

-- "PIX-1", with the bytes of each register swapped, in a field of 5 bytes.
abbrev serial : List ℕ
serial = 80 ∷ 73 ∷ 88 ∷ 45 ∷ 49 ∷ []

abbrev clock : ClockLibrary
clock = record {
  print_unsigned = λ n. (48 + n % 10) ∷ [];
  strftime = λ _ _ _. 84 ∷ [];
  gmtime = λ _. none;
  localtime = λ _. none;
}

abbrev serial_channel : TextChannel
serial_channel = record {
  channel = record { format = format_ascii_ba; offset = pos 0; length = 5 };
  timefmt = none;
  is_localtime = false;
  add = pos 0;
}

serial_trimmed : text_trim serial ≡ serial
unfolding text_trim trim_front trim_back
serial_trimmed = refl

encode_text_reads_back_example :
    ((encode_text library format_ascii_ba 5 serial 8 nothing).0 ≡ pos 5)
    × (text_of clock format_ascii_ba serial_channel
          (encode_text library format_ascii_ba 5 serial 8 nothing).1
          140
        ≡ some serial)
encode_text_reads_back_example =
    encode_text_reads_back library clock true serial serial_channel 8 140 nothing (ground arith)
      serial_trimmed (omega arith) (omega arith) (omega arith) (omega arith)
