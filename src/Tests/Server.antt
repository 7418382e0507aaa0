-- ===== src/Tests/Server.antt =====
-- A virtual device with one register and one coil.
use modbusmq.Server.Bounds.{IsSizedInput}
use modbusmq.Base.{
  ℕ, ℤ, pos, ◌≤◌, ◌≡◌, refl, arith, true, false, List, [], ◌∷◌, Option, none, some, length, ◌%◌,
  inl, inr, All,
}
use mathlib.Core.Path.{subst}
use modbusmq.Codec.{format_ab, format_unknown, format_size}
use modbusmq.Codec.Encode.{TextLibrary}
use modbusmq.Codec.Bounds.Text.{ReadsSix}
use modbusmq.Frame.{Frame, frame_max, IsBytes}
use modbusmq.Server.{Channel, Config, prepare_response, request_of}
use modbusmq.Server.Framed.{response_in_frame}
use modbusmq.Server.Response.{response_accepted, answered_by}
use modbusmq.Server.Bits.{coil_on}
use modbusmq.Server.Coils.{served_coils, any_on}
use modbusmq.Tcp.Check.{msg_check}
use modbusmq.Tests.Tcp.{request, exchange, exchange-IsExchange, request-IsBytes}
use modbusmq.Tests.{buffer}

abbrev midnight : List ℤ
midnight = pos 2026 ∷ pos 1 ∷ pos 1 ∷ pos 0 ∷ pos 0 ∷ pos 0 ∷ []

-- Numbers of one digit, and one date.
abbrev digit : List ℕ → Option (ℕ × List ℕ)
digit [] = none
digit (c ∷ rest) = some (c % 48, rest)

abbrev pub library : TextLibrary
library = record {
  strtoul = digit;
  strtoull = digit;
  date = λ _. some (pos 2026, pos 1, pos 1);
  datetime = λ _. some midnight;
  to_double = λ n. record { truncated = pos n; bits = 0 };
}

reads_six : ReadsSix library
reads_six text fields e = let same : midnight ≡ fields = cc e in subst (λ f. length f ≡ 6) same refl

abbrev register : Channel
register = record {
  used = true;
  offset = pos 0;
  length = 2;
  format = format_ab;
  value = record { truncated = pos 42; bits = 0 };
  is_on = true;
  value_text = none;
}

-- A coil has no format and no length.
abbrev coil : ℕ → Channel
coil offset = record register {
  offset = pos offset;
  length = 0;
  format = format_unknown;
  value = record { truncated = pos 1; bits = 0 };
}

-- A place in the table that is not in use.
abbrev unused : Channel
unused = record (coil 0) { used = false }

abbrev config : Config
config = record {
  offset_size = 2;
  inputs =
      record { slave = 1; type = 3; address = 0; channels = register ∷ unused ∷ [] }
      ∷ record { slave = 1; type = 1; address = 4; channels = coil 3 ∷ [] }
      ∷ [];
}

config-IsSized : All IsSizedInput config.inputs
unfolding format_size
config-IsSized = (inr (inr (omega arith), (inl refl, tt)), (inl refl, tt))

abbrev empty : Frame
empty = record { is_writer = false; is_tcp = true; length = 0; xmit = 0; buf = buffer [] }

empty-IsBytes : IsBytes empty.buf
empty-IsBytes i = omega arith

response_in_frame_example :
    ((j : ℕ) → frame_max ≤ j → (prepare_response library config true request empty).buf j ≡ 0)
    × (IsBytes empty.buf → IsBytes (prepare_response library config true request empty).buf)
    × ((prepare_response library config true request empty).length ≤ frame_max)
response_in_frame_example = response_in_frame library reads_six config config-IsSized request empty

response_accepted_example :
    (msg_check (answered_by library config exchange request empty)).0 ≡ pos 0
response_accepted_example =
    response_accepted library reads_six config config-IsSized exchange request empty
      exchange-IsExchange refl request-IsBytes refl empty-IsBytes refl refl

-- Ten coils from the address 0 on.
abbrev coils : Frame
coils = record request { buf = buffer (0 ∷ 9 ∷ 0 ∷ 0 ∷ 0 ∷ 6 ∷ 1 ∷ 1 ∷ 0 ∷ 0 ∷ 0 ∷ 10 ∷ []) }

served_coils_example :
    coil_on (prepare_response library config true coils empty).buf 7
    ≡ any_on (request_of coils) config.inputs 7
served_coils_example =
    served_coils library config coils empty 7 empty-IsBytes refl refl (omega arith)
