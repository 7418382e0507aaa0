-- ===== src/Server/Coils.antt =====
-- Which coils a response of the virtual server has on.
use modbusmq.Codec.Encode.{TextLibrary}
use modbusmq.Server.Bounds.{coil-Confined}
use modbusmq.Frame.{IsBytes, Frame}
use mathlib.Core.Path.{ap}
use modbusmq.Base.{
  ℕ, ◌+◌, ◌/◌, ◌%◌, ◌^◌, ◌<◌, ◌≡◌, refl, arith, Bool, true, false, List, [], ◌∷◌, none, some, ◌==◌,
  if◌then◌else◌, ◌||◌, ◌&&◌, not, Option, ◌∙◌, ap, leb, ltb, ℤ, pos, negsuc, sub_ℤ, add_ℤ, is_ℕ,
  is_ℕ-pos, is_ℕ-negsuc, sub-is_ℕ, sym,
}
use modbusmq.Server.{
  Channel, Input, Request, coil_place, coil_at, serve_inputs, serve_channels, serve_coil,
  prepare_response, read_response, payload_response, serve_payload, TextLibrary, Config,
  is_bit_function, is_refused_read, request_of, clear_payload, echo_header, is_write_function,
  inside,
}
use modbusmq.Server.Bits.{coil_on, set_bit_on, all_below, all_below_lem}

abbrev is_place : Option ℕ → ℕ → Bool
is_place none k = false
is_place (some i) k = i == k

-- Is this channel on, at the address of coil `k` of the request?
abbrev pub puts_on : Request → Input → Channel → ℕ → Bool
puts_on r input channel k =
    channel.used && channel.is_on && is_ℕ (add_ℤ input.address channel.offset) (r.address_start + k)

place_inside : (z : ℤ) (n k : ℕ) → k < n → is_place (inside (λ icoil. ltb icoil n) z) k ≡ is_ℕ z k
unfolding inside
place_inside (pos a) n k h = ground (arith, h, is_ℕ-pos a k)
place_inside (negsuc a) n k h = sym (is_ℕ-negsuc a k)

coil_place_lem :
    (r : Request) (input : Input) (channel : Channel) (k : ℕ)
    → k < r.naddress
    → is_place (coil_place r input channel) k
      ≡ is_ℕ (add_ℤ input.address channel.offset) (r.address_start + k)
unfolding coil_place
coil_place_lem r input channel k h =
    let place = add_ℤ input.address channel.offset in
    place_inside (sub_ℤ place (pos r.address_start)) r.naddress k h
    ∙ sub-is_ℕ place r.address_start k

abbrev pub any_channel : Request → Input → List Channel → ℕ → Bool
any_channel r input [] k = false
any_channel r input (channel ∷ channels) k =
    puts_on r input channel k || any_channel r input channels k

-- Does a configured channel of the unit and the function put coil `k` on?
abbrev pub any_on : Request → List Input → ℕ → Bool
any_on r [] k = false
any_on r (input ∷ inputs) k =
    (input.slave == r.slave_id && input.type == r.function && any_channel r input input.channels k)
    || any_on r inputs k

coil_at_on :
    (is_on : Bool) (place : Option ℕ) (buf : ℕ → ℕ) (k : ℕ)
    → IsBytes buf
    → coil_on (coil_at 9 is_on place buf) k ≡ ((is_on && is_place place k) || coil_on buf k)
unfolding coil_at
coil_at_on is_on none buf k bytes = ground arith
coil_at_on true (some i) buf k bytes = set_bit_on buf i k bytes
coil_at_on false (some i) buf k bytes = refl

serve_coil_on :
    (r : Request) (input : Input) (channel : Channel) (buf : ℕ → ℕ) (k : ℕ)
    → IsBytes buf
    → k < r.naddress
    → coil_on (serve_coil r input channel buf) k ≡ (puts_on r input channel k || coil_on buf k)
unfolding serve_coil
serve_coil_on r input channel buf k bytes h =
    served channel.used (coil_place r input channel)
    ∙ ap (λ b. (channel.used && channel.is_on && b) || coil_on buf k)
        (coil_place_lem r input channel k h)
  where
    served :
        (used : Bool) (place : Option ℕ)
        → coil_on (if not used then buf else coil_at 9 channel.is_on place buf) k
          ≡ ((used && channel.is_on && is_place place k) || coil_on buf k)
    served true place = coil_at_on channel.is_on place buf k bytes
    served false place = refl

or_assoc : (a b c : Bool) → (a || (b || c)) ≡ ((b || a) || c)
or_assoc a b c = ground arith

channels_on :
    (r : Request) (input : Input) (channels : List Channel) (buf : ℕ → ℕ) (k : ℕ)
    → IsBytes buf
    → k < r.naddress
    → coil_on (serve_channels (serve_coil r input) channels buf) k
      ≡ (any_channel r input channels k || coil_on buf k)
unfolding serve_channels
channels_on r input [] buf k bytes h = refl
channels_on r input (channel ∷ channels) buf k bytes h =
    channels_on r input channels (serve_coil r input channel buf) k
      ((coil-Confined r input channel buf).bytes_kept bytes) h
    ∙ ap (λ b. any_channel r input channels k || b) (serve_coil_on r input channel buf k bytes h)
    ∙ or_assoc (any_channel r input channels k) (puts_on r input channel k) (coil_on buf k)

channels-IsBytes :
    (r : Request) (input : Input) (channels : List Channel) (buf : ℕ → ℕ)
    → IsBytes buf
    → IsBytes (serve_channels (serve_coil r input) channels buf)
unfolding serve_channels
channels-IsBytes r input [] buf bytes = bytes
channels-IsBytes r input (channel ∷ channels) buf bytes =
    channels-IsBytes r input channels (serve_coil r input channel buf)
      ((coil-Confined r input channel buf).bytes_kept bytes)

input_on :
    (r : Request) (input : Input) (buf : ℕ → ℕ) (k : ℕ) (slave function : Bool)
    → IsBytes buf
    → k < r.naddress
    → coil_on
        (if not slave || not function
          then buf
          else serve_channels (serve_coil r input) input.channels buf)
        k
      ≡ ((slave && function && any_channel r input input.channels k) || coil_on buf k)
input_on r input buf k true true bytes h = channels_on r input input.channels buf k bytes h
input_on r input buf k true false bytes h = refl
input_on r input buf k false function bytes h = refl

input-IsBytes :
    (r : Request) (input : Input) (buf : ℕ → ℕ) (other : Bool)
    → IsBytes buf
    → IsBytes (if other then buf else serve_channels (serve_coil r input) input.channels buf)
input-IsBytes r input buf true bytes = bytes
input-IsBytes r input buf false bytes = channels-IsBytes r input input.channels buf bytes

inputs_on :
    (r : Request) (inputs : List Input) (buf : ℕ → ℕ) (k : ℕ)
    → IsBytes buf
    → k < r.naddress
    → coil_on (serve_inputs (serve_coil r) r inputs buf) k ≡ (any_on r inputs k || coil_on buf k)
unfolding serve_inputs
inputs_on r [] buf k bytes h = refl
inputs_on r (input ∷ inputs) buf k bytes h =
    let slave = input.slave == r.slave_id in
    let function = input.type == r.function in
    let buf' =
      if not slave || not function
      then buf
      else serve_channels (serve_coil r input) input.channels buf in
    inputs_on r inputs buf' k (input-IsBytes r input buf (not slave || not function) bytes) h
    ∙ ap (λ b. any_on r inputs k || b) (input_on r input buf k slave function bytes h)
    ∙ or_assoc (any_on r inputs k) (slave && function && any_channel r input input.channels k)
        (coil_on buf k)

payload_coil :
    (n : ℕ) (serve : (ℕ → ℕ) → ℕ → ℕ) (res : Frame) (k : ℕ)
    → coil_on (payload_response n serve res).buf k ≡ coil_on (serve (clear_payload n res.buf)) k
unfolding payload_response
payload_coil n serve res k =
    let not5 : (9 + k / 8 == 5) ≡ false = ground arith in
    let not4 : (9 + k / 8 == 4) ≡ false = ground arith in
    let not8 : (9 + k / 8 == 8) ≡ false = ground arith in rw (not5, not4, not8) refl

zero_bits : all_below 8 (λ b. not (0 / 2 ^ b % 2 == 1)) ≡ true
unfolding all_below
zero_bits = refl

cleared_off :
    (n : ℕ) (buf : ℕ → ℕ) (k : ℕ) → k < n → coil_on (clear_payload ((n + 7) / 8) buf) k ≡ false
cleared_off n buf k h =
    let inside_payload : (leb 9 (9 + k / 8) && ltb (9 + k / 8) (9 + (n + 7) / 8)) ≡ true =
      ground (arith, h) in
    let zero_bit =
      all_below_lem 8 (λ b. not (0 / 2 ^ b % 2 == 1)) zero_bits (k % 8) (omega arith) in
    rw inside_payload (ground (arith, zero_bit))

or_false : (b : Bool) → (b || false) ≡ b
or_false b = ground arith

reads_bits : (function : ℕ) → is_bit_function function ≡ true → is_write_function function ≡ false
reads_bits function h = ground (arith, h)

clean-IsBytes :
    (req res : Frame) (n : ℕ)
    → IsBytes res.buf
    → IsBytes (clear_payload n (echo_header req res).buf)
clean-IsBytes req res n bytes j = ground (arith, bytes j)

-- A read of 1 to 2000 coils or discrete inputs over TCP is answered with exactly those coils on for which a configured channel of that unit and type, which is in use and whose value is not 0, stands at that address, which is the address of its input and its own offset together; all other coils of the response are off. The response buffer is one of bytes.
pub served_coils :
    (lib : TextLibrary) (config : Config) (req res : Frame) (k : ℕ)
    → IsBytes res.buf
    → is_bit_function (req.buf 7) ≡ true
    → is_refused_read (request_of req) ≡ false
    → k < (request_of req).naddress
    → coil_on (prepare_response lib config true req res).buf k
      ≡ any_on (request_of req) config.inputs k
unfolding prepare_response read_response serve_payload
served_coils lib config req res k bytes bits served inner =
    let r = request_of req in
    let base = echo_header req res in
    rw (reads_bits (req.buf 7) bits, served, bits)
      (payload_coil ((r.naddress + 7) / 8) (serve_inputs (serve_coil r) r config.inputs) base k
        ∙ inputs_on r config.inputs (clear_payload ((r.naddress + 7) / 8) base.buf) k
            (clean-IsBytes req res ((r.naddress + 7) / 8) bytes) inner
        ∙ ap (λ b. any_on r config.inputs k || b) (cleared_off r.naddress base.buf k inner)
        ∙ or_false (any_on r config.inputs k))
