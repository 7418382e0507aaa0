-- ===== src/Server.antt =====
-- The virtual server of programs/modbusmq_server.c: `modbusmq_prepare_response`. The bytes of the
-- request and of the response are functions from indices; the lines that are printed are left out.
-- An address is not negative.
pub mod Bits
pub mod Bounds
pub mod Coils
pub mod Framed
pub mod Response
use modbusmq.Base.{
  ℕ, zero, suc, ◌+◌, ◌-◌, ◌*◌, ◌/◌, ◌%◌, ◌^◌, Bool, true, false, ◌&&◌, ◌||◌, not, List, [], ◌∷◌,
  Option, none, some, ◌==◌, ltb, leb, if◌then◌else◌, ℤ, pos, negsuc, sub_ℕ, add_ℤ, sub_ℤ, scale_ℤ,
}
use modbusmq.Frame.{Frame, put, word_at, with_exception_bit}
use modbusmq.Frame.Function
use modbusmq.Codec.{Format, Double, encode_value}
use modbusmq.Codec.Encode.{TextLibrary, encode_text}
use modbusmq.Publish.{format_is_text}

-- `modbusmq_channel_t`, as far as it is served; `is_on` is `value != 0`, `used` is a `topic`.
pub record Channel : Type 0 where
  pub used : Bool
  pub offset : ℤ
  pub length : ℕ
  pub format : Format
  pub value : Double
  pub is_on : Bool
  pub value_text : Option (List ℕ)

pub record Input : Type 0 where
  pub slave : ℕ
  pub type : ℕ
  pub address : ℕ
  pub channels : List Channel

pub record Config : Type 0 where
  pub offset_size : ℕ
  pub inputs : List Input

-- What is asked for.
pub record Request : Type 0 where
  pub slave_id : ℕ
  pub function : ℕ
  pub address_start : ℕ
  pub naddress : ℕ

-- The bytes from `start` on, changed.
abbrev pub under : ℕ → ((ℕ → ℕ) → ℕ → ℕ) → (ℕ → ℕ) → ℕ → ℕ
under start change buf j = if ltb j start then buf j else change (λ i. buf (start + i)) (j - start)

-- `buf[i] |= 1 << bit`, of a bit below 8.
unfoldable pub set_bit : (ℕ → ℕ) → ℕ → ℕ → ℕ → ℕ
set_bit buf i bit = if buf i / 2 ^ bit % 2 == 1 then buf else put buf i (buf i + 2 ^ bit)

-- A place that is not negative and that `fits`.
unfoldable pub inside : (ℕ → Bool) → ℤ → Option ℕ
inside fits (pos n) = if fits n then some n else none
inside fits (negsuc n) = none

-- The place of a coil in the response, or `none` outside.
unfoldable pub coil_place : Request → Input → Channel → Option ℕ
coil_place r input channel =
    inside (λ icoil. ltb icoil r.naddress)
      (sub_ℤ (add_ℤ input.address channel.offset) (pos r.address_start))

-- The body of the loop over the channels of coils, by the place.
unfoldable pub coil_at : ℕ → Bool → Option ℕ → (ℕ → ℕ) → ℕ → ℕ
coil_at start is_on none buf = buf
coil_at start is_on (some icoil) buf =
    if is_on then set_bit buf (start + icoil / 8) (icoil % 8) else buf

unfoldable pub serve_coil : Request → Input → Channel → (ℕ → ℕ) → ℕ → ℕ
serve_coil r input channel buf =
    if not channel.used then buf else coil_at 9 channel.is_on (coil_place r input channel) buf

-- The place of a register channel in the response, or `none` outside.
unfoldable pub register_place : ℕ → Request → Input → Channel → Option ℕ
register_place offset_size r input channel =
    let unit = if ltb 0 offset_size then offset_size else 1 in
    inside (λ place. leb (place + channel.length) (r.naddress * 2))
      (sub_ℤ (scale_ℤ unit channel.offset) (scale_ℤ 2 (sub_ℕ r.address_start input.address)))

-- The text of a channel, encoded at the start of `out`, where there is `room`.
unfoldable pub encode_value_text : TextLibrary → Channel → ℕ → Option (List ℕ) → (ℕ → ℕ) → ℕ → ℕ
encode_value_text lib channel room none out = out
encode_value_text lib channel room (some text) out =
    (encode_text lib channel.format channel.length text room out).1

-- The default of a channel.
unfoldable pub encode_default : TextLibrary → Channel → ℕ → (ℕ → ℕ) → ℕ → ℕ
encode_default lib channel room out =
    if format_is_text channel.format
    then encode_value_text lib channel room channel.value_text out
    else (encode_value channel.format channel.value out).1

-- The body of the loop over the channels of registers, by the place.
unfoldable pub register_at : TextLibrary → Channel → ℕ → Option ℕ → (ℕ → ℕ) → ℕ → ℕ
register_at lib channel nbytes none buf = buf
register_at lib channel nbytes (some place) buf =
    under (9 + place) (encode_default lib channel (nbytes - place)) buf

unfoldable pub serve_register : TextLibrary → ℕ → Request → Input → Channel → (ℕ → ℕ) → ℕ → ℕ
serve_register lib offset_size r input channel buf =
    if not channel.used
    then buf
    else register_at lib channel (r.naddress * 2) (register_place offset_size r input channel) buf

-- The loops over the channels of one input, and over the inputs.
unfoldable pub serve_channels : (Channel → (ℕ → ℕ) → ℕ → ℕ) → List Channel → (ℕ → ℕ) → ℕ → ℕ
serve_channels serve [] buf = buf
serve_channels serve (channel ∷ channels) buf = serve_channels serve channels (serve channel buf)

unfoldable pub serve_inputs :
    (Input → Channel → (ℕ → ℕ) → ℕ → ℕ) → Request → List Input → (ℕ → ℕ) → ℕ → ℕ
serve_inputs serve r [] buf = buf
serve_inputs serve r (input ∷ inputs) buf = serve_inputs serve r inputs (
    if not (input.slave == r.slave_id) || not (input.type == r.function)
    then buf
    else serve_channels (serve input) input.channels buf)

-- The header of a response, behind the unit and the function: what `buf[4]`, `buf[5]` declare.
abbrev declare_length : ℕ → (ℕ → ℕ) → ℕ → ℕ
declare_length n buf = put (put buf 4 (n / 2 ^ 8)) 5 n

-- `memset(&res->buf[9], 0, n)`
abbrev clear_payload : ℕ → (ℕ → ℕ) → ℕ → ℕ
clear_payload n buf j = if leb 9 j && ltb j (9 + n) then 0 else buf j

-- The exception "illegal data value".
unfoldable pub refuse_response : ℕ → Frame → Frame
refuse_response function res = record res {
  buf = declare_length 3 (put (put res.buf 7 (with_exception_bit function)) 8 0x03);
  length = 9;
}

-- Is the write request malformed?
unfoldable pub is_bad_write : ℕ → Frame → Bool
is_bad_write function req =
    let value = word_at req.buf 10 in
    if function == Function.write_single_coil
    then not (value == 0xff00) && not (value == 0)
    else if function == Function.write_single_register
    then false
    else (let nbyte = req.buf 12 in
        ltb value 1 || ltb 123 value || not (nbyte == value * 2) || ltb req.xmit (13 + nbyte))

-- The echo of a write.
unfoldable pub write_response : ℕ → Frame → Frame → Frame
write_response function req res =
    if is_bad_write function req then refuse_response function res else record res {
      buf = declare_length 6 (
          put (put (put (put res.buf 8 (req.buf 8)) 9 (req.buf 9)) 10 (req.buf 10)) 11
            (req.buf 11));
      length = 12;
    }

-- A payload of `n` bytes, that `serve` fills.
unfoldable pub payload_response : ℕ → ((ℕ → ℕ) → ℕ → ℕ) → Frame → Frame
payload_response n serve res = record res {
  buf = declare_length (n + 3) (put (serve (clear_payload n res.buf)) 8 n);
  length = n + 3 + 6;
}

abbrev pub is_write_function : ℕ → Bool
is_write_function function =
    function == Function.write_single_coil
    || function == Function.write_single_register
    || function == Function.write_multiple_registers

abbrev pub is_bit_function : ℕ → Bool
is_bit_function function =
    function == Function.read_coils || function == Function.read_discrete_inputs

-- The bytes that a read of so many addresses is answered with.
abbrev pub payload_size : Request → ℕ
payload_size r = if is_bit_function r.function then (r.naddress + 7) / 8 else r.naddress * 2

-- The loops that fill the payload.
unfoldable pub serve_payload : TextLibrary → Config → Request → (ℕ → ℕ) → ℕ → ℕ
serve_payload lib config r =
    if is_bit_function r.function
    then serve_inputs (serve_coil r) r config.inputs
    else serve_inputs (serve_register lib config.offset_size r) r config.inputs

abbrev pub is_refused_read : Request → Bool
is_refused_read r =
    leb r.naddress 0 || ltb (if is_bit_function r.function then 2000 else 125) r.naddress

unfoldable pub read_response : TextLibrary → Config → Request → Frame → Frame
read_response lib config r res =
    if is_refused_read r
    then refuse_response r.function res
    else payload_response (payload_size r) (serve_payload lib config r) res

abbrev pub request_of : Frame → Request
request_of req = record {
  slave_id = req.buf 6;
  function = req.buf 7;
  address_start = word_at req.buf 8;
  naddress = word_at req.buf 10;
}

-- The first 8 bytes but the length.
abbrev echo_header : Frame → Frame → Frame
echo_header req res = record res {
  buf =
      put (put (put (put (put (put res.buf 0 (req.buf 0)) 1 (req.buf 1)) 2 0) 3 0) 6 (req.buf 6)) 7
        (req.buf 7);
}

-- `modbusmq_prepare_response`; without TCP it does nothing.
unfoldable pub prepare_response : TextLibrary → Config → Bool → Frame → Frame → Frame
prepare_response lib config is_tcp req res =
    let r = request_of req in
    if not is_tcp
    then res
    else if is_write_function r.function
    then write_response r.function req (echo_header req res)
    else read_response lib config r (echo_header req res)
