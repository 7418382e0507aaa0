-- ===== src/Server/Bounds.antt =====
-- The virtual server writes within the frame, whatever the request.
use mathlib.Core.Path.{subst}
use modbusmq.Base.{
  ℕ, ◌+◌, ◌-◌, ◌*◌, ◌/◌, ◌%◌, ◌^◌, ◌≤◌, ◌<◌, ◌≡◌, ◌⊎◌, inl, inr, refl, ◌∙◌, arith, Bool, true,
  false, Bool-cases, List, [], ◌∷◌, Option, none, some, ◌==◌, ltb, leb, if◌then◌else◌, ℤ, pos,
  negsuc, All, ◌||◌, not, sub_ℤ, ap, add_ℤ, scale_ℤ, sub_ℕ,
}
use modbusmq.Frame.{put, IsBytes}
use modbusmq.Codec.{format_size}
use modbusmq.Codec.Encode.{TextLibrary}
use modbusmq.Codec.Bounds.{Stays, encode_value-Stays, Stays-refl}
use modbusmq.Codec.Bounds.Text.{ReadsSix, encode_text-Stays}
use modbusmq.Publish.{format_is_text}
use modbusmq.Server.{
  Channel, Input, Config, Request, under, set_bit, coil_place, serve_coil, register_place,
  encode_default, serve_register, serve_channels, serve_inputs, payload_size, serve_payload,
  is_bit_function, inside, encode_value_text, coil_at, register_at,
}

-- Only places from `a` up to `b` are changed, and to bytes.
pub record Confined (a b : ℕ) (buf buf' : ℕ → ℕ) : Type 0 where
  pub same_outside : (j : ℕ) → (j < a) ⊎ (b ≤ j) → buf' j ≡ buf j
  pub bytes_kept : IsBytes buf → IsBytes buf'

pub Confined-refl : (a b : ℕ) (buf : ℕ → ℕ) → Confined a b buf buf
Confined-refl a b buf = record { same_outside = λ j h. refl; bytes_kept = λ k. k }

pub Confined-trans :
    {a b : ℕ} {x y z : ℕ → ℕ} → Confined a b x y → Confined a b y z → Confined a b x z
Confined-trans p q = record {
  same_outside = λ j h. q.same_outside j h ∙ p.same_outside j h;
  bytes_kept = λ k. q.bytes_kept (p.bytes_kept k);
}

pub put-Confined :
    (a b : ℕ) (buf : ℕ → ℕ) (i v : ℕ) → a ≤ i → i < b → Confined a b buf (put buf i v)
put-Confined a b buf i v h k = record {
  same_outside = λ j out. ground (arith, h, k, out);
  bytes_kept = λ bytes j. ground (arith, bytes j);
}

set_bit-Confined :
    (a b : ℕ) (buf : ℕ → ℕ) (i bit : ℕ) → a ≤ i → i < b → Confined a b buf (set_bit buf i bit)
unfolding set_bit
set_bit-Confined a b buf i bit h k = elim (Bool-cases (buf i / 2 ^ bit % 2 == 1)) [
  | inl set ↦ rw set (Confined-refl a b buf)
  | inr clear ↦ rw clear (put-Confined a b buf i (buf i + 2 ^ bit) h k)
]

under_place : (start j : ℕ) → ltb j start ≡ false → start + (j - start) ≡ j
under_place start j h = ground arith

outside_under :
    (a b start n j : ℕ)
    → a ≤ start
    → start + n ≤ b
    → ltb j start ≡ false
    → (j < a) ⊎ (b ≤ j)
    → n ≤ j - start
outside_under a b start n j h k behind out = ground arith

under-Confined :
    (a b start n : ℕ) (change : (ℕ → ℕ) → ℕ → ℕ) (buf : ℕ → ℕ)
    → a ≤ start
    → start + n ≤ b
    → Stays n (λ i. buf (start + i)) (change (λ i. buf (start + i)))
    → Confined a b buf (under start change buf)
under-Confined a b start n change buf h k s = record {
  same_outside = λ j out. elim (Bool-cases (ltb j start)) [
    | inl before ↦ rw before refl
    | inr behind ↦ rw behind (
        s.same_behind (j - start) (outside_under a b start n j h k behind out)
        ∙ ap buf (under_place start j behind))
  ];
  bytes_kept = λ bytes j. elim (Bool-cases (ltb j start)) [
    | inl before ↦ rw before (bytes j)
    | inr behind ↦ rw behind (s.bytes_stay (λ i. bytes (start + i)) (j - start))
  ];
}

inside_found :
    (fits : ℕ → Bool) (k n : ℕ) (good : Bool)
    → fits k ≡ good
    → (if good then some k else none) ≡ some n
    → fits n ≡ true
inside_found fits k n true g e = let k_is_n : k ≡ n = cc e in subst (λ v. fits v ≡ true) k_is_n g
inside_found fits k n false g e = absurd (cc e)

inside-some : (fits : ℕ → Bool) (z : ℤ) (n : ℕ) → inside fits z ≡ some n → fits n ≡ true
unfolding inside
inside-some fits (pos k) n e = inside_found fits k n (fits k) refl e
inside-some fits (negsuc k) n e = absurd (cc e)

pub coil_place-lt :
    (r : Request) (input : Input) (channel : Channel) (icoil : ℕ)
    → coil_place r input channel ≡ some icoil
    → icoil < r.naddress
unfolding coil_place
coil_place-lt r input channel icoil e =
    let fits =
      inside-some (λ n. ltb n r.naddress)
        (sub_ℤ (add_ℤ input.address channel.offset) (pos r.address_start)) icoil e in
    ground (arith, fits)

pub register_place-lt :
    (size : ℕ) (r : Request) (input : Input) (channel : Channel) (place : ℕ)
    → register_place size r input channel ≡ some place
    → place + channel.length ≤ r.naddress * 2
unfolding register_place
register_place-lt size r input channel place e =
    let unit = if ltb 0 size then size else 1 in
    let fits =
      inside-some (λ n. leb (n + channel.length) (r.naddress * 2))
        (sub_ℤ (scale_ℤ unit channel.offset) (scale_ℤ 2 (sub_ℕ r.address_start input.address)))
        place e in
    ground (arith, fits)

abbrev pub IsSized : Channel → Type 0
IsSized channel = format_size channel.format ≤ channel.length

-- The parser asks for a format, whose length it stores, only of the channels in use of an input of
-- registers: those of coils and discrete inputs have none.
abbrev pub IsSizedInput : Input → Type 0
IsSizedInput input =
    (is_bit_function input.type ≡ true)
    ⊎ All (λ channel. (channel.used ≡ false) ⊎ IsSized channel) input.channels

either-Confined :
    {a b : ℕ} {buf : ℕ → ℕ} (test : Bool) (x y : ℕ → ℕ)
    → Confined a b buf x
    → Confined a b buf y
    → Confined a b buf (if test then x else y)
either-Confined true x y p q = p
either-Confined false x y p q = q

coil_at-Confined :
    (n : ℕ) (is_on : Bool) (place : Option ℕ) (buf : ℕ → ℕ)
    → ((icoil : ℕ) → place ≡ some icoil → icoil < n)
    → Confined 9 (9 + (n + 7) / 8) buf (coil_at 9 is_on place buf)
unfolding coil_at
coil_at-Confined n is_on none buf inner = Confined-refl 9 (9 + (n + 7) / 8) buf
coil_at-Confined n is_on (some icoil) buf inner =
    let b = 9 + (n + 7) / 8 in
    either-Confined is_on (set_bit buf (9 + icoil / 8) (icoil % 8)) buf
      (set_bit-Confined 9 b buf (9 + icoil / 8) (icoil % 8) (omega arith)
        (omega (arith, inner icoil refl)))
      (Confined-refl 9 b buf)

pub coil-Confined :
    (r : Request) (input : Input) (channel : Channel) (buf : ℕ → ℕ)
    → Confined 9 (9 + (r.naddress + 7) / 8) buf (serve_coil r input channel buf)
unfolding serve_coil
coil-Confined r input channel buf =
    let place = coil_place r input channel in
    either-Confined (not channel.used) buf (coil_at 9 channel.is_on place buf)
      (Confined-refl 9 (9 + (r.naddress + 7) / 8) buf)
      (coil_at-Confined r.naddress channel.is_on place buf (coil_place-lt r input channel))

value_text-Stays :
    (lib : TextLibrary) (six : ReadsSix lib) (channel : Channel) (room : ℕ) (text : Option (List ℕ))
    (out : ℕ → ℕ)
    → IsSized channel
    → Stays channel.length out (encode_value_text lib channel room text out)
unfolding encode_value_text
value_text-Stays lib six channel room none out sized = Stays-refl channel.length out
value_text-Stays lib six channel room (some text) out sized =
    encode_text-Stays lib six channel.format channel.length text room out sized

default-Stays :
    (lib : TextLibrary) (six : ReadsSix lib) (channel : Channel) (room : ℕ) (out : ℕ → ℕ)
    → IsSized channel
    → Stays channel.length out (encode_default lib channel room out)
unfolding encode_default
default-Stays lib six channel room out sized =
    either (format_is_text channel.format)
      (value_text-Stays lib six channel room channel.value_text out sized)
      (encode_value-Stays channel.format channel.value channel.length out sized)
  where
    either :
        (test : Bool) {x y : ℕ → ℕ}
        → Stays channel.length out x
        → Stays channel.length out y
        → Stays channel.length out (if test then x else y)
    either true p q = p
    either false p q = q

register_at-Confined :
    (lib : TextLibrary) (six : ReadsSix lib) (channel : Channel) (n : ℕ) (place : Option ℕ)
    (buf : ℕ → ℕ)
    → IsSized channel
    → ((p : ℕ) → place ≡ some p → p + channel.length ≤ n)
    → Confined 9 (9 + n) buf (register_at lib channel n place buf)
unfolding register_at
register_at-Confined lib six channel n none buf sized inner = Confined-refl 9 (9 + n) buf
register_at-Confined lib six channel n (some p) buf sized inner =
    under-Confined 9 (9 + n) (9 + p) channel.length (encode_default lib channel (n - p)) buf
      (omega arith) (omega (arith, inner p refl))
      (default-Stays lib six channel (n - p) (λ i. buf (9 + p + i)) sized)

register-Confined :
    (lib : TextLibrary) (six : ReadsSix lib) (size : ℕ) (r : Request) (input : Input)
    (channel : Channel) (buf : ℕ → ℕ)
    → (channel.used ≡ false) ⊎ IsSized channel
    → Confined 9 (9 + r.naddress * 2) buf (serve_register lib size r input channel buf)
unfolding serve_register
register-Confined lib six size r input channel buf (inl unused) =
    rw unused (Confined-refl 9 (9 + r.naddress * 2) buf)
register-Confined lib six size r input channel buf (inr sized) =
    let n = r.naddress * 2 in
    let place = register_place size r input channel in
    either-Confined (not channel.used) buf (register_at lib channel n place buf)
      (Confined-refl 9 (9 + n) buf)
      (register_at-Confined lib six channel n place buf sized
        (register_place-lt size r input channel))

channels-Confined :
    (P : Channel → Type 0) (b : ℕ) (serve : Channel → (ℕ → ℕ) → ℕ → ℕ) (channels : List Channel)
    (buf : ℕ → ℕ)
    → ((channel : Channel) (x : ℕ → ℕ) → P channel → Confined 9 b x (serve channel x))
    → All P channels
    → Confined 9 b buf (serve_channels serve channels buf)
unfolding serve_channels
channels-Confined P b serve [] buf one sized = Confined-refl 9 b buf
channels-Confined P b serve (channel ∷ channels) buf one sized =
    Confined-trans (one channel buf sized.0)
      (channels-Confined P b serve channels (serve channel buf) one sized.1)

inputs-Confined :
    (b : ℕ) (serve : Input → Channel → (ℕ → ℕ) → ℕ → ℕ) (r : Request) (inputs : List Input)
    (buf : ℕ → ℕ)
    → ((input : Input) (x : ℕ → ℕ)
        → input.type ≡ r.function
        → IsSizedInput input
        → Confined 9 b x (serve_channels (serve input) input.channels x))
    → All IsSizedInput inputs
    → Confined 9 b buf (serve_inputs serve r inputs buf)
unfolding serve_inputs
inputs-Confined b serve r [] buf one sized = Confined-refl 9 b buf
inputs-Confined b serve r (input ∷ inputs) buf one sized =
    let other = not (input.slave == r.slave_id) || not (input.type == r.function) in
    let buf' = if other then buf else serve_channels (serve input) input.channels buf in
    Confined-trans
      (elim (Bool-cases other) [
        | inl skipped ↦ rw skipped (Confined-refl 9 b buf)
        | inr taken ↦ rw taken (one input buf (ground (arith, taken)) sized.0)
      ])
      (inputs-Confined b serve r inputs buf' one sized.1)

every_channel : (channels : List Channel) → All {0, 0} (λ _. Unit) channels
every_channel [] = tt
every_channel (channel ∷ channels) = (tt, every_channel channels)

-- An input of registers that is sized, served.
registers-Confined :
    (lib : TextLibrary) (six : ReadsSix lib) (size : ℕ) (r : Request) (input : Input) (x : ℕ → ℕ)
    → is_bit_function r.function ≡ false
    → input.type ≡ r.function
    → IsSizedInput input
    → Confined 9
        (9 + r.naddress * 2)
        x
        (serve_channels (serve_register lib size r input) input.channels x)
registers-Confined lib six size r input x words same (inl bits) =
    absurd (ground (arith, words, same, bits))
registers-Confined lib six size r input x words same (inr sized) =
    channels-Confined (λ channel. (channel.used ≡ false) ⊎ IsSized channel) (9 + r.naddress * 2)
      (serve_register lib size r input) input.channels x (register-Confined lib six size r input)
      sized

-- The loops that fill the payload of a response stay in it.
pub serve_payload-Confined :
    (lib : TextLibrary) (six : ReadsSix lib) (config : Config) (r : Request) (buf : ℕ → ℕ)
    → All IsSizedInput config.inputs
    → Confined 9 (9 + payload_size r) buf (serve_payload lib config r buf)
unfolding serve_payload
serve_payload-Confined lib six config r buf sized = elim (Bool-cases (is_bit_function r.function)) [
  | inl bits ↦ rw bits (
      inputs-Confined (9 + (r.naddress + 7) / 8) (serve_coil r) r config.inputs buf
        (λ input x _ _.
          channels-Confined (λ _. Unit) (9 + (r.naddress + 7) / 8) (serve_coil r input)
            input.channels x (λ channel y _. coil-Confined r input channel y)
            (every_channel input.channels))
        sized)
  | inr words ↦ rw words (
      inputs-Confined (9 + r.naddress * 2) (serve_register lib config.offset_size r) r config.inputs
        buf (λ input x. registers-Confined lib six config.offset_size r input x words) sized)
]
