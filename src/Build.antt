-- ===== src/Build.antt =====
-- `modbusmq_frame_read_*` and `modbusmq_frame_write_*` of lib/modbusmq.c: requests with their
-- payload, over either transport. The result is the length, or -1, and the frame. A count that is
-- negative in the source is refused as 0 is.
pub mod Coils
pub mod Registers
use modbusmq.Base.{
  ℕ, zero, suc, ◌+◌, ◌*◌, ◌/◌, ◌%◌, ◌^◌, Bool, true, false, ◌||◌, ◌==◌, ltb, leb, if◌then◌else◌, ℤ,
  pos, negsuc,
}
use modbusmq.Frame.{Frame, Context, put, frame_max}
use modbusmq.Transport.{Transport}

-- `frame->buf[frame->length++] = v`
unfoldable pub append_byte : Frame → ℕ → Frame
append_byte f v = record f { buf = put f.buf f.length v; length = f.length + 1 }

-- A request with no payload.
abbrev pub built : Frame → ℤ × Frame
built f = (pos f.length, f)

unfoldable pub frame_read_coil_bits : Transport → Context → ℕ → ℕ → ℤ × Frame
frame_read_coil_bits t c addr nbits = built (t.read_coil_bits c addr nbits)

unfoldable pub frame_read_input_bits : Transport → Context → ℕ → ℕ → ℤ × Frame
frame_read_input_bits t c addr nbits = built (t.read_input_bits c addr nbits)

unfoldable pub frame_read_holding_registers : Transport → Context → ℕ → ℕ → ℤ × Frame
frame_read_holding_registers t c addr naddr = built (t.read_holding_registers c addr naddr)

unfoldable pub frame_read_input_registers : Transport → Context → ℕ → ℕ → ℤ × Frame
frame_read_input_registers t c addr naddr = built (t.read_input_registers c addr naddr)

unfoldable pub frame_write_coil_bit : Transport → Context → ℕ → ℕ → ℤ × Frame
frame_write_coil_bit t c addr value = built (t.write_coil_bit c addr value)

unfoldable pub frame_write_register : Transport → Context → ℕ → ℕ → ℤ × Frame
frame_write_register t c addr value = built (t.write_register c addr value)

-- `bits[icoil] ? 1 : 0`
unfoldable pub coil_bit : (ℕ → ℕ) → ℕ → ℕ
coil_bit bits icoil = if bits icoil == 0 then 0 else 1

-- The loop over `ibit`, with its `break`; a bit that is or-ed in is not set before.
unfoldable pub pack_loop : (ℕ → ℕ) → ℕ → ℕ → ℕ → ℕ → ℕ → ℕ
pack_loop bits nbits ibyte zero ibit acc = acc
pack_loop bits nbits ibyte (suc left) ibit acc =
    let rest =
      pack_loop bits nbits ibyte left (ibit + 1)
        (acc + coil_bit bits (ibyte * 8 + ibit) * 2 ^ ibit) in
    if leb nbits (ibyte * 8 + ibit) then acc else rest

unfoldable pub pack_byte : (ℕ → ℕ) → ℕ → ℕ → ℕ
unfolding pack_loop
pack_byte bits nbits ibyte = pack_loop bits nbits ibyte 8 0 0

-- The loop over `ibyte`.
unfoldable pub coil_loop : (ℕ → ℕ) → ℕ → ℕ → ℕ → Frame → Frame
coil_loop bits nbits zero ibyte f = f
coil_loop bits nbits (suc left) ibyte f =
    coil_loop bits nbits left (ibyte + 1) (append_byte f (pack_byte bits nbits ibyte))

abbrev pub coil_bytes : ℕ → ℕ
coil_bytes nbits = nbits / 8 + (if nbits % 8 == 0 then 0 else 1)

unfoldable pub frame_write_coil_bits : Transport → Context → ℕ → ℕ → (ℕ → ℕ) → Frame → ℤ × Frame
frame_write_coil_bits t c addr nbits bits frame =
    if leb nbits 0 || ltb 1968 nbits
    then (negsuc 0, frame)
    else (let nb = coil_bytes nbits in
        let f = t.write_coil_bits c addr nbits in
        if ltb frame_max (f.length + 1 + nb)
        then (negsuc 0, f)
        else built (coil_loop bits nbits nb 0 (append_byte f nb)))

-- The loop over the values.
unfoldable pub register_loop : (ℕ → ℕ) → ℕ → ℕ → Frame → Frame
register_loop values zero i f = f
register_loop values (suc left) i f =
    register_loop values left (i + 1)
      (append_byte (append_byte f (values i / 256)) (values i % 256))

unfoldable pub frame_write_registers : Transport → Context → ℕ → ℕ → (ℕ → ℕ) → Frame → ℤ × Frame
frame_write_registers t c addr naddr values frame =
    if leb naddr 0 || ltb 123 naddr
    then (negsuc 0, frame)
    else (let f = t.write_registers c addr naddr in
        if ltb frame_max (f.length + 1 + naddr * 2)
        then (negsuc 0, f)
        else built (register_loop values naddr 0 (append_byte f (naddr * 2))))

-- Masks are the bit patterns of the source's `int`s.
unfoldable pub frame_write_mask_registers : Transport → Context → ℕ → ℕ → ℕ → ℤ × Frame
frame_write_mask_registers t c addr and_mask or_mask =
    let f = t.write_mask_registers c addr and_mask in
    built (append_byte (append_byte f (or_mask / 256)) (or_mask % 256))
