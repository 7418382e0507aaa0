-- ===== src/Raw/Coils.antt =====
-- How `modbusmq_raw_request` hands coils to `modbusmq_frame_write_coil_bits`.
use modbusmq.Build.Coils.{frame_write_coil_bits_reads_back}
use modbusmq.Frame.{Context, frame_max, Frame, cleared}
use modbusmq.Transport.{Transport}
use modbusmq.Build.{coil_bit, frame_write_coil_bits, coil_bytes}
use modbusmq.Raw.{pack_values, raw_bits, write_frame_of, built_frame, Transport, Context, accepted}
use modbusmq.Base.{
  ℕ, ◌≡◌, arith, List, length, ◌≤◌, get_or, ◌<◌, suc, ◌+◌, ◌*◌, ◌∷◌, zero, [], refl, true, ◌/◌, ◌^◌,
  ◌%◌, ℤ, ltb, pos, negsuc, false, ap, ◌∙◌,
}

get_or_beyond : (values : List ℕ) (i d : ℕ) → length values ≤ i → get_or values i d ≡ d
get_or_beyond [] i d h = refl
get_or_beyond (v ∷ values) zero d h = absurd (omega (arith, h))
get_or_beyond (v ∷ values) (suc i) d h = get_or_beyond values i d (omega (arith, h))

pack_beyond : (values : List ℕ) (left i : ℕ) → length values ≤ i → pack_values values left i ≡ 0
unfolding pack_values
pack_beyond values zero i h = refl
pack_beyond values (suc left) i h =
    ground (arith, get_or_beyond values i 0 h, pack_beyond values left (i + 1) (omega (arith, h)))

coil_lost :
    (behind : ℕ → ℕ) (values : List ℕ) (i : ℕ)
    → length values ≤ 8
    → 0 < i
    → i < 16
    → coil_bit (raw_bits behind values) i ≡ 0
unfolding coil_bit raw_bits
coil_lost behind values i few later inside =
    ground (arith, pack_beyond values 8 (i * 8) (omega (arith, few, later)), inside)

built_pos : (p : ℤ × Frame) (n : ℕ) → p.0 ≡ pos n → built_frame p ≡ accepted p.1
unfolding built_frame
built_pos (pos k, f) n e = refl
built_pos (negsuc k, f) n e = ground (arith, e)

-- A raw write of 2 to 8 coils, to any transport whose header leaves room for it: whatever the values,
-- every coil behind the first is written as 0.
pub raw_coils_lost :
    (t : Transport) (behind : ℕ → ℕ) (c : Context) (addr : ℕ) (values : List ℕ) (i : ℕ)
    → (t.write_coil_bits c addr (length values)).length + 2 ≤ frame_max
    → length values ≤ 8
    → 0 < i
    → i < length values
    → (f : Frame) × (write_frame_of t behind true c 15 addr values ≡ accepted f)
      × (f.buf ((t.write_coil_bits c addr (length values)).length + 1) / 2 ^ i % 2 ≡ 0)
unfolding write_frame_of built_frame
raw_coils_lost t behind c addr values i fits few later inside =
    let n = length values in
    let bits = raw_bits behind values in
    let header = t.write_coil_bits c addr n in
    let all =
      frame_write_coil_bits_reads_back t c addr n bits cleared (omega (arith, later, inside))
        (omega (arith, few)) (ground (arith, fits, few)) in
    let f = (frame_write_coil_bits t c addr n bits cleared).1 in
    let place : header.length + 1 ≡ header.length + 1 + i / 8 = omega (arith, few, inside) in
    let bit : i ≡ i % 8 = omega (arith, few, inside) in
    let some_coil : ltb n 1 ≡ false = ground (arith, later, inside) in
    (
      f,
      rw some_coil (
          built_pos (frame_write_coil_bits t c addr n bits cleared)
            (header.length + 1 + coil_bytes n) all.0),
      ap (λ k. f.buf k / 2 ^ i % 2) place
          ∙ ap (λ b. f.buf (header.length + 1 + i / 8) / 2 ^ b % 2) bit
          ∙ all.4 i (ground (arith, few, inside, later))
          ∙ ground (arith, coil_lost behind values i few later (omega (arith, few, inside))),
    )
