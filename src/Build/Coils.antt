-- ===== src/Build/Coils.antt =====
-- Coils as they stand in a request.
use modbusmq.Base.{
  ℕ, ◌<◌, arith, ◌*◌, if◌then◌else◌, ◌/◌, ◌+◌, ◌≡◌, leb, ◌^◌, ◌%◌, suc, zero, ltb, refl, ◌≤◌, pos,
  ap, ◌∙◌,
}
use native.Mathlib.Nat.{zero-add}
use modbusmq.Frame.{Frame, Context, frame_max}
use modbusmq.Transport.{Transport}
use modbusmq.Build.{coil_bit, pack_byte, coil_loop, append_byte, coil_bytes, frame_write_coil_bits}

coil_bit-lt : (bits : ℕ → ℕ) (i : ℕ) → coil_bit bits i < 2
unfolding coil_bit
coil_bit-lt bits i = ground arith

-- A coil of the request, and 0 for the padding behind the last.
unfoldable pub padded : (ℕ → ℕ) → ℕ → ℕ → ℕ
padded bits nbits i = if leb nbits i then 0 else coil_bit bits i

padded-lt : (bits : ℕ → ℕ) (nbits i : ℕ) → padded bits nbits i < 2
unfolding padded
padded-lt bits nbits i = ground (arith, coil_bit-lt bits i)

module _ (bits : ℕ → ℕ) (nbits ibyte : ℕ) where
  abbrev bit : ℕ → ℕ
  bit j = padded bits nbits (ibyte * 8 + j)

  pack_byte_sum :
      pack_byte bits nbits ibyte
      ≡ bit 0
        + bit 1 * 2
        + bit 2 * 4
        + bit 3 * 8
        + bit 4 * 16
        + bit 5 * 32
        + bit 6 * 64
        + bit 7 * 128
  unfolding pack_byte padded
  pack_byte_sum = ground arith

  ruleset bit_bounds = (arith, pack_byte_sum, padded-lt)

  pack_byte-lt : pack_byte bits nbits ibyte < 256
  pack_byte-lt = omega bit_bounds

  packed_bit : (j : ℕ) → j < 8 → pack_byte bits nbits ibyte / 2 ^ j % 2 ≡ bit j
  packed_bit zero h = omega bit_bounds
  packed_bit (suc zero) h = omega bit_bounds
  packed_bit (suc (suc zero)) h = omega bit_bounds
  packed_bit (suc (suc (suc zero))) h = omega bit_bounds
  packed_bit (suc (suc (suc (suc zero)))) h = omega bit_bounds
  packed_bit (suc (suc (suc (suc (suc zero))))) h = omega bit_bounds
  packed_bit (suc (suc (suc (suc (suc (suc zero)))))) h = omega bit_bounds
  packed_bit (suc (suc (suc (suc (suc (suc (suc zero))))))) h = omega bit_bounds
  packed_bit (suc (suc (suc (suc (suc (suc (suc (suc j)))))))) h = absurd (omega arith)

padded_lem :
    (bits : ℕ → ℕ) (nbits i : ℕ)
    → padded bits nbits i ≡ (if ltb i nbits then coil_bit bits i else 0)
unfolding padded
padded_lem bits nbits i = ground arith

module _ (bits : ℕ → ℕ) (nbits : ℕ) where
  coil_loop_keeps :
      (left i : ℕ) (f : Frame)
      → ((coil_loop bits nbits left i f).length ≡ f.length + left)
        × ((j : ℕ) → j < f.length → (coil_loop bits nbits left i f).buf j ≡ f.buf j)
  unfolding coil_loop append_byte
  coil_loop_keeps zero i f = (omega arith, λ j h. refl)
  coil_loop_keeps (suc left) i f =
      let rest = coil_loop_keeps left (i + 1) (append_byte f (pack_byte bits nbits i)) in
      (omega (arith, rest.0), λ j h. ground (arith, rest.1 j))

  coil_loop_writes :
      (left i : ℕ) (f : Frame) (k : ℕ)
      → k < left
      → (coil_loop bits nbits left i f).buf (f.length + k) ≡ pack_byte bits nbits (i + k)
  unfolding coil_loop append_byte
  coil_loop_writes zero i f k h = absurd (omega arith)
  coil_loop_writes (suc left) i f zero h =
      let g = append_byte f (pack_byte bits nbits i) in
      let keeps = coil_loop_keeps left (i + 1) g in
      let here : f.length + 0 ≡ f.length = omega arith in
      let first : i + 0 ≡ i = omega arith in
      rw (here, first) (ground (arith, keeps.1 f.length, pack_byte-lt bits nbits i))
  coil_loop_writes (suc left) i f (suc k) h =
      let g = append_byte f (pack_byte bits nbits i) in
      let there : f.length + suc k ≡ f.length + 1 + k = omega arith in
      let next : i + suc k ≡ i + 1 + k = omega arith in
      rw (there, next) (coil_loop_writes left (i + 1) g k (omega arith))

module _ (t : Transport) (c : Context) (addr nbits : ℕ) (bits : ℕ → ℕ) (frame : Frame) where
  abbrev header : Frame
  header = t.write_coil_bits c addr nbits

  abbrev payload : Frame
  payload = coil_loop bits nbits (coil_bytes nbits) 0 (append_byte header (coil_bytes nbits))

  accepted_coils :
      0 < nbits
      → nbits ≤ 1968
      → header.length + 1 + coil_bytes nbits ≤ frame_max
      → frame_write_coil_bits t c addr nbits bits frame ≡ (pos payload.length, payload)
  unfolding frame_write_coil_bits
  accepted_coils some_coil few fits = ground arith

  payload_length : payload.length ≡ header.length + 1 + coil_bytes nbits
  unfolding append_byte
  payload_length =
      (coil_loop_keeps bits nbits (coil_bytes nbits) 0 (append_byte header (coil_bytes nbits))).0

  payload_keeps :
      (j : ℕ)
      → j < header.length + 1
      → payload.buf j ≡ (append_byte header (coil_bytes nbits)).buf j
  unfolding append_byte
  payload_keeps =
      (coil_loop_keeps bits nbits (coil_bytes nbits) 0 (append_byte header (coil_bytes nbits))).1

  header_kept : (j : ℕ) → j < header.length → payload.buf j ≡ header.buf j
  unfolding append_byte
  header_kept j h = ground (arith, payload_keeps j)

  count_written : nbits ≤ 1968 → payload.buf header.length ≡ coil_bytes nbits
  unfolding append_byte
  count_written few = ground (arith, payload_keeps header.length)

  byte_written :
      (k : ℕ) → k < coil_bytes nbits → payload.buf (header.length + 1 + k) ≡ pack_byte bits nbits k
  unfolding append_byte
  byte_written k h =
      coil_loop_writes bits nbits (coil_bytes nbits) 0 (append_byte header (coil_bytes nbits)) k h
      ∙ ap (pack_byte bits nbits) (zero-add k)

  bit_written :
      (i : ℕ)
      → i / 8 < coil_bytes nbits
      → payload.buf (header.length + 1 + i / 8) / 2 ^ (i % 8) % 2
        ≡ (if ltb i nbits then coil_bit bits i else 0)
  bit_written i h =
      let split : i / 8 * 8 + i % 8 ≡ i = omega arith in
      ap (λ b. b / 2 ^ (i % 8) % 2) (byte_written (i / 8) h)
      ∙ packed_bit bits nbits (i / 8) (i % 8) (omega arith)
      ∙ ap (padded bits nbits) split
      ∙ padded_lem bits nbits i

  -- A write of 1 to 1968 coils that the transport's header leaves room for is built, and fits the
  -- buffer: the header as the transport wrote it, the byte count, and coil `i` in bit `i % 8` of
  -- byte `i / 8`, 1 where its value is not 0. The bits behind the last coil are 0.
  pub frame_write_coil_bits_reads_back :
      0 < nbits
      → nbits ≤ 1968
      → header.length + 1 + coil_bytes nbits ≤ frame_max
      → let (rc, f) = frame_write_coil_bits t c addr nbits bits frame in
        (rc ≡ pos (header.length + 1 + coil_bytes nbits))
        × (f.length ≡ header.length + 1 + coil_bytes nbits)
        × ((j : ℕ) → j < header.length → f.buf j ≡ header.buf j)
        × (f.buf header.length ≡ coil_bytes nbits)
        × ((i : ℕ)
            → i / 8 < coil_bytes nbits
            → f.buf (header.length + 1 + i / 8) / 2 ^ (i % 8) % 2
              ≡ (if ltb i nbits then coil_bit bits i else 0))
  frame_write_coil_bits_reads_back some_coil few fits =
      rw (accepted_coils some_coil few fits)
        (ap pos payload_length, payload_length, header_kept, count_written few, bit_written)
