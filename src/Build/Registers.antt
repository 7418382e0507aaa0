-- ===== src/Build/Registers.antt =====
-- Register values as they stand in a request.
use modbusmq.Base.{ℕ, zero, suc, ◌+◌, ◌*◌, ◌/◌, ◌%◌, ◌^◌, ◌<◌, ◌≤◌, ◌≡◌, arith, refl, ap, ◌∙◌, pos}
use native.Mathlib.Nat.{zero-add}
use modbusmq.Frame.{Frame, Context, word_at, frame_max}
use modbusmq.Transport.{Transport}
use modbusmq.Build.{append_byte, register_loop, frame_write_registers}

register_loop_keeps :
    (values : ℕ → ℕ) (left i : ℕ) (f : Frame)
    → ((register_loop values left i f).length ≡ f.length + left * 2)
      × ((j : ℕ) → j < f.length → (register_loop values left i f).buf j ≡ f.buf j)
unfolding register_loop append_byte
register_loop_keeps values zero i f = (omega arith, λ j h. refl)
register_loop_keeps values (suc left) i f =
    let g = append_byte (append_byte f (values i / 256)) (values i % 256) in
    let rest = register_loop_keeps values left (i + 1) g in
    (omega (arith, rest.0), λ j h. ground (arith, rest.1 j))

register_loop_writes :
    (values : ℕ → ℕ) (left i : ℕ) (f : Frame) (k : ℕ)
    → k < left
    → word_at (register_loop values left i f).buf (f.length + k * 2) ≡ values (i + k) % 2 ^ 16
unfolding register_loop append_byte
register_loop_writes values zero i f k h = absurd (omega arith)
register_loop_writes values (suc left) i f zero h =
    let g = append_byte (append_byte f (values i / 256)) (values i % 256) in
    let keeps = register_loop_keeps values left (i + 1) g in
    let here : f.length + 0 ≡ f.length = omega arith in
    let first : i + 0 ≡ i = omega arith in
    rw (here, first) (ground (arith, keeps.1 f.length, keeps.1 (f.length + 1)))
register_loop_writes values (suc left) i f (suc k) h =
    let g = append_byte (append_byte f (values i / 256)) (values i % 256) in
    let there : f.length + suc k * 2 ≡ f.length + 1 + 1 + k * 2 = omega arith in
    let next : i + suc k ≡ i + 1 + k = omega arith in
    rw (there, next) (register_loop_writes values left (i + 1) g k (omega arith))

module _ (t : Transport) (c : Context) (addr naddr : ℕ) (values : ℕ → ℕ) (frame : Frame) where
  abbrev header : Frame
  header = t.write_registers c addr naddr

  accepted_registers :
      0 < naddr
      → naddr ≤ 123
      → header.length + 1 + naddr * 2 ≤ frame_max
      → frame_write_registers t c addr naddr values frame ≡ (
          let f = register_loop values naddr 0 (append_byte header (naddr * 2)) in
          (pos f.length, f))
  unfolding frame_write_registers
  accepted_registers some_value few fits = ground arith

  abbrev payload : Frame
  payload = register_loop values naddr 0 (append_byte header (naddr * 2))

  payload_length : payload.length ≡ header.length + 1 + naddr * 2
  unfolding append_byte
  payload_length = (register_loop_keeps values naddr 0 (append_byte header (naddr * 2))).0

  header_kept : (j : ℕ) → j < header.length → payload.buf j ≡ header.buf j
  unfolding append_byte
  header_kept j h =
      ground (arith, (register_loop_keeps values naddr 0 (append_byte header (naddr * 2))).1 j)

  count_written : naddr ≤ 123 → payload.buf header.length ≡ naddr * 2
  unfolding append_byte
  count_written few =
      ground (
        arith,
        (register_loop_keeps values naddr 0 (append_byte header (naddr * 2))).1 header.length,
      )

  values_written :
      (i : ℕ) → i < naddr → word_at payload.buf (header.length + 1 + i * 2) ≡ values i % 2 ^ 16
  unfolding append_byte
  values_written i h =
      register_loop_writes values naddr 0 (append_byte header (naddr * 2)) i h
      ∙ ap (λ k. values k % 2 ^ 16) (zero-add i)

  -- A write of 1 to 123 registers that the transport's header leaves room for is built, and fits
  -- the buffer: the header as the transport wrote it, the byte count, and each value as a word, high
  -- byte first, where a device reads it.
  pub frame_write_registers_reads_back :
      0 < naddr
      → naddr ≤ 123
      → header.length + 1 + naddr * 2 ≤ frame_max
      → let (rc, f) = frame_write_registers t c addr naddr values frame in
        (rc ≡ pos (header.length + 1 + naddr * 2))
        × (f.length ≡ header.length + 1 + naddr * 2)
        × ((j : ℕ) → j < header.length → f.buf j ≡ header.buf j)
        × (f.buf header.length ≡ naddr * 2)
        × ((i : ℕ) → i < naddr → word_at f.buf (header.length + 1 + i * 2) ≡ values i % 2 ^ 16)
  frame_write_registers_reads_back some_value few fits =
      rw (accepted_registers some_value few fits)
        (ap pos payload_length, payload_length, header_kept, count_written few, values_written)
