-- ===== src/Tests/Build.antt =====
-- Writes over both transports.
use modbusmq.Build.Coils.{frame_write_coil_bits_reads_back}
use modbusmq.Build.Registers.{frame_write_registers_reads_back}
use modbusmq.Build.{frame_write_coil_bits, frame_write_registers, coil_bytes, coil_bit}
use modbusmq.Base.{ℕ, ◌≡◌, [], ◌∷◌, pos, ◌+◌, ◌*◌, ◌<◌, ◌/◌, ◌%◌, ◌^◌, if◌then◌else◌, ltb, arith}
use modbusmq.Frame.{Context, cleared, word_at}
use modbusmq.Transport.{rtu, tcp}
use modbusmq.Tests.{buffer}
use modbusmq.Tcp.Request as TcpRequest
use modbusmq.Rtu.Request as RtuRequest

abbrev context : Context
context = record {
  slave_id = 1;
  transaction_id = 0;
  header_length = 3;
  req_header_min = 8;
  res_header_min = 3;
}

abbrev coils : ℕ → ℕ
coils = buffer (1 ∷ 0 ∷ 1 ∷ 1 ∷ 0 ∷ 0 ∷ 0 ∷ 0 ∷ 7 ∷ 0 ∷ [])

frame_write_coil_bits_reads_back_example :
    let header = rtu.write_coil_bits context 5 10 in
    let (rc, f) = frame_write_coil_bits rtu context 5 10 coils cleared in
    (rc ≡ pos (header.length + 1 + coil_bytes 10))
    × (f.length ≡ header.length + 1 + coil_bytes 10)
    × ((j : ℕ) → j < header.length → f.buf j ≡ header.buf j)
    × (f.buf header.length ≡ coil_bytes 10)
    × ((i : ℕ)
        → i / 8 < coil_bytes 10
        → f.buf (header.length + 1 + i / 8) / 2 ^ (i % 8) % 2
          ≡ (if ltb i 10 then coil_bit coils i else 0))
frame_write_coil_bits_reads_back_example =
    frame_write_coil_bits_reads_back rtu context 5 10 coils cleared (omega arith) (omega arith)
      (unfold RtuRequest.write_coil_bits RtuRequest.frame_init in omega arith)

abbrev values : ℕ → ℕ
values = buffer (0x1234 ∷ 0xffff ∷ [])

frame_write_registers_reads_back_example :
    let header = tcp.write_registers context 5 123 in
    let (rc, f) = frame_write_registers tcp context 5 123 values cleared in
    (rc ≡ pos (header.length + 1 + 123 * 2))
    × (f.length ≡ header.length + 1 + 123 * 2)
    × ((j : ℕ) → j < header.length → f.buf j ≡ header.buf j)
    × (f.buf header.length ≡ 123 * 2)
    × ((i : ℕ) → i < 123 → word_at f.buf (header.length + 1 + i * 2) ≡ values i % 2 ^ 16)
frame_write_registers_reads_back_example =
    frame_write_registers_reads_back tcp context 5 123 values cleared (omega arith) (omega arith)
      (unfold TcpRequest.write_registers TcpRequest.frame_init in omega arith)
