-- ===== src/Rtu/Sending.antt =====
-- Requests as they go on the wire.
use modbusmq.Base.{ℕ, ◌+◌, ◌/◌, ◌%◌, ◌^◌, ◌<◌, ◌≡◌, arith}
use modbusmq.Frame.{Frame, Msg, Context, IsBytes, IsExchange, writer, put}
use modbusmq.Rtu.Crc.{crc16}
use modbusmq.Rtu.Crc.Injective.{crc16-lt}
use modbusmq.Rtu.Crc.Residue.{crc16_residue}
use modbusmq.Rtu.Damage.{crc16_ext}
use modbusmq.Rtu.Request.{
  frame_init, frame_slave, frame_function, frame_addr, frame_naddr, msg_prepare,
}

-- The fields of a request are read back as they were given, each cut to its width on the wire.
pub frame_init_fields :
    (c : Context) (fn addr naddr : ℕ)
    → let f = frame_init c fn addr naddr in
      (frame_slave f ≡ c.slave_id % 2 ^ 8)
      × (frame_function f ≡ fn % 2 ^ 8)
      × (frame_addr f ≡ addr % 2 ^ 16)
      × (frame_naddr f ≡ naddr % 2 ^ 16)
unfolding frame_init frame_slave frame_function frame_addr frame_naddr
frame_init_fields c fn addr naddr = ground arith

-- The request as it is sent.
abbrev pub prepared : Context → Msg → Frame
prepared c m = writer (msg_prepare c m).1

module _ (c : Context) (m : Msg) (x : IsExchange m) (bytes : IsBytes m.first.buf) where
  abbrev checksum : ℕ
  checksum = crc16 m.first.buf m.first.length

  prepared_lem : (prepared c m).length ≡ m.first.length + 2
  unfolding msg_prepare
  prepared_lem = ground arith

  prepared_buf :
      (i : ℕ)
      → (prepared c m).buf i
        ≡ put
            (put m.first.buf m.first.length (checksum % 256))
            (m.first.length + 1)
            (checksum / 256)
            i
  unfolding msg_prepare
  prepared_buf i = ground arith

  prepared_prefix : (i : ℕ) → i < m.first.length → (prepared c m).buf i ≡ m.first.buf i
  prepared_prefix i h = ground (arith, prepared_buf i)

  prepared_crc : crc16 (prepared c m).buf m.first.length ≡ checksum
  prepared_crc = crc16_ext (prepared c m).buf m.first.buf m.first.length prepared_prefix

  prepared_residue : crc16 (prepared c m).buf (m.first.length + 2) ≡ 0
  prepared_residue =
      crc16_residue (prepared c m).buf m.first.length
        (ground (arith, prepared_buf m.first.length, prepared_crc))
        (ground (
          arith,
          prepared_buf (m.first.length + 1),
          prepared_crc,
          crc16-lt m.first.buf m.first.length bytes,
        ))

  -- Preparing a request, of bytes, lengthens it by the two bytes of the checksum, leaves its bytes
  -- as they were, and makes the checksum over the whole of it 0.
  pub msg_prepare_residue :
      ((prepared c m).length ≡ m.first.length + 2)
      × ((i : ℕ) → i < m.first.length → (prepared c m).buf i ≡ m.first.buf i)
      × (crc16 (prepared c m).buf (prepared c m).length ≡ 0)
  msg_prepare_residue = (prepared_lem, prepared_prefix, rw prepared_lem prepared_residue)
