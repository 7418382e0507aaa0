-- ===== src/Exchange/Shape.antt =====
-- A step of the exchange keeps the places of the two frames, and a request that is written is left
-- alone.
use modbusmq.Exchange.{
  Ready, Link, wrote, write_request, refused, Msg, handle_write_read, read_answer, write_frame,
  reader, set_reader, frame_incomplete, writer, set_writer, before_write,
}
use modbusmq.Transport.Laws.{IsTransport}
use modbusmq.Transport.{Transport}
use modbusmq.Frame.{Frame, Msg, IsExchange, reader, set_reader, writer, set_writer}
use modbusmq.Base.{ℕ, ◌≡◌, arith, ℤ}

-- `modbusmq_read` fills the frame, and leaves its mark alone.
abbrev pub KeepsMark : (Frame → ℤ × Frame) → Type 0
KeepsMark read = (f : Frame) → (read f).1.is_writer ≡ f.is_writer

module _ (t : Transport) (laws : IsTransport t) where
  wrote_keeps_exchange :
      (l : Link) (rc : ℤ) (m : Msg) → IsExchange m → IsExchange (wrote t l rc m).2
  unfolding wrote
  wrote_keeps_exchange l rc m x = record {
    first_writes = ground (arith, x);
    second_reads = ground (arith, x);
  }

  write_keeps_exchange :
      (now : ℕ) (ready : Ready) (sent : ℤ) (l : Link) (m : Msg)
      → IsExchange m
      → IsExchange (write_request t now ready sent l m).2
  unfolding write_request write_frame
  write_keeps_exchange now ready sent l m x =
      let (rc, w) = write_frame sent (writer m) in
      let m' = set_writer m w in
      let x' : IsExchange m' = record {
        first_writes = ground (arith, x);
        second_reads = ground (arith, x);
      } in
      let y = wrote_keeps_exchange (before_write now l (writer m)) rc m' x' in
      record { first_writes = ground (arith, x, y); second_reads = ground (arith, x, y) }

  abbrev Reads : Link → Msg → ℤ × Link × Msg → Type 0
  Reads l m step =
      IsExchange step.2 × (step.2.first ≡ m.first) × (step.1.last_write_ms ≡ l.last_write_ms)

  refused_keeps : (l : Link) (m : Msg) → IsExchange m → Reads l m (refused t l m)
  unfolding refused
  refused_keeps l m x =
      let d = laws.drain_keeps l.context (reader m) in
      (
        record { first_writes = ground (arith, x, d); second_reads = ground (arith, x, d) },
        ground (arith, x),
        ground (arith, x),
      )

  module _ (read : Frame → ℤ × Frame) (marks : KeepsMark read) (now : ℕ) (ready : Ready) where
    read_keeps : (l : Link) (m : Msg) → IsExchange m → Reads l m (read_answer t now ready read l m)
    unfolding read_answer
    read_keeps l m x =
        let m' = set_reader m (read (reader m)).1 in
        let k = marks m.second in
        let x' : IsExchange m' = record {
          first_writes = ground (arith, x);
          second_reads = ground (arith, x, k);
        } in
        let a = laws.header_first l.context m' x' in
        let b = laws.header_second l.context m' x' in
        let m'' = (t.msg_check_header l.context m').1 in
        let x'' : IsExchange m'' = record {
          first_writes = ground (arith, x, x', a);
          second_reads = ground (arith, x', b);
        } in
        let y = refused_keeps (record l { last_read_ms = now }) m'' x'' in
        (
          record {
            first_writes = ground (arith, x, x', x'', y);
            second_reads = ground (arith, x, x', x'', y);
          },
          ground (arith, x, a, y),
          ground (arith, y),
        )

    -- With a request that is written, a step leaves it alone and counts no write.
    pub written_kept :
        (sent : ℤ) (l : Link) (m : Msg)
        → IsExchange m
        → frame_incomplete l.context m.first ≡ 0
        → Reads l m (handle_write_read t now ready sent read l m)
    unfolding handle_write_read
    written_kept sent l m x whole =
        let y = read_keeps l m x in
        (
          record {
            first_writes = ground (arith, x, y, whole);
            second_reads = ground (arith, x, y, whole);
          },
          ground (arith, x, y, whole),
          ground (arith, x, y, whole),
        )

    -- A step keeps the request in the first frame and the answer in the second.
    pub handle_keeps_exchange :
        (sent : ℤ) (l : Link) (m : Msg)
        → IsExchange m
        → IsExchange (handle_write_read t now ready sent read l m).2
    unfolding handle_write_read
    handle_keeps_exchange sent l m x =
        let y = read_keeps l m x in
        let z = write_keeps_exchange now ready sent l m x in
        record { first_writes = ground (arith, x, y, z); second_reads = ground (arith, x, y, z) }
