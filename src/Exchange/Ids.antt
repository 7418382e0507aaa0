-- ===== src/Exchange/Ids.antt =====
-- A step of the exchange leaves the id of its request alone.
use modbusmq.Base.{ℕ, ◌≡◌, arith, ℤ}
use modbusmq.Frame.{Frame, Msg, writer, reader, set_writer, set_reader}
use modbusmq.Transport.{Transport}
use modbusmq.Transport.Laws.{IsTransport}
use modbusmq.Exchange.{
  Link, Ready, wrote, write_frame, before_write, write_request, refused, read_answer,
  handle_write_read,
}

module _ (t : Transport) (laws : IsTransport t) where
  wrote_keeps_id : (l : Link) (rc : ℤ) (m : Msg) → (wrote t l rc m).2.req_id ≡ m.req_id
  unfolding wrote
  wrote_keeps_id l rc m = ground arith

  write_keeps_id :
      (now : ℕ) (ready : Ready) (sent : ℤ) (l : Link) (m : Msg)
      → (write_request t now ready sent l m).2.req_id ≡ m.req_id
  unfolding write_request
  write_keeps_id now ready sent l m = ground (
    arith,
    wrote_keeps_id (before_write now l (writer m)) (write_frame sent (writer m)).0
        (set_writer m (write_frame sent (writer m)).1),
  )

  refused_keeps_id : (l : Link) (m : Msg) → (refused t l m).2.req_id ≡ m.req_id
  unfolding refused
  refused_keeps_id l m = ground arith

  read_keeps_id :
      (now : ℕ) (ready : Ready) (read : Frame → ℤ × Frame) (l : Link) (m : Msg)
      → (read_answer t now ready read l m).2.req_id ≡ m.req_id
  unfolding read_answer
  read_keeps_id now ready read l m =
      let m' = set_reader m (read (reader m)).1 in
      ground (
        arith,
        laws.header_keeps l.context m',
        refused_keeps_id (record l { last_read_ms = now }) (t.msg_check_header l.context m').1,
      )

  pub handle_keeps_id :
      (now : ℕ) (ready : Ready) (sent : ℤ) (read : Frame → ℤ × Frame) (l : Link) (m : Msg)
      → (handle_write_read t now ready sent read l m).2.req_id ≡ m.req_id
  unfolding handle_write_read
  handle_keeps_id now ready sent read l m =
      ground (arith, write_keeps_id now ready sent l m, read_keeps_id now ready read l m)
