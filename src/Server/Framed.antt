-- ===== src/Server/Framed.antt =====
-- The responses of the virtual server stay within the frame.
use modbusmq.Base.{ℕ, ◌+◌, ◌/◌, ◌^◌, ◌≤◌, ◌≡◌, inl, inr, arith, false, Bool-cases, All, true}
use modbusmq.Frame.{put, Frame, frame_max, IsBytes}
use modbusmq.Codec.Encode.{TextLibrary}
use modbusmq.Codec.Bounds.Text.{ReadsSix}
use modbusmq.Server.{
  Config, Request, echo_header, refuse_response, write_response, payload_response, read_response,
  payload_size, serve_payload, is_refused_read, is_bad_write, declare_length, clear_payload,
  prepare_response, request_of, is_write_function,
}
use modbusmq.Server.Bounds.{
  Confined, Confined-trans, put-Confined, serve_payload-Confined, IsSizedInput,
}

-- A response within the frame.
pub record IsFramed (res res' : Frame) : Type 0 where
  pub within_frame : Confined 0 frame_max res.buf res'.buf
  pub short : res'.length ≤ frame_max

declare-Confined : (n : ℕ) (buf : ℕ → ℕ) → Confined 0 frame_max buf (declare_length n buf)
declare-Confined n buf =
    Confined-trans (put-Confined 0 frame_max buf 4 (n / 2 ^ 8) (omega arith) (omega arith))
      (put-Confined 0 frame_max (put buf 4 (n / 2 ^ 8)) 5 n (omega arith) (omega arith))

echo-Confined : (req res : Frame) → Confined 0 frame_max res.buf (echo_header req res).buf
echo-Confined req res = record {
  same_outside = λ j h. ground (arith, h);
  bytes_kept = λ b j. ground (arith, b j);
}

refuse-IsFramed : (function : ℕ) (res : Frame) → IsFramed res (refuse_response function res)
unfolding refuse_response
refuse-IsFramed function res = record {
  within_frame = record {
    same_outside = λ j h. ground (arith, h);
    bytes_kept = λ b j. ground (arith, b j);
  };
  short = omega arith;
}

write-IsFramed : (function : ℕ) (req res : Frame) → IsFramed res (write_response function req res)
unfolding write_response
write-IsFramed function req res = elim (Bool-cases (is_bad_write function req)) [
  | inl bad ↦ rw bad (refuse-IsFramed function res)
  | inr good ↦ rw good (record {
    within_frame = record {
      same_outside = λ j h. ground (arith, h);
      bytes_kept = λ b j. ground (arith, b j);
    };
    short = omega arith;
  })
]

pub payload_size-le : (r : Request) → is_refused_read r ≡ false → payload_size r ≤ 250
payload_size-le r h = ground (arith, h)

widen : {b : ℕ} {x y : ℕ → ℕ} → b ≤ frame_max → Confined 9 b x y → Confined 0 frame_max x y
widen le c = record {
  same_outside = λ j h. c.same_outside j (ground (arith, h, le));
  bytes_kept = c.bytes_kept;
}

clear-Confined : (n : ℕ) (buf : ℕ → ℕ) → Confined 9 (9 + n) buf (clear_payload n buf)
clear-Confined n buf = record {
  same_outside = λ j h. ground (arith, h);
  bytes_kept = λ b j. ground (arith, b j);
}

module _ (lib : TextLibrary) (six : ReadsSix lib) (config : Config)
    (sized : All IsSizedInput config.inputs) where
  pub filled-Confined :
      (r : Request) (buf : ℕ → ℕ)
      → Confined 9
          (9 + payload_size r)
          buf
          (serve_payload lib config r (clear_payload (payload_size r) buf))
  filled-Confined r buf =
      Confined-trans (clear-Confined (payload_size r) buf)
        (serve_payload-Confined lib six config r (clear_payload (payload_size r) buf) sized)

  payload-IsFramed :
      (r : Request) (res : Frame)
      → is_refused_read r ≡ false
      → IsFramed res (payload_response (payload_size r) (serve_payload lib config r) res)
  unfolding payload_response
  payload-IsFramed r res served =
      let n = payload_size r in
      let small : n ≤ 250 = payload_size-le r served in
      let filled = serve_payload lib config r (clear_payload n res.buf) in
      record {
        within_frame = Confined-trans (widen (omega (arith, small)) (filled-Confined r res.buf)) (
            Confined-trans (put-Confined 0 frame_max filled 8 n (omega arith) (omega arith))
              (declare-Confined (n + 3) (put filled 8 n)));
        short = omega (arith, small);
      }

  read-IsFramed : (r : Request) (res : Frame) → IsFramed res (read_response lib config r res)
  unfolding read_response
  read-IsFramed r res = elim (Bool-cases (is_refused_read r)) [
    | inl refused ↦ rw refused (refuse-IsFramed r.function res)
    | inr served ↦ rw served (payload-IsFramed r res served)
  ]

  pub response-IsFramed :
      (req res : Frame) → IsFramed res (prepare_response lib config true req res)
  unfolding prepare_response
  response-IsFramed req res =
      let r = request_of req in
      let start = echo-Confined req res in
      elim (Bool-cases (is_write_function r.function)) [
        | inl writes ↦
            let w = write-IsFramed r.function req (echo_header req res) in
            rw writes
              (record { within_frame = Confined-trans start w.within_frame; short = w.short })
        | inr reads ↦
            let w = read-IsFramed r (echo_header req res) in
            rw reads
              (record { within_frame = Confined-trans start w.within_frame; short = w.short })
      ]

  -- Whatever a client sends over TCP, the virtual server writes its response within the 260 bytes of the frame, keeps it a sequence of bytes, and gives it a length that is no greater: provided that, of the configured inputs of registers, every channel in use has at least the length of its format, and that sscanf gives six numbers where it says so.
  pub response_in_frame :
      (req res : Frame)
      → ((j : ℕ) → frame_max ≤ j → (prepare_response lib config true req res).buf j ≡ res.buf j)
        × (IsBytes res.buf → IsBytes (prepare_response lib config true req res).buf)
        × ((prepare_response lib config true req res).length ≤ frame_max)
  response_in_frame req res =
      let f = response-IsFramed req res in
      (λ j h. f.within_frame.same_outside j (inr h), f.within_frame.bytes_kept, f.short)
