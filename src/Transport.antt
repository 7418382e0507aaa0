-- ===== src/Transport.antt =====
-- `modbusmq_cb_t` of lib/modbusmq_internal.h: what the rest of the library asks of a transport, and
-- the tables that `modbusmq_rtu_context` and `modbusmq_tcp_context` fill in. `none` for an address is
-- the failing `assert` of lib/modbusmq_tcp.c.
pub mod Laws
use modbusmq.Base.{ℕ, Bool, ℤ, Option, some}
use modbusmq.Frame.{Frame, Msg, Context}
use modbusmq.Rtu.Request as RtuRequest
use modbusmq.Rtu.Check as RtuCheck
use modbusmq.Rtu.Drain as RtuDrain
use modbusmq.Tcp.Request as TcpRequest
use modbusmq.Tcp.Check as TcpCheck
use modbusmq.Tcp.Drain as TcpDrain

pub record Transport : Type 0 where
  pub frame_init : Context → ℕ → ℕ → ℕ → Frame
  pub msg_prepare : Context → Msg → Context × Msg
  pub msg_check : Context → Msg → ℤ × Msg
  pub msg_check_header : Context → Msg → ℤ × Msg
  pub frame_drain : Context → Frame → ℤ × Frame
  pub frame_slave : Frame → ℕ
  pub frame_function : Frame → ℕ
  pub frame_addr : Frame → Option ℕ
  pub msg_exception : Msg → ℕ
  pub msg_broadcast : Msg → Bool
  pub read_coil_bits : Context → ℕ → ℕ → Frame
  pub read_input_bits : Context → ℕ → ℕ → Frame
  pub read_holding_registers : Context → ℕ → ℕ → Frame
  pub read_input_registers : Context → ℕ → ℕ → Frame
  pub write_coil_bit : Context → ℕ → ℕ → Frame
  pub write_register : Context → ℕ → ℕ → Frame
  pub write_coil_bits : Context → ℕ → ℕ → Frame
  pub write_registers : Context → ℕ → ℕ → Frame
  pub write_mask_registers : Context → ℕ → ℕ → Frame

abbrev pub rtu : Transport
rtu = record {
  frame_init = RtuRequest.frame_init;
  msg_prepare = RtuRequest.msg_prepare;
  msg_check = RtuCheck.msg_check;
  msg_check_header = RtuCheck.msg_check_header;
  frame_drain = RtuDrain.frame_drain;
  frame_slave = RtuRequest.frame_slave;
  frame_function = RtuRequest.frame_function;
  frame_addr = λ f. some (RtuRequest.frame_addr f);
  msg_exception = RtuRequest.msg_exception;
  msg_broadcast = RtuCheck.msg_broadcast;
  read_coil_bits = RtuRequest.read_coil_bits;
  read_input_bits = RtuRequest.read_input_bits;
  read_holding_registers = RtuRequest.read_holding_registers;
  read_input_registers = RtuRequest.read_input_registers;
  write_coil_bit = RtuRequest.write_coil_bit;
  write_register = RtuRequest.write_register;
  write_coil_bits = RtuRequest.write_coil_bits;
  write_registers = RtuRequest.write_registers;
  write_mask_registers = RtuRequest.write_mask_registers;
}

abbrev pub tcp : Transport
tcp = record {
  frame_init = TcpRequest.frame_init;
  msg_prepare = TcpRequest.msg_prepare;
  msg_check = λ _. TcpCheck.msg_check;
  msg_check_header = λ _. TcpCheck.msg_check_header;
  frame_drain = λ _. TcpDrain.frame_drain;
  frame_slave = TcpRequest.frame_slave;
  frame_function = TcpRequest.frame_function;
  frame_addr = TcpRequest.frame_addr;
  msg_exception = TcpRequest.msg_exception;
  msg_broadcast = TcpRequest.msg_broadcast;
  read_coil_bits = TcpRequest.read_coil_bits;
  read_input_bits = TcpRequest.read_input_bits;
  read_holding_registers = TcpRequest.read_holding_registers;
  read_input_registers = TcpRequest.read_input_registers;
  write_coil_bit = TcpRequest.write_coil_bit;
  write_register = TcpRequest.write_register;
  write_coil_bits = TcpRequest.write_coil_bits;
  write_registers = TcpRequest.write_registers;
  write_mask_registers = TcpRequest.write_mask_registers;
}
