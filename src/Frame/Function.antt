-- ===== src/Frame/Function.antt =====
-- The function codes of lib/modbusmq_internal.h.
use modbusmq.Base.{ℕ}

abbrev pub read_coils : ℕ
read_coils = 0x01

abbrev pub read_discrete_inputs : ℕ
read_discrete_inputs = 0x02

abbrev pub read_holding_registers : ℕ
read_holding_registers = 0x03

abbrev pub read_input_registers : ℕ
read_input_registers = 0x04

abbrev pub write_single_coil : ℕ
write_single_coil = 0x05

abbrev pub write_single_register : ℕ
write_single_register = 0x06

abbrev pub write_multiple_coils : ℕ
write_multiple_coils = 0x0f

abbrev pub write_multiple_registers : ℕ
write_multiple_registers = 0x10

abbrev pub mask_write_register : ℕ
mask_write_register = 0x16
