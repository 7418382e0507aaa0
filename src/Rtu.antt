-- ===== src/Rtu.antt =====
-- lib/modbusmq_rtu.c: serial frames with a trailing CRC-16.
pub mod Crc
pub mod Request
pub mod Check
pub mod Drain
pub mod Accept
pub mod Damage
pub mod Stale
pub mod Sending
