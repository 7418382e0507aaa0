-- ===== src/Tcp.antt =====
-- lib/modbusmq_tcp.c: frames behind an MBAP header of six bytes, with a transaction id.
pub mod Request
pub mod Check
pub mod Drain
pub mod Accept
pub mod Stale
pub mod Sending
