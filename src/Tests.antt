-- ===== src/Tests.antt =====
-- Runs on concrete inputs, a module per component.
pub mod Rtu
pub mod Tcp
pub mod Queue
pub mod Slave
pub mod Round
pub mod Build
pub mod Exchange
pub mod Codec
pub mod Loop
pub mod Raw
pub mod System
pub mod Subscribe
pub mod Publish
pub mod Server
pub mod Settings
pub mod Send
use modbusmq.Base.{ℕ, List, get_or}

-- A buffer that holds these bytes and 0 behind them.
abbrev pub buffer : List ℕ → ℕ → ℕ
buffer bytes i = get_or bytes i 0
