-- ===== src/Send/Ending.antt =====
-- A request that is waited for ends in its time.
use modbusmq.Base.{ℕ, ◌^◌, ◌≤◌, ◌<◌, List, [], ◌∷◌, ◌⊎◌}
use modbusmq.Transport.{Transport}
use modbusmq.Loop.{Loop}
use modbusmq.Send.{Turn}

-- One of the turns begins when the time is over.
abbrev pub Expires : ℕ → List Turn → Type 0
Expires end [] = ⊥
Expires end (turn ∷ turns) = ((end ≤ turn.now) × (turn.now < 2 ^ 64)) ⊎ Expires end turns
