-- ===== src/RunLoop/Timers/Edits.antt =====
-- What code outside of `ProcessExpiredTimers` does to the timers of HAPPlatformRunLoop.c.
use homekit_bridge.Base.{ℕ, ◌≡◌, some, List, arith}
use homekit_bridge.Base.Outcome.{ok}
use homekit_bridge.RunLoop.Timers.{Timer, new_timer, register, deregister}
use homekit_bridge.RunLoop.Timers.Expiry.{deregister-unlink}
use homekit_bridge.RunLoop.Timers.Order.{Sorted, Sorted-insert, Sorted-unlink}

-- Timers are registered, with any deadlines, and deregistered.
pub data Edits : List Timer → List Timer → Type 0 where
  unchanged : (ts : List Timer) → Edits ts ts
  registers :
      (ts us : List Timer) (p deadline callback context : ℕ)
      → Edits ts us
      → Edits ts (register (some p) deadline callback context us).0
  deregisters :
      (ts us vs : List Timer) (p : ℕ) → deregister p us ≡ ok vs → Edits ts us → Edits ts vs

-- The order is kept, also where a deadline is 0.
pub Edits-Sorted : (ts us : List Timer) → Edits ts us → Sorted ts → Sorted us
unfolding register
Edits-Sorted ts _ (unchanged _) s = s
Edits-Sorted ts _ (registers _ us p d cb ctx c) s =
    Sorted-insert (new_timer p d cb ctx) d us (ground arith) (ground arith) (Edits-Sorted ts us c s)
Edits-Sorted ts vs (deregisters _ us _ p e c) s =
    Sorted-unlink p us vs (deregister-unlink p us vs e) (Edits-Sorted ts us c s)
