-- ===== src/LuaTime/Actions.antt =====
-- What Lua programs and the run loop do to the timers of bridge/src/ltimelib.c, one after the other.
use homekit_bridge.Base.{ℕ, ◌≡◌, Option, none, some, List, [], ◌∷◌}
use homekit_bridge.Base.Outcome.{Outcome, ok, abort, ◌>>=◌}
use homekit_bridge.RunLoop.Timers.{Timer}
use homekit_bridge.RunLoop.Timers.Find.{Unused}
use homekit_bridge.LuaTime.{
  Object, World, Entry, itself, stored, drop_timer, create_timer, start, stop, collect, sleep,
  fire_next,
}
use homekit_bridge.LuaTime.Valid.{Valid}

-- The calls of Lua programs, the collector and a round of the run loop, with the address of the object
-- or of the coroutine, the milliseconds, the arguments behind them, the time, and the answer of the allocator.
pub data Action (V : Type 0) : Type 0 where
  creating : ℕ → List V → Action V
  starting : ℕ → Option ℕ → List Entry → ℕ → Option ℕ → Action V
  stopping : ℕ → Action V
  collecting : ℕ → Action V
  sleeping : ℕ → Option ℕ → ℕ → Option ℕ → Action V
  firing : ℕ → Action V

-- The allocator answers with an address that no timer has.
abbrev pub Fresh : Option ℕ → List Timer → Type 0
Fresh none ts = Unit
Fresh (some p) ts = Unused p ts

module _ {V : Type 0} where
  abbrev pub first : {A : Type 0} → Outcome (World V × A) → Outcome (World V)
  first (ok (w, x)) = ok w
  first abort = abort

  unfoldable pub perform : Action V → World V → Outcome (World V)
  perform (creating ctx values) w = ok (create_timer ctx values w)
  perform (starting ctx ms extra now alloc) w = first (start ctx ms extra now alloc w)
  perform (stopping ctx) w = stop ctx w
  perform (collecting ctx) w = collect ctx w
  perform (sleeping thread ms now alloc) w = ok (sleep thread ms now alloc w).0
  perform (firing now) w = first (fire_next now w)

  unfoldable pub performs : List (Action V) → World V → Outcome (World V)
  performs [] w = ok w
  performs (a ∷ more) w = perform a w >>= performs more

  -- What the allocators of the C library and of Lua see to, and that `start` is called so that it
  -- stores the object itself, as it is with the milliseconds only.
  abbrev pub Allowed : Action V → World V → Type 0
  Allowed (creating ctx values) w = w.objects ctx ≡ none
  Allowed (starting ctx ms extra now alloc) w =
      (stored extra ≡ itself)
      × ((o : Object V) (ts : List Timer)
          → w.objects ctx ≡ some o
          → drop_timer o.timer w.timers ≡ ok ts
          → Fresh alloc ts)
  Allowed (stopping ctx) w = Unit
  Allowed (collecting ctx) w = Unit
  Allowed (sleeping thread ms now alloc) w = Fresh alloc w.timers
  Allowed (firing now) w = Unit

  abbrev pub AllAllowed : List (Action V) → World V → Type 0
  AllAllowed [] w = Unit
  AllAllowed (a ∷ more) w =
      Allowed a w × ((w' : World V) → perform a w ≡ ok w' → AllAllowed more w')

  -- The process goes on, and the timers and their objects still belong together.
  abbrev pub Safe : Outcome (World V) → Type 0
  Safe abort = ⊥
  Safe (ok w) = Valid w
