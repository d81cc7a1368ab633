-- ===== src/LuaTime/Safe.antt =====
-- Sequences of what happens to the timers of bridge/src/ltimelib.c.
use homekit_bridge.Base.{◌≡◌, refl, List, [], ◌∷◌}
use homekit_bridge.Base.Outcome.{Outcome, ok, abort, ◌>>=◌}
use homekit_bridge.LuaTime.{World}
use homekit_bridge.LuaTime.Valid.{Valid}
use homekit_bridge.LuaTime.Actions.{
  Action, creating, starting, stopping, collecting, sleeping, firing, perform, performs, Allowed,
  AllAllowed, Safe,
}
use homekit_bridge.LuaTime.Calls.{
  create_timer-Valid, start-Safe, stop-Safe, collect-Safe, sleep-Valid,
}
use homekit_bridge.LuaTime.Rounds.{fire_next-Safe}

module _ {V : Type 0} where
  perform-Safe : (a : Action V) (w : World V) → Valid w → Allowed a w → Safe (perform a w)
  unfolding perform
  perform-Safe (creating ctx values) w v h = create_timer-Valid ctx values w h v
  perform-Safe (starting ctx ms extra now alloc) w v h = start-Safe ctx ms extra now alloc w v h
  perform-Safe (stopping ctx) w v h = stop-Safe ctx w v
  perform-Safe (collecting ctx) w v h = collect-Safe ctx w v
  perform-Safe (sleeping thread ms now alloc) w v h = sleep-Valid thread ms now alloc w v h
  perform-Safe (firing now) w v h = fire_next-Safe now w v

  Safe-then :
      (r : Outcome (World V)) (f : World V → Outcome (World V))
      → Safe r
      → ((w : World V) → r ≡ ok w → Valid w → Safe (f w))
      → Safe (r >>= f)
  Safe-then abort f s h = absurd s
  Safe-then (ok w) f s h = h w refl s

  -- Whatever Lua programs do to timers, if they call `start` with the milliseconds only (or else with
  -- the object once more as the last argument but one), whenever the collector runs and rounds of the
  -- run loop come in between: no assertion fails and no timer is deregistered that is not there, so
  -- that the process does not end; and afterwards the timers and the objects belong together as
  -- before, and the stack of the main thread is empty, as it is at first. A new object is where no
  -- other is, and a new timer where no other timer is.
  pub performs-Safe :
      (actions : List (Action V)) (w : World V)
      → Valid w
      → AllAllowed actions w
      → Safe (performs actions w)
  unfolding performs
  performs-Safe [] w v h = v
  performs-Safe (a ∷ more) w v h =
      Safe-then (perform a w) (performs more) (perform-Safe a w v h.0)
        (λ w' e v'. performs-Safe more w' v' (h.1 w' e))
