-- ===== src/RunLoop/Tests.antt =====
-- Timers and messages of the run loop at concrete values, and the theorems there.
use mathlib.Core.Path.{subst}
use homekit_bridge.Base.{
  ℕ, ◌+◌, ◌≤◌, ◌≡◌, refl, ap, true, some, List, [], ◌∷◌, ◌++◌, ◌==◌, if◌then◌else◌, arith, length,
}
use homekit_bridge.Base.Outcome.{Outcome, ok, abort}
use homekit_bridge.RunLoop.Timers.{
  Timer, Firing, done, unfinished, new_timer, insert, register, expire,
}
use homekit_bridge.RunLoop.Timers.Order.{Sorted, upto, after, register_order}
use homekit_bridge.RunLoop.Timers.Expiry.{
  Changes, unchanged, registers, Ends, again, expire-Ends, expire_starves,
}
use homekit_bridge.RunLoop.Loopback.{
  Job, sent, datagram, message, schedule, capacity, handle_loopback,
}
use homekit_bridge.RunLoop.Loopback.Messages.{schedule_delivers}

abbrev two_timers : List Timer
two_timers = new_timer 1 5 11 0 ∷ new_timer 2 9 12 0 ∷ []

two_timers-Sorted : Sorted two_timers
two_timers-Sorted = ((omega arith, tt), (tt, tt))

register_order_example :
    (register (some 3) 5 13 7 two_timers
      ≡ (upto 5 two_timers ++ new_timer 3 5 13 7 ∷ after 5 two_timers, some 3))
    × ((new_timer 3 5 13 7).deadline ≡ 5)
    × Sorted (upto 5 two_timers ++ new_timer 3 5 13 7 ∷ after 5 two_timers)
register_order_example = register_order 3 5 13 7 two_timers two_timers-Sorted (omega arith)

-- Every callback registers a timer at the address 8 that is due at 20.
abbrev later : Firing ℕ
later t ts w = ok ((register (some 8) 20 13 w ts).0, w + 1)

abbrev timers_of : {W : Type 0} → Outcome (List Timer × W) → List Timer
timers_of abort = []
timers_of (ok (ts, w)) = ts

later_changes :
    (t : Timer) (us vs : List Timer) (v v' : ℕ) → later t us v ≡ ok (vs, v') → Changes 6 us vs
later_changes t us vs v v' e =
    subst (Changes 6 us) (ap timers_of e) (registers us us 8 20 13 v (omega arith) (unchanged us))

expire-Ends_example : Ends 6 (expire 2 6 later two_timers 0)
expire-Ends_example =
    expire-Ends 6 later 2 two_timers 0 later_changes two_timers-Sorted (omega arith)

expire_two : expire 2 6 later two_timers 0 ≡ done (new_timer 2 9 12 0 ∷ new_timer 8 20 13 0 ∷ []) 1
unfolding expire register insert
expire_two = refl

-- Two addresses are in use in turn.
abbrev in_turn : ℕ → ℕ
in_turn p = if p == 1 then 3 else 1

expire_starves_example : expire {W = ℕ} 100 6 (again in_turn) two_timers 0 ≡ unfinished
expire_starves_example =
    expire_starves in_turn 100 6 (new_timer 1 5 11 0) (new_timer 2 9 12 0 ∷ []) 0 (omega arith)
      (omega arith) (omega arith, tt) (tt, tt)

abbrev job : Job
job = (1000, 7 ∷ 8 ∷ [])

schedules : schedule 4 4096 true job ≡ sent (message 4 job)
unfolding schedule
schedules = ground arith

schedule_delivers_example :
    (length (message 4 job) ≤ capacity 4)
    × (handle_loopback 4 (datagram (message 4 job)) [] ≡ ok (some (job ∷ [], [])))
schedule_delivers_example =
    schedule_delivers 4 4096 true 1000 (7 ∷ 8 ∷ []) (message 4 job) (omega arith) schedules
