-- ===== src/RunLoop/LoopTests.antt =====
-- File handles and iterations of the run loop at concrete values, and the theorems there.
use mathlib.Core.Path.{subst}
use homekit_bridge.Base.{
  ℕ, ◌+◌, ◌≤◌, ◌≡◌, refl, ap, true, false, Option, none, some, List, [], ◌∷◌, arith,
}
use homekit_bridge.Base.Outcome.{Outcome, ok, abort}
use homekit_bridge.RunLoop.Timers
use homekit_bridge.RunLoop.Timers.{Timer, new_timer, expire}
use homekit_bridge.RunLoop.Timers.Edits
use homekit_bridge.RunLoop.Timers.Expiry
use homekit_bridge.RunLoop.Handles.{
  Events, Handle, Handles, Ready, finished, find, next, unlink, adjust, deregister, dispatch, visit,
  rounds, process,
}
use homekit_bridge.RunLoop.Handles.Valid.{WellFormed}
use homekit_bridge.RunLoop.Handles.Changes
use homekit_bridge.RunLoop.Handles.Rounds
use homekit_bridge.RunLoop.Handles.Calls
use homekit_bridge.RunLoop.Loop.{
  Phase, idle, Sets, no_sets, State, Callbacks, Answer, selected, Run, returned, watch, collect,
  timeout, serve, iterate, turns, run, stop,
}
use homekit_bridge.RunLoop.Loop.Collect.{
  member, wanted, InRange, AllBelow, Apart, map_await, collect_lem,
}
use homekit_bridge.RunLoop.Loop.Iterate.{Sound, Behaves, GoesOn, iterate-GoesOn}
use homekit_bridge.RunLoop.Life.{for_reading}

abbrev reader : ℕ → ℕ → Handle
reader p d = record {
  address = p;
  descriptor = some d;
  interests = for_reading;
  callback = 9;
  context = 0;
  awaiting = true;
}

abbrev readers : Handles
readers = record { list = reader 1 5 ∷ reader 2 7 ∷ []; cursor = 0 }

abbrev all_ready : Ready
all_ready = record { reading = λ d. true; writing = λ d. true; error = λ d. true }

-- A callback deregisters the handle at the address 2.
abbrev counted : ℕ → Outcome Handles → Outcome (Handles × ℕ)
counted n abort = abort
counted n (ok s) = ok (s, n + 1)

abbrev drop_two : Handle → Events → Handles → ℕ → Outcome (Handles × ℕ)
drop_two h e s n = counted n (deregister 2 s)

abbrev handles_in : Handles → Outcome (Handles × ℕ) → Handles
handles_in d abort = d
handles_in d (ok (s, n)) = s

counted-ok : (n m : ℕ) (o : Outcome Handles) (t : Handles) → counted n o ≡ ok (t, m) → o ≡ ok t
counted-ok n m abort t e = absurd (ground (arith, e))
counted-ok n m (ok s) t e = ap ok (ap (handles_in s) e)

drop_two-Orderly : Rounds.Orderly drop_two
drop_two-Orderly h e s t v w q =
    Changes.deregisters s s t 2 (counted-ok v w (deregister 2 s) t q) (Changes.unchanged s)

readers-WellFormed : WellFormed readers.list
readers-WellFormed = ((refl, tt), (refl, refl), (tt, (refl, refl), tt))

process-Ends_example : (f : ℕ) × Rounds.Ends (process f all_ready drop_two readers 0)
process-Ends_example =
    Rounds.process-Ends all_ready drop_two drop_two-Orderly readers 0 readers-WellFormed

process_calls_example :
    process 3 all_ready Calls.note readers []
    ≡ finished
        (record { list = Calls.settle_all readers.list; cursor = 0 })
        (Calls.calls all_ready readers.list)
process_calls_example = Calls.process_calls all_ready readers readers-WellFormed

-- The handle that the first callback deregisters is not called.
process_two :
    process 2 all_ready drop_two readers 0
    ≡ finished (record { list = record (reader 1 5) { awaiting = false } ∷ []; cursor = 0 }) 1
unfolding process rounds visit dispatch find next unlink adjust deregister
process_two = refl

readers-InRange : InRange 64 readers.list
readers-InRange = (λ d e a. ground (arith, e), (λ d e a. ground (arith, e), tt))

readers-Apart : Apart readers.list
readers-Apart = ((refl, tt), refl, (tt, refl, tt))

collect_lem_example :
    (t : Sets) × (collect 64 readers.list no_sets ≡ ok (map_await readers.list, t))
    × ((d : ℕ)
        → (member d t.reading ≡ wanted (λ e. e.reading) d readers.list)
          × (member d t.writing ≡ wanted (λ e. e.writing) d readers.list)
          × (member d t.error ≡ wanted (λ e. e.error) d readers.list))
    × (AllBelow t.count t.reading × AllBelow t.count t.writing × AllBelow t.count t.error)
    × (t.count ≤ 64)
    × WellFormed (map_await readers.list)
collect_lem_example = collect_lem 64 readers.list readers-InRange readers-Apart

-- A timer's callback registers a timer, and a file handle's callback stops the run loop.
abbrev callbacks : Callbacks ℕ
callbacks = record {
  timer = λ t s. ok (record s { timers = (Timers.register (some 8) 20 13 0 s.timers).0 });
  handle = λ h e s. ok (record s { phase = stop s.phase });
}

abbrev state_in : State ℕ → Outcome (State ℕ) → State ℕ
state_in d abort = d
state_in d (ok s) = s

abbrev Did : (s u : State ℕ) → Type 0
Did s u =
    Expiry.Changes 6 s.timers u.timers
    × Changes.Changes s.handles u.handles
    × (InRange 64 s.handles.list → InRange 64 u.handles.list)

abbrev Handled : (s u : State ℕ) → Type 0
Handled s u =
    Changes.Changes s.handles u.handles
    × Edits.Edits s.timers u.timers
    × (InRange 64 s.handles.list → InRange 64 u.handles.list)

callbacks-Behaves : Behaves 64 6 callbacks
callbacks-Behaves = record {
  timer = λ t s u e.
      subst (λ x. Did s x) (ap (state_in s) e)
        (
          Expiry.registers s.timers s.timers 8 20 13 0 (omega arith) (Expiry.unchanged s.timers),
          Changes.unchanged s.handles,
          λ r. r,
        );
  handle = λ h e s u q.
      subst (λ x. Handled s x) (ap (state_in s) q)
        (Changes.unchanged s.handles, Edits.unchanged s.timers, λ r. r);
}

abbrev state : Phase → State ℕ
state p = record { timers = new_timer 4 5 11 0 ∷ []; handles = readers; phase = p; rest = 0 }

state-Sound : Sound 64 (state idle)
state-Sound = record {
  timers = (tt, tt);
  handles = record { formed = readers-WellFormed; cursor = λ z. absurd (ground (arith, z)) };
  descriptors = readers-InRange;
}

abbrev answer : Answer
answer = record { select = λ s t. selected all_ready; before = 3; after = 6 }

iterate-GoesOn_example : (f g : ℕ) × GoesOn 64 (iterate callbacks f g 64 answer (state idle))
iterate-GoesOn_example =
    iterate-GoesOn 64 callbacks answer (state idle) callbacks-Behaves state-Sound

-- The run loop is stopped by the callbacks of the first iteration.
abbrev phase_in : Run ℕ → Option (Phase × List Timer)
phase_in (returned s) = some (s.phase, s.timers)
phase_in other = none

run_stops :
    phase_in (run callbacks 3 3 64 (answer ∷ answer ∷ []) (state idle))
    ≡ some (idle, new_timer 8 20 13 0 ∷ [])
unfolding run turns iterate serve collect watch timeout expire Timers.register Timers.insert process
    rounds visit dispatch find next adjust stop
run_stops = refl
