-- ===== src/RunLoop/Timers.antt =====
-- The timers of HAPPlatformRunLoop.c: `HAPPlatformTimerRegister`, `HAPPlatformTimerDeregister` and
-- `ProcessExpiredTimers`.
--
-- The linked list is the list of its timers, each with its address, which the allocator chooses. A
-- callback of a timer is a function on the timers and the rest of the program's state.
pub mod Order
pub mod Expiry
pub mod Find
pub mod Edits
use homekit_bridge.Base.{
  ℕ, zero, suc, ◌<◌, ◌≡◌, Bool, true, false, Option, none, some, List, [], ◌∷◌, ltb, leb, ◌==◌,
  if◌then◌else◌,
}
use homekit_bridge.Base.Outcome.{Outcome, ok, abort}

-- `HAPPlatformTimer`
pub record Timer : Type 0 where
  pub address : ℕ
  pub deadline : ℕ
  pub callback : ℕ
  pub context : ℕ

-- The loop of `HAPPlatformTimerRegister`.
unfoldable pub insert : Timer → ℕ → List Timer → List Timer
insert t deadline [] = t ∷ []
insert t deadline (n ∷ ns) =
    if ltb deadline n.deadline then t ∷ n ∷ ns else n ∷ insert t deadline ns

abbrev pub new_timer : ℕ → ℕ → ℕ → ℕ → Timer
new_timer address deadline callback context = record {
  address = address;
  deadline = if deadline == 0 then 1 else deadline;
  callback = callback;
  context = context;
}

-- `HAPPlatformTimerRegister`; the allocator gives the address, or nothing.
unfoldable pub register : Option ℕ → ℕ → ℕ → ℕ → List Timer → List Timer × Option ℕ
register none deadline callback context ts = (ts, none)
register (some p) deadline callback context ts =
    (insert (new_timer p deadline callback context) deadline ts, some p)

-- The list without the timer of that address, if there is one.
unfoldable pub unlink : ℕ → List Timer → Option (List Timer)
unlink p [] = none
unlink p (n ∷ ns) =
    if n.address == p then some ns else elim (unlink p ns) [ none ↦ none | some ms ↦ some (n ∷ ms) ]

-- `HAPPlatformTimerDeregister`; `HAPFatalError` ends the process.
unfoldable pub deregister : ℕ → List Timer → Outcome (List Timer)
deregister p ts = elim (unlink p ts) [ none ↦ abort | some us ↦ ok us ]

-- How `ProcessExpiredTimers` ends, or that the rounds allowed are used up.
pub data Expired (W : Type 0) : Type 0 where
  done : List Timer → W → Expired W
  aborted unfinished : Expired W

-- A callback: what it does to the timers and to the rest of the program's state.
abbrev pub Firing : Type 0 → Type 0
Firing W = Timer → List Timer → W → Outcome (List Timer × W)

-- The loop of `ProcessExpiredTimers`, in which a callback can change the timers.
unfoldable pub expire : {W : Type 0} → ℕ → ℕ → Firing W → List Timer → W → Expired W
expire zero now fire ts w = unfinished
expire (suc f) now fire [] w = done [] w
expire (suc f) now fire (t ∷ ts) w = elim (ltb now t.deadline) [
  | true ↦ done (t ∷ ts) w
  | false ↦ elim (fire t ts w) [ abort ↦ aborted | ok (us, v) ↦ expire f now fire us v ]
]
