-- ===== src/RunLoop/Loop.antt =====
-- `HAPPlatformRunLoopRun` and `HAPPlatformRunLoopStop` of HAPPlatformRunLoop.c, on its timers and
-- file handles.
--
-- The clock and `select` are answers, one for each iteration. A callback of a timer or of a file
-- handle is a function on the timers, the file handles, the state of the loop, and the rest of the
-- program's state. `setsize` is FD_SETSIZE. The times fit in a `time_t`.
pub mod Collect
pub mod Iterate
use homekit_bridge.Base.{
  ℕ, zero, suc, ◌+◌, ◌-◌, ◌*◌, ◌/◌, ◌%◌, ◌<◌, ◌≡◌, Bool, true, false, not, ◌&&◌, ◌||◌, Option, none,
  some, List, [], ◌∷◌, ◌++◌, ltb, ◌==◌, if◌then◌else◌,
}
use homekit_bridge.Base.Outcome.{Outcome, ok, abort, ◌>>=◌, ◌>>◌, require}
use homekit_bridge.RunLoop.Timers.{Timer, Expired, done, aborted, unfinished, expire}
use homekit_bridge.RunLoop.Handles.{
  Handle, Handles, Events, Ready, Processed, finished, ended, failed, unsettled, any_event, process,
}

-- `HAPPlatformRunLoopState`
pub data Phase : Type 0 where
  idle running stopping : Phase

-- The sets of descriptors for `select`, and `maxFileDescriptor + 1`.
pub record Sets : Type 0 where
  pub reading : List ℕ
  pub writing : List ℕ
  pub error : List ℕ
  pub count : ℕ

abbrev pub no_sets : Sets
no_sets = record { reading = []; writing = []; error = []; count = 0 }

-- The sets with the descriptor `d`, in which there is an interest.
abbrev pub watched : ℕ → Events → Sets → Sets
watched d e s = record {
  reading = if e.reading then d ∷ s.reading else s.reading;
  writing = if e.writing then d ∷ s.writing else s.writing;
  error = if e.error then d ∷ s.error else s.error;
  count = if any_event e then (if ltb s.count (d + 1) then d + 1 else s.count) else s.count;
}

-- The file handle in the loop of `HAPPlatformRunLoopRun` that collects descriptors.
unfoldable pub watch : ℕ → Handle → Sets → Outcome (Handle × Sets)
watch setsize h s = elim h.descriptor [
  | none ↦ ok (record h { awaiting = false }, s)
  | some d ↦ do
    require (not (any_event h.interests) || ltb d setsize)
    ok (record h { awaiting = any_event h.interests }, watched d h.interests s)
]

-- That loop.
unfoldable pub collect : ℕ → List Handle → Sets → Outcome (List Handle × Sets)
collect setsize [] s = ok ([], s)
collect setsize (h ∷ hs) s = do
  (h', s') ← watch setsize h s
  (hs', s'') ← collect setsize hs s'
  ok (h' ∷ hs', s'')

-- The timeout of `select`: seconds and microseconds; none is to wait for descriptors only.
unfoldable pub timeout : List Timer → ℕ → Option (ℕ × ℕ)
timeout [] now = none
timeout (t ∷ ts) now =
    if t.deadline == 0
    then none
    else let delta = if ltb now t.deadline then t.deadline - now else 0 in
      some (delta / 1000, (delta % 1000) * 1000)

-- What `select` answers.
pub data Selected : Type 0 where
  interrupted broken : Selected
  selected : Ready → Selected

-- The answers in an iteration: `select`, and the time at which `ProcessExpiredTimers` begins.
pub record Answer : Type 0 where
  pub select : Sets → Option (ℕ × ℕ) → Selected
  pub before : ℕ
  pub after : ℕ

pub record State (W : Type 0) : Type 0 where
  pub timers : List Timer
  pub handles : Handles
  pub phase : Phase
  pub rest : W

-- The callbacks of timers and file handles.
pub record Callbacks (W : Type 0) : Type 0 where
  pub timer : Timer → State W → Outcome (State W)
  pub handle : Handle → Events → State W → Outcome (State W)

-- The state after an iteration, or what has ended the process: a callback or an error of `select`, or
-- a failed assertion or the use of a freed file handle; or that the rounds allowed are used up.
pub data Iterated (W : Type 0) : Type 0 where
  iterated : State W → Iterated W
  exited crashed stalled : Iterated W

module _ {W : Type 0} where
  abbrev pub timers_of : Outcome (State W) → Outcome (List Timer × State W)
  timers_of abort = abort
  timers_of (ok s) = ok (s.timers, s)

  abbrev pub handles_of : Outcome (State W) → Outcome (Handles × State W)
  handles_of abort = abort
  handles_of (ok s) = ok (s.handles, s)

-- `f` and `g` are how many rounds of the loops over timers and over file handles are allowed.
module _ {W : Type 0} (c : Callbacks W) (f g : ℕ) where
  abbrev pub processed : Processed (State W) → Iterated W
  processed (finished hs s) = iterated (record s { handles = hs })
  processed ended = exited
  processed failed = crashed
  processed unsettled = stalled

  -- `ProcessSelectedFileHandles` behind `ProcessExpiredTimers`.
  abbrev pub expired : Ready → Expired (State W) → Iterated W
  expired r (done ts s) = processed (
      process g r (λ h e hs v. handles_of (c.handle h e (record v { handles = hs }))) s.handles
        (record s { timers = ts }))
  expired r aborted = exited
  expired r unfinished = stalled

  -- An iteration behind `select`.
  unfoldable pub serve : Selected → ℕ → State W → Iterated W
  serve interrupted now s = iterated s
  serve broken now s = exited
  serve (selected r) now s =
      expired r
        (expire f now (λ t ts v. timers_of (c.timer t (record v { timers = ts }))) s.timers s)

  -- An iteration of `HAPPlatformRunLoopRun`.
  unfoldable pub iterate : ℕ → Answer → State W → Iterated W
  iterate setsize a s = elim (collect setsize s.handles.list no_sets) [
    | abort ↦ crashed
    | ok (hs, sets) ↦
        serve (a.select sets (timeout s.timers a.before)) a.after
          (record s { handles = record s.handles { list = hs } })
  ]

-- How `HAPPlatformRunLoopRun` ends, or that it has used up the answers.
pub data Run (W : Type 0) : Type 0 where
  returned : State W → Run W
  quit stuck waiting : Run W

module _ {W : Type 0} (c : Callbacks W) (f g : ℕ) where
  -- The end of an iteration.
  abbrev turned : (State W → Run W) → State W → Run W
  turned again s = elim s.phase [
    | running ↦ again s
    | stopping ↦ returned (record s { phase = idle })
    | idle ↦ quit
  ]

  -- The loop of `HAPPlatformRunLoopRun`.
  unfoldable pub turns : ℕ → List Answer → State W → Run W
  turns setsize [] s = waiting
  turns setsize (a ∷ more) s = elim (iterate c f g setsize a s) [
    | iterated t ↦ turned (turns setsize more) t
    | exited ↦ quit
    | crashed ↦ quit
    | stalled ↦ stuck
  ]

  -- `HAPPlatformRunLoopRun`
  unfoldable pub run : ℕ → List Answer → State W → Run W
  run setsize answers s = elim s.phase [
    | idle ↦ turns setsize answers (record s { phase = running })
    | running ↦ quit
    | stopping ↦ quit
  ]

-- `HAPPlatformRunLoopStop`
unfoldable pub stop : Phase → Phase
stop idle = idle
stop running = stopping
stop stopping = stopping
