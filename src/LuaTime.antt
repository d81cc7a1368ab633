-- ===== src/LuaTime.antt =====
-- The timers of Lua programs, bridge/src/ltimelib.c, on the timers of the run loop.
--
-- The state is the run loop's timers, the timer objects by the address of their context, and the
-- entries of Lua's registry under such an address, which keep an object from the collector, and the
-- number of values on the stack of Lua's main thread. A Lua value is of the type `V`. The functions and coroutines that a timer calls are Lua code: what they
-- do to timers are the next actions. Other callbacks of the run loop's timers do nothing here.
pub mod Valid
pub mod Actions
pub mod Calls
pub mod Rounds
pub mod Safe
mod Tests
use homekit_bridge.Base.{
  put, ℕ, ◌+◌, ◌%◌, ◌^◌, Bool, true, false, not, Option, none, some, List, [], ◌∷◌, ltb, ◌==◌,
  if◌then◌else◌,
}
use homekit_bridge.Base.Outcome.{Outcome, ok, abort, ◌>>=◌, ◌>>◌, require}
use homekit_bridge.RunLoop.Timers.{Timer, register, deregister}

-- `ltime_timer_ctx`, with the function and the arguments that the object keeps; `nargs` is one less
-- than their number.
pub record Object (V : Type 0) : Type 0 where
  pub timer : Option ℕ
  pub values : List V

-- What the registry holds under the address of an object: nothing, the object itself, another userdata,
-- or a value that is none.
pub data Entry : Type 0 where
  empty itself other_userdata plain : Entry

abbrev pub is_itself : Entry → Bool
is_itself empty = false
is_itself itself = true
is_itself other_userdata = false
is_itself plain = false

pub record World (V : Type 0) : Type 0 where
  pub timers : List Timer
  pub objects : ℕ → Option (Object V)
  pub registry : ℕ → Entry
  pub top : ℕ

-- What Lua runs: a coroutine goes on, or a new one calls a function with arguments, or it calls what
-- another userdata than the object of the timer keeps.
pub data Running (V : Type 0) : Type 0 where
  resumed : ℕ → Running V
  started : List V → Running V
  misled nothing : Running V

-- `ltime_timer_cb` and `ltime_sleep_cb` as callbacks of the run loop.
abbrev pub timer_cb : ℕ
timer_cb = 1

abbrev pub sleep_cb : ℕ
sleep_cb = 2

-- `ms ? (HAPTime)ms + HAPPlatformClockGetCurrent() : 0`
abbrev pub deadline : ℕ → ℕ → ℕ
deadline ms now = if ms == 0 then 0 else (ms + now) % 2 ^ 64

-- The timer of an object, deregistered if there is one.
unfoldable pub drop_timer : Option ℕ → List Timer → Outcome (List Timer)
drop_timer none ts = ok ts
drop_timer (some p) ts = deregister p ts

abbrev pub is_some {ℓ} : {A : Type ℓ} → Option A → Bool
is_some none = false
is_some (some x) = true

-- What `lua_rawsetp` takes from the stack behind `lua_pop(L, 1)`: of the object, the milliseconds and
-- the arguments behind them, the last but one.
unfoldable pub stored : List Entry → Entry
stored [] = itself
stored (x ∷ []) = plain
stored (x ∷ y ∷ []) = x
stored (x ∷ y ∷ z ∷ more) = stored (y ∷ z ∷ more)

module _ {V : Type 0} where
  -- `ltime_createTimer`; the new object has the address `ctx`.
  unfoldable pub create_timer : ℕ → List V → World V → World V
  create_timer ctx values w = record w {
    objects = put w.objects ctx (some (record { timer = none; values = values }));
  }

  -- `ltime_timer_start` behind the checks of its arguments; `extra` are the arguments behind the
  -- milliseconds.
  unfoldable pub restart :
      ℕ → Object V → ℕ → List Entry → ℕ → Option ℕ → World V → Outcome (World V × Bool)
  restart ctx o ms extra now alloc w = do
    ts ← drop_timer o.timer w.timers
    let r = register alloc (deadline ms now) timer_cb ctx ts
    ok (
      record w {
        timers = r.0;
        objects = put w.objects ctx (some (record o { timer = r.1 }));
        registry = if is_some r.1 then put w.registry ctx (stored extra) else w.registry;
      },
      is_some r.1,
    )

  -- `ltime_timer_start`: whether it raises no error. `ms` is none for a negative number; `now` is the
  -- time, `alloc` the answer of the allocator.
  unfoldable pub start :
      ℕ → Option ℕ → List Entry → ℕ → Option ℕ → World V → Outcome (World V × Bool)
  start ctx ms extra now alloc w = elim (w.objects ctx) [
    | none ↦ ok (w, false)
    | some o ↦ elim ms [ none ↦ ok (w, false) | some m ↦ restart ctx o m extra now alloc w ]
  ]

  -- `ltime_timer_stop`
  unfoldable pub stop : ℕ → World V → Outcome (World V)
  stop ctx w = elim (w.objects ctx) [
    | none ↦ ok w
    | some o ↦ elim o.timer [
      | none ↦ ok w
      | some p ↦ do
        ts ← deregister p w.timers
        ok (record w {
          timers = ts;
          objects = put w.objects ctx (some (record o { timer = none }));
          registry = put w.registry ctx empty;
        })
    ]
  ]

  -- The collection of an object, which the registry does not hold: `__gc` is `ltime_timer_stop`.
  unfoldable pub collect : ℕ → World V → Outcome (World V)
  collect ctx w =
      if is_itself (w.registry ctx)
      then ok w
      else (do w' ← stop ctx w; ok (record w' { objects = put w'.objects ctx none }))

  -- `ltime_sleep` in the coroutine `thread`: whether it raises no error, so that the coroutine yields.
  unfoldable pub sleep : ℕ → Option ℕ → ℕ → Option ℕ → World V → World V × Bool
  sleep thread none now alloc w = (w, false)
  sleep thread (some ms) now alloc w =
      let r = register alloc (deadline ms now) sleep_cb thread w.timers in
      (record w { timers = r.0 }, is_some r.1)

  -- What is called, by the entry of the registry, which must be a userdata.
  abbrev fetched : List V → Entry → Outcome (Running V)
  fetched values empty = abort
  fetched values itself = ok (started values)
  fetched values other_userdata = ok misled
  fetched values plain = abort

  -- `ltime_sleep_cb`
  unfoldable pub sleep_over : ℕ → World V → Outcome (World V × Running V)
  sleep_over thread w = do require (w.top == 0); ok (record w { top = 0 }, resumed thread)

  -- `ltime_timer_cb`
  unfoldable pub timer_fired : ℕ → World V → Outcome (World V × Running V)
  timer_fired ctx w = elim (w.objects ctx) [
    | none ↦ abort
    | some o ↦ do
      require (w.top == 0)
      run ← fetched o.values (w.registry ctx)
      ok (
        record w {
          objects = put w.objects ctx (some (record o { timer = none }));
          registry = put w.registry ctx empty;
          top = 0;
        },
        run,
      )
  ]

  -- A callback of the run loop's timer `t`.
  unfoldable pub fire : Timer → World V → Outcome (World V × Running V)
  fire t w =
      if t.callback == timer_cb
      then timer_fired t.context w
      else if t.callback == sleep_cb
      then sleep_over t.context w
      else ok (w, nothing)

  -- One round of `ProcessExpiredTimers`.
  unfoldable pub fire_next : ℕ → World V → Outcome (World V × Running V)
  fire_next now w = elim w.timers [
    | [] ↦ ok (w, nothing)
    | t ∷ ts ↦ if ltb now t.deadline then ok (w, nothing) else fire t (record w { timers = ts })
  ]
