-- ===== src/LuaTime/Tests.antt =====
-- Timers of a Lua program at concrete times, and the theorems there.
use mathlib.Core.Path.{subst}
use mathlib.Core.Option.{some-injective}
use homekit_bridge.Base.{ℕ, ◌≡◌, refl, ap, sym, ◌∙◌, Option, none, some, List, [], ◌∷◌, arith}
use homekit_bridge.Base.Outcome.{Outcome, ok, abort}
use homekit_bridge.RunLoop.Timers.{Timer, insert, register}
use homekit_bridge.RunLoop.Timers.Find.{find, Unused}
use homekit_bridge.LuaTime.{
  Object, World, Entry, empty, stored, plain, drop_timer, create_timer, restart, start, stop,
  collect, timer_fired, fire, fire_next,
}
use homekit_bridge.LuaTime.Valid.{Valid}
use homekit_bridge.LuaTime.Actions.{
  Action, creating, starting, collecting, firing, perform, performs, Allowed, AllAllowed, Safe,
}
use homekit_bridge.LuaTime.Safe.{performs-Safe}

abbrev fresh : World ℕ
fresh = record { timers = []; objects = λ ctx. none; registry = λ ctx. empty; top = 0 }

fresh-Valid : Valid fresh
unfolding find
fresh-Valid = record {
  distinct = tt;
  empty_stack = refl;
  running = λ ctx p o e n. absurd (ground (arith, e));
  owned = λ p t e c. absurd (ground (arith, e));
  held = λ ctx h. absurd (ground (arith, h));
}

abbrev outcome : World ℕ → Outcome (World ℕ) → World ℕ
outcome d abort = d
outcome d (ok w) = w

-- What is allowed where it is known how far the process is.
known :
    (a : Action ℕ) (more : List (Action ℕ)) (w w' : World ℕ)
    → perform a w ≡ ok w'
    → AllAllowed more w'
    → (u : World ℕ) → perform a w ≡ ok u
    → AllAllowed more u
known a more w w' e h u q = subst (AllAllowed more) (ap (outcome w') (sym e ∙ q)) h

abbrev more : List (Action ℕ)
more = firing 1010 ∷ collecting 100 ∷ []

abbrev actions : List (Action ℕ)
actions = creating 100 (5 ∷ []) ∷ starting 100 (some 10) [] 1000 (some 1) ∷ more

abbrev created : World ℕ
created = create_timer 100 (5 ∷ []) fresh

abbrev started : World ℕ
started = outcome fresh (perform (starting 100 (some 10) [] 1000 (some 1)) created)

starts : perform (starting 100 (some 10) [] 1000 (some 1)) created ≡ ok started
unfolding perform start restart drop_timer register insert create_timer
starts = refl

creates : perform (creating 100 (5 ∷ [])) fresh ≡ ok created
unfolding perform
creates = refl

abbrev left : List Timer → Outcome (List Timer) → List Timer
left d abort = d
left d (ok ts) = ts

start-Allowed : Allowed (starting 100 (some 10) [] 1000 (some 1)) created
unfolding create_timer drop_timer stored
start-Allowed = (
  refl,
  λ o ts e d.
      let n : o.timer ≡ none = sym (ap (λ (x : Object ℕ). x.timer) (some-injective _ _ e)) in
      let k : [] ≡ ts = ap (left []) (ap (λ x. drop_timer x []) (sym n) ∙ d) in
      subst (Unused 1) k tt,
)

all_allowed : AllAllowed actions fresh
all_allowed = (
  refl,
  known (creating 100 (5 ∷ [])) (starting 100 (some 10) [] 1000 (some 1) ∷ more) fresh created
      creates
      (
        start-Allowed,
        known (starting 100 (some 10) [] 1000 (some 1)) more created started starts
            (tt, λ u q. (tt, λ x y. tt)),
      ),
)

performs-Safe_example : Safe (performs actions fresh)
performs-Safe_example = performs-Safe actions fresh fresh-Valid all_allowed

-- What is left of the timers and of the object.
abbrev rest : Outcome (World ℕ) → Option (List Timer × Option (Object ℕ) × Entry)
rest abort = none
rest (ok w) = some (w.timers, w.objects 100, w.registry 100)

performs_all : rest (performs actions fresh) ≡ some ([], none, empty)
unfolding perform performs start restart drop_timer register insert create_timer fire_next fire
    timer_fired collect stop stored
performs_all = refl

-- With one argument more, `start` stores the milliseconds, and the callback of the timer aborts.
start_extra :
    performs
      (creating 100 (5 ∷ []) ∷ starting 100 (some 10) (plain ∷ []) 1000 (some 1) ∷ firing 1010 ∷ [])
      fresh
    ≡ abort
unfolding perform performs start restart stored drop_timer register insert create_timer fire_next
    fire timer_fired
start_extra = refl
