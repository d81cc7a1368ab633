-- ===== src/RunLoop/Loop/Iterate.antt =====
-- An iteration of `HAPPlatformRunLoopRun` of HAPPlatformRunLoop.c.
use mathlib.Core.Path.{subst}
use homekit_bridge.Base.{
  ℕ, suc, ◌≡◌, inl, inr, refl, ap, sym, ◌∙◌, false, List, [], ◌∷◌, ◌==◌, arith, Bool-cases,
}
use homekit_bridge.Base.Outcome.{Outcome, ok, abort}
use homekit_bridge.RunLoop.Timers.{Timer, Expired, done, aborted, unfinished, expire}
use homekit_bridge.RunLoop.Timers.Order.{Sorted}
use homekit_bridge.RunLoop.Timers.Edits
use homekit_bridge.RunLoop.Timers.Expiry
use homekit_bridge.RunLoop.Handles.{
  Handle, Handles, Events, Ready, Processed, finished, ended, failed, unsettled, adjust, process,
}
use homekit_bridge.RunLoop.Handles.Valid.{WellFormed, Valid, has}
use homekit_bridge.RunLoop.Handles.Changes
use homekit_bridge.RunLoop.Handles.Rounds
use homekit_bridge.RunLoop.Handles.Kept
use homekit_bridge.RunLoop.Loop.{
  State, Callbacks, Iterated, iterated, exited, crashed, stalled, Selected, interrupted, broken,
  selected, Answer, timeout, timers_of, handles_of, processed, expired, serve, iterate,
}
use homekit_bridge.RunLoop.Loop.Collect.{InRange, Apart, map_await, collect_lem}

-- The state between two iterations.
pub record Sound {W : Type 0} (setsize : ℕ) (s : State W) : Type 0 where
  pub timers : Sorted s.timers
  pub handles : Valid s.handles
  pub descriptors : InRange setsize s.handles.list

-- What callbacks do: timers are registered and deregistered, by those of timers only timers that are
-- due later, and file handles are registered, changed and deregistered by the functions of the run loop, with descriptors that
-- `select` can take.
pub record Behaves {W : Type 0} (setsize now : ℕ) (c : Callbacks W) : Type 0 where
  pub timer :
      (t : Timer) (s u : State W)
      → c.timer t s ≡ ok u
      → Expiry.Changes now s.timers u.timers
        × Changes.Changes s.handles u.handles
        × (InRange setsize s.handles.list → InRange setsize u.handles.list)
  pub handle :
      (h : Handle) (e : Events) (s u : State W)
      → c.handle h e s ≡ ok u
      → Changes.Changes s.handles u.handles
        × Edits.Edits s.timers u.timers
        × (InRange setsize s.handles.list → InRange setsize u.handles.list)

-- A callback or `select` has ended the process, or the next iteration can begin.
abbrev pub GoesOn : {W : Type 0} → ℕ → Iterated W → Type 0
GoesOn setsize (iterated t) = Sound setsize t
GoesOn setsize exited = Unit
GoesOn setsize crashed = ⊥
GoesOn setsize stalled = ⊥

InRange-adjust :
    (n p : ℕ) (hs : List Handle)
    → InRange n hs
    → InRange n (adjust (λ x. record x { awaiting = false }) p hs)
unfolding adjust
InRange-adjust n p [] r = tt
InRange-adjust n p (h ∷ hs) r = elim (Bool-cases (h.address == p)) [
  | inl q ↦ rw q (r.0, r.1)
  | inr q ↦ rw q (r.0, InRange-adjust n p hs r.1)
]

InRange-map_await : (n : ℕ) (hs : List Handle) → InRange n hs → InRange n (map_await hs)
InRange-map_await n [] r = tt
InRange-map_await n (h ∷ hs) r = (r.0, InRange-map_await n hs r.1)

has-map_await : (c : ℕ) (hs : List Handle) → has c (map_await hs) ≡ has c hs
has-map_await c [] = refl
has-map_await c (h ∷ hs) = ground (arith, has-map_await c hs)

WellFormed-Apart : (hs : List Handle) → WellFormed hs → Apart hs
WellFormed-Apart [] w = tt
WellFormed-Apart (h ∷ hs) w = (w.0, w.1.0, WellFormed-Apart hs w.2)

abbrev result : {A B : Type 0} → B → Outcome (A × B) → B
result d abort = d
result d (ok (a, b)) = b

abbrev component : {A B : Type 0} → A → Outcome (A × B) → A
component d abort = d
component d (ok (a, b)) = a

module _ {W : Type 0} where
  timers_of-ok :
      (o : Outcome (State W)) (ts : List Timer) (v : State W)
      → timers_of o ≡ ok (ts, v)
      → (o ≡ ok v) × (v.timers ≡ ts)
  timers_of-ok abort ts v e = absurd (ground (arith, e))
  timers_of-ok (ok s) ts v e =
      let q : s ≡ v = ap (result s) e in
      (ap ok q, ap (λ (x : State W). x.timers) (sym q) ∙ ap (component s.timers) e)

  handles_of-ok :
      (o : Outcome (State W)) (hs : Handles) (v : State W)
      → handles_of o ≡ ok (hs, v)
      → (o ≡ ok v) × (v.handles ≡ hs)
  handles_of-ok abort hs v e = absurd (ground (arith, e))
  handles_of-ok (ok s) hs v e =
      let q : s ≡ v = ap (result s) e in
      (ap ok q, ap (λ (x : State W). x.handles) (sym q) ∙ ap (component s.handles) e)

module _ {W : Type 0} (setsize now : ℕ) (c : Callbacks W) (b : Behaves setsize now c) where
  abbrev timer_fire : Timer → List Timer → State W → Outcome (List Timer × State W)
  timer_fire t ts v = timers_of (c.timer t (record v { timers = ts }))

  abbrev handle_fire : Handle → Events → Handles → State W → Outcome (Handles × State W)
  handle_fire h e hs v = handles_of (c.handle h e (record v { handles = hs }))

  -- What the callbacks of timers keep of the rest of the state.
  abbrev Rest : State W → Type 0
  Rest v = Valid v.handles × InRange setsize v.handles.list

  timer_fire-Rest :
      (t : Timer) (us vs : List Timer) (v w : State W)
      → timer_fire t us v ≡ ok (vs, w)
      → Rest v
      → Rest w
  timer_fire-Rest t us vs v w e i =
      let (q, _) = timers_of-ok (c.timer t (record v { timers = us })) vs w e in
      let (_, h, r) = b.timer t (record v { timers = us }) w q in
      ((Changes.Changes-Keeps v.handles w.handles i.0 h).valid, r i.1)

  timer_fire-Changes :
      (t : Timer) (us vs : List Timer) (v w : State W)
      → timer_fire t us v ≡ ok (vs, w)
      → Expiry.Changes now us vs
  timer_fire-Changes t us vs v w e =
      let (q, p) = timers_of-ok (c.timer t (record v { timers = us })) vs w e in
      subst (Expiry.Changes now us) p (b.timer t (record v { timers = us }) w q).0

  handle_fire-Changes : Rounds.Orderly handle_fire
  handle_fire-Changes h e s t v w q =
      let (o, p) = handles_of-ok (c.handle h e (record v { handles = s })) t w q in
      subst (Changes.Changes s) p (b.handle h e (record v { handles = s }) w o).0

  abbrev Others : List Handle → State W → Type 0
  Others hs v = Sorted v.timers × InRange setsize hs

  handle_fire-Others : Kept.KeptBy handle_fire Others
  handle_fire-Others = record {
    fired = λ h e s t v w q j.
        let (o, p) = handles_of-ok (c.handle h e (record v { handles = s })) t w q in
        let (_, k, r) = b.handle h e (record v { handles = s }) w o in
        (
          Edits.Edits-Sorted v.timers w.timers k j.0,
          subst (λ (x : Handles). InRange setsize x.list) p (r j.1),
        );
    settled = λ p hs w j. (j.0, InRange-adjust setsize p hs j.1);
  }

  processed-GoesOn :
      (f g : ℕ) (o : Processed (State W))
      → Rounds.Ends o
      → Kept.HoldsAfter Others o
      → GoesOn setsize (processed c f g o)
  processed-GoesOn f g (finished hs s) e k = record {
    timers = k.0;
    handles = e.0;
    descriptors = k.1;
  }
  processed-GoesOn f g ended e k = tt
  processed-GoesOn f g failed e k = absurd e
  processed-GoesOn f g unsettled e k = absurd e

  expired-GoesOn :
      (f : ℕ) (r : Ready) (o : Expired (State W))
      → Expiry.Ends now o
      → Expiry.HoldsAfter Rest o
      → (g : ℕ) × GoesOn setsize (expired c f g r o)
  expired-GoesOn f r (done ts s) e k =
      let t : State W = record s { timers = ts } in
      let (g, x) = Rounds.process-Ends r handle_fire handle_fire-Changes s.handles t k.0.formed in
      (
        g,
        processed-GoesOn f g (process g r handle_fire s.handles t) x (
            Kept.process-HoldsAfter r handle_fire Others handle_fire-Others g s.handles t
              (e.0, k.1)),
      )
  expired-GoesOn f r aborted e k = (0, tt)
  expired-GoesOn f r unfinished e k = absurd e

  serve-GoesOn :
      (a : Selected) (s : State W)
      → Sound setsize s
      → (f g : ℕ) × GoesOn setsize (serve c f g a now s)
  unfolding serve
  serve-GoesOn interrupted s h = (0, 0, h)
  serve-GoesOn broken s h = (0, 0, tt)
  serve-GoesOn (selected r) s h =
      let f = suc (Expiry.due now s.timers) in
      let o = expire f now timer_fire s.timers s in
      let (g, x) =
        expired-GoesOn f r o
          (Expiry.expire-Ends now timer_fire f s.timers s timer_fire-Changes h.timers (omega arith))
          (Expiry.expire-HoldsAfter Rest f now timer_fire s.timers s timer_fire-Rest
            (h.handles, h.descriptors)) in
      (f, g, x)

-- From a state in which the timers are in order, no two file handles have the same address, and no
-- file handle with an interest has a descriptor beyond FD_SETSIZE, an iteration of
-- `HAPPlatformRunLoopRun` ends, whatever `select` answers: there are numbers of rounds after which a
-- callback or an error of `select` has ended the process, or the next iteration can begin in such a
-- state. No assertion fails and no file handle is used that has been freed, also where callbacks of
-- timers and of file handles register and deregister both. Assumed of the callbacks (`Behaves`) is
-- that they change timers and file handles by the functions of the run loop only, with new file
-- handles at addresses not in use, that they keep the descriptors with interests below FD_SETSIZE,
-- and that the timers which callbacks of timers register are due later.
pub iterate-GoesOn :
    {W : Type 0} (setsize : ℕ) (c : Callbacks W) (a : Answer) (s : State W)
    → Behaves setsize a.after c
    → Sound setsize s
    → (f g : ℕ) × GoesOn setsize (iterate c f g setsize a s)
unfolding iterate
iterate-GoesOn setsize c a s b h =
    let hs = s.handles.list in
    let (t, e, _, _, _, w) =
      collect_lem setsize hs h.descriptors (WellFormed-Apart hs h.handles.formed) in
    let u : State _ = record s { handles = record s.handles { list = map_await hs } } in
    let v : Valid u.handles = record {
      formed = w;
      cursor = λ z. has-map_await s.handles.cursor hs ∙ h.handles.cursor z;
    } in
    let (f, g, x) =
      serve-GoesOn setsize a.after c b (a.select t (timeout s.timers a.before)) u (record {
        timers = h.timers;
        handles = v;
        descriptors = InRange-map_await setsize hs h.descriptors;
      }) in
    (f, g, rw (GoesOn, e) x)
