-- ===== src/RunLoop/Timers/Expiry.antt =====
-- The rounds of `ProcessExpiredTimers` of HAPPlatformRunLoop.c.
use mathlib.Core.Path.{subst}
use homekit_bridge.Base.{
  ℕ, zero, suc, ◌≤◌, ◌<◌, ◌≡◌, inl, inr, refl, Bool, true, false, some, List, [], ◌∷◌, ◌++◌, ltb,
  leb, ◌==◌, if◌then◌else◌, arith, Bool-cases, append_assoc, append-nil, Option-cases,
}
use homekit_bridge.Base.Outcome.{Outcome, ok, abort}
use homekit_bridge.RunLoop.Timers.{
  Timer, Firing, Expired, done, aborted, unfinished, new_timer, insert, register, unlink,
  deregister, expire,
}
use homekit_bridge.RunLoop.Timers.Order.{
  AllFrom, AllFrom-weaken, Sorted, upto, after, split-AllFrom, Sorted-insert, insert-upto-after,
  Sorted-unlink,
}

-- What a callback does to the timers at the time `now`: it registers timers that are due later, and
-- deregisters timers.
pub data Changes (now : ℕ) : List Timer → List Timer → Type 0 where
  unchanged : (ts : List Timer) → Changes now ts ts
  registers :
      (ts us : List Timer) (p deadline callback context : ℕ)
      → now < deadline
      → Changes now ts us
      → Changes now ts (register (some p) deadline callback context us).0
  deregisters :
      (ts us vs : List Timer) (p : ℕ)
      → deregister p us ≡ ok vs
      → Changes now ts us
      → Changes now ts vs

-- How many timers are due.
abbrev pub due : ℕ → List Timer → ℕ
due now [] = 0
due now (t ∷ ts) = if leb t.deadline now then suc (due now ts) else due now ts

due-insert :
    (now : ℕ) (t : Timer) (d : ℕ) (ts : List Timer)
    → now < t.deadline
    → due now (insert t d ts) ≡ due now ts
unfolding insert
due-insert now t d [] h = ground arith
due-insert now t d (n ∷ ns) h = ground (arith, due-insert now t d ns h)

due-unlink : (now p : ℕ) (ts us : List Timer) → unlink p ts ≡ some us → due now us ≤ due now ts
unfolding unlink
due-unlink now p [] us e = cc
due-unlink now p (n ∷ ns) us e = elim (Bool-cases (n.address == p)) [
  | inl q ↦
      let f : ns ≡ us = ground (arith, q) in
      subst (λ vs. due now vs ≤ due now (n ∷ ns)) f (ground arith)
  | inr q ↦ elim (Option-cases (unlink p ns)) [
    | inl r ↦ absurd (ground (arith, q, r))
    | inr (ms, r) ↦
        let f : n ∷ ms ≡ us = ground (arith, q, r) in
        subst (λ vs. due now vs ≤ due now (n ∷ ns)) f (ground (arith, due-unlink now p ns ms r))
  ]
]

pub deregister-unlink :
    (p : ℕ) (ts us : List Timer) → deregister p ts ≡ ok us → unlink p ts ≡ some us
unfolding deregister
deregister-unlink p ts us e = ground arith

-- What callbacks keep.
Changes-due : (now : ℕ) (ts us : List Timer) → Changes now ts us → due now us ≤ due now ts
unfolding register
Changes-due now ts _ (unchanged _) = omega arith
Changes-due now ts _ (registers _ us p d cb ctx h c) =
    omega
      (arith, Changes-due now ts us c, due-insert now (new_timer p d cb ctx) d us (ground arith))
Changes-due now ts vs (deregisters _ us _ p e c) =
    omega (arith, Changes-due now ts us c, due-unlink now p us vs (deregister-unlink p us vs e))

Changes-Sorted : (now : ℕ) (ts us : List Timer) → Changes now ts us → Sorted ts → Sorted us
unfolding register
Changes-Sorted now ts _ (unchanged _) s = s
Changes-Sorted now ts _ (registers _ us p d cb ctx h c) s =
    Sorted-insert (new_timer p d cb ctx) d us (ground arith) (ground arith)
      (Changes-Sorted now ts us c s)
Changes-Sorted now ts vs (deregisters _ us _ p e c) s =
    Sorted-unlink p us vs (deregister-unlink p us vs e) (Changes-Sorted now ts us c s)

-- The loop has ended, if it was not ended by a callback that ends the process, with timers that are
-- not due.
abbrev pub Ends : {W : Type 0} → ℕ → Expired W → Type 0
Ends now (done ts w) = Sorted ts × AllFrom (suc now) ts
Ends now aborted = Unit
Ends now unfinished = ⊥

fired-Ends :
    {W : Type 0} (now : ℕ) (fire : Firing W) (f : ℕ) (ts : List Timer)
    (r : Outcome (List Timer × W))
    → ((us : List Timer) (v : W) → r ≡ ok (us, v) → Changes now ts us)
    → Sorted ts
    → due now ts < f
    → ((us : List Timer) (v : W) → Sorted us → due now us < f → Ends now (expire f now fire us v))
    → Ends now
        (elim r as (λ x. Expired W) [ abort ↦ aborted | ok (us, v) ↦ expire f now fire us v ])
fired-Ends now fire f ts abort c s h rest = tt
fired-Ends now fire f ts (ok (us, v)) c s h rest =
    let k : Changes now ts us = c us v refl in
    rest us v (Changes-Sorted now ts us k s) (omega (arith, h, Changes-due now ts us k))

round-Ends :
    {W : Type 0} (now : ℕ) (fire : Firing W) (f : ℕ) (t : Timer) (ts : List Timer) (w : W)
    → ((t : Timer) (us vs : List Timer) (v v' : W) → fire t us v ≡ ok (vs, v') → Changes now us vs)
    → Sorted (t ∷ ts)
    → due now (t ∷ ts) < suc f
    → ((us : List Timer) (v : W) → Sorted us → due now us < f → Ends now (expire f now fire us v))
    → (b : Bool) → ltb now t.deadline ≡ b
    → Ends now (elim b as (λ x. Expired W) [
      | true ↦ done (t ∷ ts) w
      | false ↦ elim (fire t ts w) [ abort ↦ aborted | ok (us, v) ↦ expire f now fire us v ]
    ])
round-Ends now fire f t ts w c s h rest true e =
    let l : suc now ≤ t.deadline = ground (arith, e) in
    (s, (l, AllFrom-weaken (suc now) t.deadline ts l s.0))
round-Ends now fire f t ts w c s h rest false e =
    fired-Ends now fire f ts (fire t ts w) (λ us v q. c t ts us w v q) s.1 (ground (arith, h, e))
      rest

-- Where every callback registers only timers that are due later than the time `now` at which
-- `ProcessExpiredTimers` began, it ends within as many rounds as timers were due, and one more: a
-- callback has ended the process, or no timer that is left is due, and they are in order.
pub expire-Ends :
    {W : Type 0} (now : ℕ) (fire : Firing W) (f : ℕ) (ts : List Timer) (w : W)
    → ((t : Timer) (us vs : List Timer) (v v' : W) → fire t us v ≡ ok (vs, v') → Changes now us vs)
    → Sorted ts
    → due now ts < f
    → Ends now (expire f now fire ts w)
unfolding expire
expire-Ends {W} now fire zero ts w c s h = absurd (omega arith)
expire-Ends {W} now fire (suc f) [] w c s h = (tt, tt)
expire-Ends {W} now fire (suc f) (t ∷ ts) w c s h =
    round-Ends now fire f t ts w c s h (λ us v k l. expire-Ends now fire f us v c k l)
      (ltb now t.deadline) refl

-- A callback that leaves the timers alone, and is noted.
abbrev pub note : Firing (List Timer)
note t ts w = ok (ts, w ++ t ∷ [])

expire-note :
    (now f : ℕ) (ts w : List Timer)
    → Sorted ts
    → due now ts < f
    → expire f now note ts w ≡ done (after now ts) (w ++ upto now ts)
unfolding expire
expire-note now zero ts w s h = absurd (omega arith)
expire-note now (suc f) [] w s h = rw (append-nil w) refl
expire-note now (suc f) (t ∷ ts) w s h = elim (Bool-cases (ltb now t.deadline)) [
  | inl e ↦ ground (arith, e, split-AllFrom now t.deadline ts, s.0, append-nil w)
  | inr e ↦
      ground
        (arith, e, expire-note now f ts (w ++ t ∷ []), s.1, append_assoc w (t ∷ []) (upto now ts))
]

-- Timers whose callbacks leave the timers alone fire exactly if their deadline has come, in their
-- order in the list; the others stay in the list.
pub expire_fires_due :
    (now f : ℕ) (ts : List Timer)
    → Sorted ts
    → due now ts < f
    → expire f now note ts [] ≡ done (after now ts) (upto now ts)
expire_fires_due now f ts s h = expire-note now f ts [] s h

-- A callback that registers its timer again with the deadline 0, as a coroutine does that sleeps for
-- 0 milliseconds in a loop; `alloc` is the allocator's choice of an address.
abbrev pub again : {W : Type 0} → (ℕ → ℕ) → Firing W
again alloc t ts w = ok ((register (some (alloc t.address)) 0 t.callback t.context ts).0, w)

-- `ProcessExpiredTimers` does not end where a timer that is due is registered again with the deadline
-- 0 by its callback: no number of rounds is enough. The time is 1 or later.
pub expire_starves :
    {W : Type 0} (alloc : ℕ → ℕ) (f now : ℕ) (t : Timer) (ts : List Timer) (w : W)
    → 1 ≤ now
    → t.deadline ≤ now
    → AllFrom 1 ts
    → Sorted ts
    → expire f now (again alloc) (t ∷ ts) w ≡ unfinished
unfolding expire register
expire_starves alloc zero now t ts w h l a s = refl
expire_starves alloc (suc f) now t ts w h l a s =
    let n = new_timer (alloc t.address) 0 t.callback t.context in
    ground (
      arith,
      insert-upto-after n 0 ts s,
      split-AllFrom 0 1 ts (omega arith) a,
      expire_starves alloc f now n ts w h h a s,
    )

-- What the callbacks keep, where the loop has ended.
abbrev pub HoldsAfter : {W : Type 0} → (W → Type 0) → Expired W → Type 0
HoldsAfter I (done ts w) = I w
HoldsAfter I aborted = Unit
HoldsAfter I unfinished = Unit

fired-HoldsAfter :
    {W : Type 0} (I : W → Type 0) (f now : ℕ) (fire : Firing W) (w : W)
    (o : Outcome (List Timer × W))
    → ((us : List Timer) (v : W) → I v → HoldsAfter I (expire f now fire us v))
    → ((us : List Timer) (v : W) → o ≡ ok (us, v) → I w → I v)
    → I w
    → HoldsAfter I
        (elim o as (λ x. Expired W) [ abort ↦ aborted | ok (us, v) ↦ expire f now fire us v ])
fired-HoldsAfter I f now fire w abort rest c i = tt
fired-HoldsAfter I f now fire w (ok (us, v)) rest c i = rest us v (c us v refl i)

-- What every callback keeps holds after the loop.
pub expire-HoldsAfter :
    {W : Type 0} (I : W → Type 0) (f now : ℕ) (fire : Firing W) (ts : List Timer) (w : W)
    → ((t : Timer) (us vs : List Timer) (v v' : W) → fire t us v ≡ ok (vs, v') → I v → I v')
    → I w
    → HoldsAfter I (expire f now fire ts w)
unfolding expire
expire-HoldsAfter I zero now fire ts w c i = tt
expire-HoldsAfter I (suc f) now fire [] w c i = i
expire-HoldsAfter I (suc f) now fire (t ∷ ts) w c i = elim (Bool-cases (ltb now t.deadline)) [
  | inl e ↦ rw (HoldsAfter, e) i
  | inr e ↦
      rw (HoldsAfter, e)
        (fired-HoldsAfter I f now fire w (fire t ts w)
          (λ us v j. expire-HoldsAfter I f now fire us v c j) (λ us v q. c t ts us w v q) i)
]
