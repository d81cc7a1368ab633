-- ===== src/RunLoop/Timers/Order.antt =====
-- The order of the timers of HAPPlatformRunLoop.c, and the place of a new one.
use mathlib.Core.Path.{subst}
use homekit_bridge.Base.{
  suc, Option-cases, ℕ, ◌≤◌, ◌≡◌, refl, some, List, [], ◌∷◌, ◌++◌, ltb, leb, ◌==◌, if◌then◌else◌,
  arith, Bool-cases, inl, inr,
}
use homekit_bridge.RunLoop.Timers.{Timer, new_timer, insert, register, unlink}

-- Every deadline is at least `d`.
abbrev pub AllFrom : ℕ → List Timer → Type 0
AllFrom d [] = Unit
AllFrom d (t ∷ ts) = (d ≤ t.deadline) × AllFrom d ts

-- The deadlines ascend.
abbrev pub Sorted : List Timer → Type 0
Sorted [] = Unit
Sorted (t ∷ ts) = AllFrom t.deadline ts × Sorted ts

-- The timers whose deadline is at most `d`, and the others.
abbrev pub upto : ℕ → List Timer → List Timer
upto d [] = []
upto d (t ∷ ts) = if leb t.deadline d then t ∷ upto d ts else upto d ts

abbrev pub after : ℕ → List Timer → List Timer
after d [] = []
after d (t ∷ ts) = if leb t.deadline d then after d ts else t ∷ after d ts

pub AllFrom-weaken : (c d : ℕ) (ts : List Timer) → c ≤ d → AllFrom d ts → AllFrom c ts
AllFrom-weaken c d [] h a = tt
AllFrom-weaken c d (t ∷ ts) h a = (omega (arith, a.0), AllFrom-weaken c d ts h a.1)

-- Where all deadlines lie behind `d`, nothing is before it.
pub split-AllFrom :
    (d e : ℕ) (ts : List Timer) → suc d ≤ e → AllFrom e ts → (upto d ts ≡ []) × (after d ts ≡ ts)
split-AllFrom d e [] h a = (refl, refl)
split-AllFrom d e (t ∷ ts) h a = ground (arith, a.0, split-AllFrom d e ts h a.1)

pub AllFrom-insert :
    (c : ℕ) (t : Timer) (d : ℕ) (ts : List Timer)
    → c ≤ t.deadline
    → AllFrom c ts
    → AllFrom c (insert t d ts)
unfolding insert
AllFrom-insert c t d [] h a = (h, tt)
AllFrom-insert c t d (n ∷ ns) h a = ground (arith, a, AllFrom-insert c t d ns h a.1)

-- A timer that is inserted by its deadline, or by the time just before it, keeps the order.
pub Sorted-insert :
    (t : Timer) (d : ℕ) (ts : List Timer)
    → d ≤ t.deadline
    → t.deadline ≤ suc d
    → Sorted ts
    → Sorted (insert t d ts)
unfolding insert
Sorted-insert t d [] h k s = (tt, tt)
Sorted-insert t d (n ∷ ns) h k s = elim (Bool-cases (ltb d n.deadline)) [
  | inl e ↦
      let l : t.deadline ≤ n.deadline = ground (arith, e) in
      rw e ((l, AllFrom-weaken t.deadline n.deadline ns l s.0), s)
  | inr e ↦
      let l : n.deadline ≤ t.deadline = ground (arith, e) in
      rw e (AllFrom-insert n.deadline t d ns l s.0, Sorted-insert t d ns h k s.1)
]

-- A timer that is inserted stands behind those that are due at `d`, and before the others.
pub insert-upto-after :
    (t : Timer) (d : ℕ) (ts : List Timer) → Sorted ts → insert t d ts ≡ upto d ts ++ t ∷ after d ts
unfolding insert
insert-upto-after t d [] s = refl
insert-upto-after t d (n ∷ ns) s =
    ground (arith, split-AllFrom d n.deadline ns, s.0, insert-upto-after t d ns s.1)

-- A timer registered with a deadline from 1 on, which the allocator has room for, fires behind all
-- timers that were registered before with the same or an earlier deadline, and before all others;
-- the deadlines ascend as before.
pub register_order :
    (p deadline callback context : ℕ) (ts : List Timer)
    → Sorted ts
    → 1 ≤ deadline
    → let t = new_timer p deadline callback context in
      (register (some p) deadline callback context ts
        ≡ (upto deadline ts ++ t ∷ after deadline ts, some p))
      × (t.deadline ≡ deadline)
      × Sorted (upto deadline ts ++ t ∷ after deadline ts)
unfolding register
register_order p deadline callback context ts s h =
    let t = new_timer p deadline callback context in
    let e : t.deadline ≡ deadline = ground arith in
    let q : insert t deadline ts ≡ upto deadline ts ++ t ∷ after deadline ts =
      insert-upto-after t deadline ts s in
    (
      ground (arith, q),
      e,
      subst Sorted q (Sorted-insert t deadline ts (omega arith) (omega arith) s),
    )

-- A timer registered with the deadline 0, which stands for 1, fires before all others, also before
-- those that were registered with this deadline already.
pub register_now :
    (p callback context : ℕ) (ts : List Timer)
    → Sorted ts
    → AllFrom 1 ts
    → let t = new_timer p 0 callback context in
      (register (some p) 0 callback context ts ≡ (t ∷ ts, some p))
      × (t.deadline ≡ 1)
      × Sorted (t ∷ ts)
unfolding register
register_now p callback context ts s a =
    let t = new_timer p 0 callback context in
    (ground (arith, insert-upto-after t 0 ts s, split-AllFrom 0 1 ts (omega arith) a), refl, (a, s))

pub AllFrom-unlink :
    (d p : ℕ) (ts us : List Timer) → unlink p ts ≡ some us → AllFrom d ts → AllFrom d us
unfolding unlink
AllFrom-unlink d p [] us e a = cc
AllFrom-unlink d p (n ∷ ns) us e a = elim (Bool-cases (n.address == p)) [
  | inl q ↦ let f : ns ≡ us = ground (arith, q) in subst (AllFrom d) f a.1
  | inr q ↦ elim (Option-cases (unlink p ns)) [
    | inl r ↦ absurd (ground (arith, q, r))
    | inr (ms, r) ↦
        let f : n ∷ ms ≡ us = ground (arith, q, r) in
        subst (AllFrom d) f (a.0, AllFrom-unlink d p ns ms r a.1)
  ]
]

pub Sorted-unlink : (p : ℕ) (ts us : List Timer) → unlink p ts ≡ some us → Sorted ts → Sorted us
unfolding unlink
Sorted-unlink p [] us e s = cc
Sorted-unlink p (n ∷ ns) us e s = elim (Bool-cases (n.address == p)) [
  | inl q ↦ let f : ns ≡ us = ground (arith, q) in subst Sorted f s.1
  | inr q ↦ elim (Option-cases (unlink p ns)) [
    | inl r ↦ absurd (ground (arith, q, r))
    | inr (ms, r) ↦
        let f : n ∷ ms ≡ us = ground (arith, q, r) in
        subst Sorted f (AllFrom-unlink n.deadline p ns ms r s.0, Sorted-unlink p ns ms r s.1)
  ]
]
