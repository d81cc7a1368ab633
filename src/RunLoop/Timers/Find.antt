-- ===== src/RunLoop/Timers/Find.antt =====
-- The timers of HAPPlatformRunLoop.c by their address.
use mathlib.Core.Path.{subst}
use homekit_bridge.Base.{
  ℕ, ◌≡◌, inl, inr, refl, ap, ◌∙◌, false, Option, none, some, List, [], ◌∷◌, ◌==◌, if◌then◌else◌,
  arith, Bool-cases, Option-cases,
}
use homekit_bridge.RunLoop.Timers.{Timer, insert, unlink}

unfoldable pub find : ℕ → List Timer → Option Timer
find p [] = none
find p (t ∷ ts) = if t.address == p then some t else find p ts

-- No timer has the address.
abbrev pub Unused : ℕ → List Timer → Type 0
Unused p [] = Unit
Unused p (t ∷ ts) = ((t.address == p) ≡ false) × Unused p ts

-- No two timers have the same address.
abbrev pub DistinctAddresses : List Timer → Type 0
DistinctAddresses [] = Unit
DistinctAddresses (t ∷ ts) = Unused t.address ts × DistinctAddresses ts

pub Unused-find : (p : ℕ) (ts : List Timer) → Unused p ts → find p ts ≡ none
unfolding find
Unused-find p [] u = refl
Unused-find p (t ∷ ts) u = ground (arith, u, Unused-find p ts u.1)

pub find-insert :
    (j : ℕ) (t : Timer) (d : ℕ) (ts : List Timer)
    → Unused t.address ts
    → find j (insert t d ts) ≡ (if t.address == j then some t else find j ts)
unfolding find insert
find-insert j t d [] u = refl
find-insert j t d (n ∷ ns) u = ground (arith, u, find-insert j t d ns u.1)

pub Unused-insert :
    (p : ℕ) (t : Timer) (d : ℕ) (ts : List Timer)
    → (t.address == p) ≡ false
    → Unused p ts
    → Unused p (insert t d ts)
unfolding insert
Unused-insert p t d [] h u = (h, tt)
Unused-insert p t d (n ∷ ns) h u = ground (arith, h, u, Unused-insert p t d ns h u.1)

pub DistinctAddresses-insert :
    (t : Timer) (d : ℕ) (ts : List Timer)
    → Unused t.address ts
    → DistinctAddresses ts
    → DistinctAddresses (insert t d ts)
unfolding insert
DistinctAddresses-insert t d [] u s = (tt, tt)
DistinctAddresses-insert t d (n ∷ ns) u s = ground (
  arith,
  u,
  s,
  Unused-insert n.address t d ns (ground (arith, u)) s.0,
  DistinctAddresses-insert t d ns u.1 s.1,
)

-- A timer that is there can be deregistered.
pub unlink-found :
    (p : ℕ) (t : Timer) (ts : List Timer)
    → find p ts ≡ some t
    → (us : List Timer) × (unlink p ts ≡ some us)
unfolding find unlink
unlink-found p t [] e = cc
unlink-found p t (n ∷ ns) e = elim (Bool-cases (n.address == p)) [
  | inl q ↦ (ns, ground (arith, q))
  | inr q ↦ let (us, r) = unlink-found p t ns (ground (arith, q)) in (n ∷ us, ground (arith, q, r))
]

Unused-unlink : (j p : ℕ) (ts us : List Timer) → unlink p ts ≡ some us → Unused j ts → Unused j us
unfolding unlink
Unused-unlink j p [] us e u = cc
Unused-unlink j p (n ∷ ns) us e u = elim (Bool-cases (n.address == p)) [
  | inl q ↦ let f : ns ≡ us = ground (arith, q) in subst (Unused j) f u.1
  | inr q ↦ elim (Option-cases (unlink p ns)) [
    | inl r ↦ absurd (ground (arith, q, r))
    | inr (ms, r) ↦
        let f : n ∷ ms ≡ us = ground (arith, q, r) in
        subst (Unused j) f (u.0, Unused-unlink j p ns ms r u.1)
  ]
]

pub find-unlink :
    (j p : ℕ) (ts us : List Timer)
    → DistinctAddresses ts
    → unlink p ts ≡ some us
    → find j us ≡ (if p == j then none else find j ts)
unfolding find unlink
find-unlink j p [] us s e = cc
find-unlink j p (n ∷ ns) us s e = elim (Bool-cases (n.address == p)) [
  | inl q ↦
      let f : us ≡ ns = ground (arith, q) in
      ap (find j) f ∙ ground (arith, q, Unused-find n.address ns s.0)
  | inr q ↦ elim (Option-cases (unlink p ns)) [
    | inl r ↦ absurd (ground (arith, q, r))
    | inr (ms, r) ↦
        let f : us ≡ n ∷ ms = ground (arith, q, r) in
        ap (find j) f ∙ ground (arith, q, find-unlink j p ns ms s.1 r)
  ]
]

pub DistinctAddresses-unlink :
    (p : ℕ) (ts us : List Timer)
    → unlink p ts ≡ some us
    → DistinctAddresses ts
    → DistinctAddresses us
unfolding unlink
DistinctAddresses-unlink p [] us e s = cc
DistinctAddresses-unlink p (n ∷ ns) us e s = elim (Bool-cases (n.address == p)) [
  | inl q ↦ let f : ns ≡ us = ground (arith, q) in subst DistinctAddresses f s.1
  | inr q ↦ elim (Option-cases (unlink p ns)) [
    | inl r ↦ absurd (ground (arith, q, r))
    | inr (ms, r) ↦
        let f : n ∷ ms ≡ us = ground (arith, q, r) in
        subst DistinctAddresses f
          (Unused-unlink n.address p ns ms r s.0, DistinctAddresses-unlink p ns ms r s.1)
  ]
]
