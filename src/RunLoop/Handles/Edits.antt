-- ===== src/RunLoop/Handles/Edits.antt =====
-- The edits of the list of file handles of HAPPlatformRunLoop.c.
use mathlib.Core.Path.{subst}
use homekit_bridge.Base.{
  ℕ, ◌≤◌, ◌≡◌, inl, inr, refl, true, false, not, ◌&&◌, some, List, [], ◌∷◌, ◌++◌, ◌==◌, arith,
  Bool-cases, Option-cases, length,
}
use homekit_bridge.RunLoop.Handles.{Handle, unlink, adjust}
use homekit_bridge.RunLoop.Handles.Valid.{Unused, WellFormed, awaiting, waiting, left, has}

-- A change of a handle that keeps its address and descriptor, and makes it await no events.
abbrev pub Tame : (Handle → Handle) → Type 0
Tame f =
    (h : Handle)
    → ((f h).address ≡ h.address)
      × ((f h).descriptor ≡ h.descriptor)
      × ((not h.awaiting && (f h).awaiting) ≡ false)

module _ (f : Handle → Handle) (m : Tame f) (p : ℕ) where
  Unused-adjust : (j : ℕ) (hs : List Handle) → Unused j hs → Unused j (adjust f p hs)
  unfolding adjust
  Unused-adjust j [] u = tt
  Unused-adjust j (h ∷ hs) u = elim (Bool-cases (h.address == p)) [
    | inl q ↦ let e = (m h).0 in rw q (rw e u.0, u.1)
    | inr q ↦ rw q (u.0, Unused-adjust j hs u.1)
  ]

  pub WellFormed-adjust : (hs : List Handle) → WellFormed hs → WellFormed (adjust f p hs)
  unfolding adjust
  WellFormed-adjust [] w = tt
  WellFormed-adjust (h ∷ hs) w = elim (Bool-cases (h.address == p)) [
    | inl q ↦
        let (a, d, k) = m h in rw q (rw a w.0, (rw a w.1.0, rw d (ground (arith, k, w.1.1))), w.2)
    | inr q ↦ rw q (Unused-adjust h.address hs w.0, w.1, WellFormed-adjust hs w.2)
  ]

  pub has-adjust : (c : ℕ) (hs : List Handle) → has c (adjust f p hs) ≡ has c hs
  unfolding adjust
  has-adjust c [] = refl
  has-adjust c (h ∷ hs) = ground (arith, m h, has-adjust c hs)

  length-adjust : (hs : List Handle) → length (adjust f p hs) ≡ length hs
  unfolding adjust
  length-adjust [] = refl
  length-adjust (h ∷ hs) = ground (arith, length-adjust hs)

  awaiting-adjust : (hs : List Handle) → awaiting (adjust f p hs) ≤ awaiting hs
  unfolding adjust
  awaiting-adjust [] = omega arith
  awaiting-adjust (h ∷ hs) = ground (arith, m h, awaiting-adjust hs)

  pub waiting-adjust :
      (c : ℕ) (hs : List Handle)
      → (waiting c (adjust f p hs) ≤ waiting c hs) × (left c (adjust f p hs) ≡ left c hs)
  unfolding adjust
  waiting-adjust c [] = (omega arith, refl)
  waiting-adjust c (h ∷ hs) =
      ground (arith, m h, awaiting-adjust hs, length-adjust hs, waiting-adjust c hs)

module _ (n : Handle) where
  Unused-added :
      (j : ℕ) (hs : List Handle) → Unused j hs → (n.address == j) ≡ false → Unused j (hs ++ n ∷ [])
  Unused-added j [] u e = (e, tt)
  Unused-added j (h ∷ hs) u e = (u.0, Unused-added j hs u.1 e)

  pub WellFormed-added :
      (hs : List Handle)
      → WellFormed hs
      → Unused n.address hs
      → (n.address == 0) ≡ false
      → n.awaiting ≡ false
      → WellFormed (hs ++ n ∷ [])
  WellFormed-added [] w u z a = (tt, (z, ground (arith, a)), tt)
  WellFormed-added (h ∷ hs) w u z a =
      (Unused-added h.address hs w.0 (ground (arith, u.0)), w.1, WellFormed-added hs w.2 u.1 z a)

  pub has-added : (c : ℕ) (hs : List Handle) → has c hs ≡ true → has c (hs ++ n ∷ []) ≡ true
  has-added c [] e = ground (arith, e)
  has-added c (h ∷ hs) e = ground (arith, e, has-added c hs)

  awaiting-added : (hs : List Handle) → n.awaiting ≡ false → awaiting (hs ++ n ∷ []) ≡ awaiting hs
  awaiting-added [] a = ground (arith, a)
  awaiting-added (h ∷ hs) a = ground (arith, awaiting-added hs a)

  pub waiting-added :
      (c : ℕ) (hs : List Handle) → n.awaiting ≡ false → waiting c (hs ++ n ∷ []) ≡ waiting c hs
  waiting-added c [] a = ground (arith, a)
  waiting-added c (h ∷ hs) a = ground (arith, awaiting-added hs a, waiting-added c hs a)

Unused-unlink : (j p : ℕ) (hs us : List Handle) → unlink p hs ≡ some us → Unused j hs → Unused j us
unfolding unlink
Unused-unlink j p [] us e u = cc
Unused-unlink j p (h ∷ hs) us e u = elim (Bool-cases (h.address == p)) [
  | inl q ↦ let f : hs ≡ us = ground (arith, q) in subst (Unused j) f u.1
  | inr q ↦ elim (Option-cases (unlink p hs)) [
    | inl r ↦ absurd (ground (arith, q, r))
    | inr (ms, r) ↦
        let f : h ∷ ms ≡ us = ground (arith, q, r) in
        subst (Unused j) f (u.0, Unused-unlink j p hs ms r u.1)
  ]
]

pub WellFormed-unlink :
    (p : ℕ) (hs us : List Handle) → unlink p hs ≡ some us → WellFormed hs → WellFormed us
unfolding unlink
WellFormed-unlink p [] us e w = cc
WellFormed-unlink p (h ∷ hs) us e w = elim (Bool-cases (h.address == p)) [
  | inl q ↦ let f : hs ≡ us = ground (arith, q) in subst WellFormed f w.2
  | inr q ↦ elim (Option-cases (unlink p hs)) [
    | inl r ↦ absurd (ground (arith, q, r))
    | inr (ms, r) ↦
        let f : h ∷ ms ≡ us = ground (arith, q, r) in
        subst WellFormed f
          (Unused-unlink h.address p hs ms r w.0, w.1, WellFormed-unlink p hs ms r w.2)
  ]
]

-- What is left of the list from an address on that is not removed.
pub record Kept (c : ℕ) (hs us : List Handle) : Type 0 where
  pub less : waiting c us ≤ waiting c hs
  pub all : awaiting us ≤ awaiting hs
  pub still : has c us ≡ has c hs

pub unlink-Kept :
    (c p : ℕ) (hs us : List Handle)
    → unlink p hs ≡ some us
    → WellFormed hs
    → (p == c) ≡ false
    → Kept c hs us
unfolding unlink
unlink-Kept c p [] us e w n = cc
unlink-Kept c p (h ∷ hs) us e w n = elim (Bool-cases (h.address == p)) [
  | inl q ↦
      let f : hs ≡ us = ground (arith, q) in
      subst (Kept c (h ∷ hs)) f
        (record { less = ground (arith, q, n); all = ground arith; still = ground (arith, q, n) })
  | inr q ↦ elim (Option-cases (unlink p hs)) [
    | inl r ↦ absurd (ground (arith, q, r))
    | inr (ms, r) ↦
        let f : h ∷ ms ≡ us = ground (arith, q, r) in
        let k = unlink-Kept c p hs ms r w.2 n in
        subst (Kept c (h ∷ hs)) f (record {
          less = ground (arith, k.less, k.all);
          all = ground (arith, k.all);
          still = ground (arith, k.still);
        })
  ]
]
