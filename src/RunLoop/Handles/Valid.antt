-- ===== src/RunLoop/Handles/Valid.antt =====
-- The list of file handles of HAPPlatformRunLoop.c, and the handles from its cursor on.
use mathlib.Core.Path.{subst}
use mathlib.Core.Option.{some-injective}
use homekit_bridge.Base.{
  ℕ, suc, ◌≡◌, inl, inr, refl, ap, sym, ◌∙◌, Bool, true, false, ◌&&◌, Option, none, some, List, [],
  ◌∷◌, ◌==◌, if◌then◌else◌, arith, Bool-cases, length,
}
use homekit_bridge.RunLoop.Handles.{Handle, Handles, first, next, find}

-- No handle has the address.
abbrev pub Unused : ℕ → List Handle → Type 0
Unused p [] = Unit
Unused p (h ∷ hs) = ((h.address == p) ≡ false) × Unused p hs

abbrev is_none {ℓ} : {A : Type ℓ} → Option A → Bool
is_none none = true
is_none (some x) = false

-- A handle has an address, and awaits events only on a descriptor.
abbrev pub Proper : Handle → Type 0
Proper h = ((h.address == 0) ≡ false) × ((h.awaiting && is_none h.descriptor) ≡ false)

-- Proper handles at different addresses.
abbrev pub WellFormed : List Handle → Type 0
WellFormed [] = Unit
WellFormed (h ∷ hs) = Unused h.address hs × Proper h × WellFormed hs

-- A handle has the address.
abbrev pub has : ℕ → List Handle → Bool
has c [] = false
has c (h ∷ hs) = if h.address == c then true else has c hs

-- The cursor is at the sentinel or at a handle.
pub record Valid (s : Handles) : Type 0 where
  pub formed : WellFormed s.list
  pub cursor : (s.cursor == 0) ≡ false → has s.cursor s.list ≡ true

-- How many handles await events, and how many of those from the address `c` on.
abbrev pub awaiting : List Handle → ℕ
awaiting [] = 0
awaiting (h ∷ hs) = if h.awaiting then suc (awaiting hs) else awaiting hs

abbrev pub waiting : ℕ → List Handle → ℕ
waiting c [] = 0
waiting c (h ∷ hs) = if h.address == c then awaiting (h ∷ hs) else waiting c hs

-- How many handles there are from the address `c` on.
abbrev pub left : ℕ → List Handle → ℕ
left c [] = 0
left c (h ∷ hs) = if h.address == c then suc (length hs) else left c hs

pub Unused-find : (p : ℕ) (hs : List Handle) → Unused p hs → find p hs ≡ none
unfolding find
Unused-find p [] u = refl
Unused-find p (h ∷ hs) u = ground (arith, u, Unused-find p hs u.1)

pub find-next :
    (p : ℕ) (h : Handle) (hs : List Handle) → find p hs ≡ some h → (n : ℕ) × (next p hs ≡ some n)
unfolding find next
find-next p h [] e = cc
find-next p h (k ∷ hs) e = elim (Bool-cases (k.address == p)) [
  | inl q ↦ (first hs, ground (arith, q))
  | inr q ↦ let (n, r) = find-next p h hs (ground (arith, q)) in (n, ground (arith, q, r))
]

pub find-address : (p : ℕ) (h : Handle) (hs : List Handle) → find p hs ≡ some h → h.address ≡ p
unfolding find
find-address p h [] e = cc
find-address p h (k ∷ hs) e = elim (Bool-cases (k.address == p)) [
  | inl q ↦
      let r : some k ≡ some h = ground (arith, q) in
      sym (ap (λ (x : Handle). x.address) (some-injective k h r)) ∙ ground (arith, q)
  | inr q ↦ find-address p h hs (ground (arith, q))
]

-- What follows a handle is not a handle that is not in the list.
first-away : (j : ℕ) (hs : List Handle) → Unused j hs → (j == 0) ≡ false → (j == first hs) ≡ false
first-away j [] u z = z
first-away j (h ∷ hs) u z = ground (arith, u)

pub next-away :
    (j p n : ℕ) (hs : List Handle)
    → Unused j hs
    → (j == 0) ≡ false
    → next p hs ≡ some n
    → (j == n) ≡ false
unfolding next
next-away j p n [] u z e = cc
next-away j p n (h ∷ hs) u z e = elim (Bool-cases (h.address == p)) [
  | inl q ↦
      let r : first hs ≡ n = ground (arith, q) in
      subst (λ m. (j == m) ≡ false) r (first-away j hs u.1 z)
  | inr q ↦ next-away j p n hs u.1 z (ground (arith, q))
]

waiting-first :
    (hs : List Handle) → (waiting (first hs) hs ≡ awaiting hs) × (left (first hs) hs ≡ length hs)
waiting-first [] = (refl, refl)
waiting-first (h ∷ hs) = ground arith

pub has-first : (hs : List Handle) → (first hs == 0) ≡ false → has (first hs) hs ≡ true
has-first [] z = ground (arith, z)
has-first (h ∷ hs) z = ground arith

pub has-find : (c : ℕ) (hs : List Handle) → has c hs ≡ true → (h : Handle) × (find c hs ≡ some h)
unfolding find
has-find c [] e = absurd (ground (arith, e))
has-find c (h ∷ hs) e = elim (Bool-cases (h.address == c)) [
  | inl q ↦ (h, ground (arith, q))
  | inr q ↦ let (k, r) = has-find c hs (ground (arith, q, e)) in (k, ground (arith, q, r))
]

-- The cursor goes one handle further.
pub next-left :
    (c n : ℕ) (h : Handle) (hs : List Handle)
    → WellFormed hs
    → find c hs ≡ some h
    → next c hs ≡ some n
    → (waiting c hs ≡ (if h.awaiting then suc (waiting n hs) else waiting n hs))
      × (left c hs ≡ suc (left n hs))
unfolding find next
next-left c n h [] f e g = cc
next-left c n h (k ∷ hs) f e g = elim (Bool-cases (k.address == c)) [
  | inl q ↦
      let r : first hs ≡ n = ground (arith, q) in
      let s : k ≡ h = some-injective k h (ground (arith, q)) in
      let a : (k.address == n) ≡ false =
        subst (λ m. (k.address == m) ≡ false) r (first-away k.address hs f.0 f.1.0) in
      let (w, l) = waiting-first hs in
      let w' : waiting n hs ≡ awaiting hs = ap (λ m. waiting m hs) (sym r) ∙ w in
      let l' : left n hs ≡ length hs = ap (λ m. left m hs) (sym r) ∙ l in
      let b : k.awaiting ≡ h.awaiting = ap (λ (x : Handle). x.awaiting) s in
      ground (arith, q, a, w', l', b)
  | inr q ↦
      let a : (k.address == n) ≡ false = next-away k.address c n hs f.0 f.1.0 (ground (arith, q)) in
      ground (arith, q, a, next-left c n h hs f.2 (ground (arith, q)) (ground (arith, q)))
]

pub has-next :
    (c n : ℕ) (hs : List Handle)
    → WellFormed hs
    → next c hs ≡ some n
    → (n == 0) ≡ false
    → has n hs ≡ true
unfolding next
has-next c n [] f g z = cc
has-next c n (k ∷ hs) f g z = elim (Bool-cases (k.address == c)) [
  | inl q ↦
      let r : first hs ≡ n = ground (arith, q) in
      let e : has n hs ≡ true =
        subst (λ m. (m == 0) ≡ false → has m hs ≡ true) r (has-first hs) z in
      ground (arith, e)
  | inr q ↦
      let g' : next c hs ≡ some n = ground (arith, q) in ground (arith, has-next c n hs f.2 g' z)
]

-- A handle is not its own successor.
pub next-other :
    (p n : ℕ) (hs : List Handle) → WellFormed hs → next p hs ≡ some n → (p == n) ≡ false
unfolding next
next-other p n [] f g = cc
next-other p n (k ∷ hs) f g = elim (Bool-cases (k.address == p)) [
  | inl q ↦
      let r : first hs ≡ n = ground (arith, q) in
      let a : (k.address == n) ≡ false =
        subst (λ m. (k.address == m) ≡ false) r (first-away k.address hs f.0 f.1.0) in
      ground (arith, a, q)
  | inr q ↦ next-other p n hs f.2 (ground (arith, q))
]

pub next-has : (p n : ℕ) (hs : List Handle) → next p hs ≡ some n → has p hs ≡ true
unfolding next
next-has p n [] g = cc
next-has p n (k ∷ hs) g = elim (Bool-cases (k.address == p)) [
  | inl q ↦ ground (arith, q)
  | inr q ↦ ground (arith, q, next-has p n hs (ground (arith, q)))
]

pub find-Proper :
    (p : ℕ) (h : Handle) (hs : List Handle) → WellFormed hs → find p hs ≡ some h → Proper h
unfolding find
find-Proper p h [] f e = cc
find-Proper p h (k ∷ hs) f e = elim (Bool-cases (k.address == p)) [
  | inl q ↦ subst Proper (some-injective k h (ground (arith, q))) f.1
  | inr q ↦ find-Proper p h hs f.2 (ground (arith, q))
]
