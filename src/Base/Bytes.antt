-- ===== src/Base/Bytes.antt =====
-- Bytes and C strings. A string is the list of its bytes, without the terminating NUL.
use Prim.Native.Nat.{ℕ, compare, Ordering}
use mathlib.Core.Path.{◌≡◌, refl}
use mathlib.Core.Logic.{◌↔◌}
use mathlib.Core.Bool.{Bool, true, false}
use mathlib.Core.List.{List, [], ◌∷◌}
use native.Mathlib.Omega.{arith}

abbrev pub Bytes : Type 0
Bytes = List ℕ

-- The sign of strcmp.
unfoldable pub strcmp : Bytes → Bytes → Ordering
strcmp [] [] = Ordering.eq
strcmp [] (y ∷ ys) = Ordering.lt
strcmp (x ∷ xs) [] = Ordering.gt
strcmp (x ∷ xs) (y ∷ ys) = elim (compare x y) [
  | Ordering.lt ↦ Ordering.lt
  | Ordering.eq ↦ strcmp xs ys
  | Ordering.gt ↦ Ordering.gt
]

-- `!strcmp(s, t)`, and `!memcmp(s, t, n)` on two buffers of n bytes.
unfoldable pub same : Bytes → Bytes → Bool
same s t = elim (strcmp s t) [ Ordering.eq ↦ true | _ ↦ false ]

pub strcmp_self : (s : Bytes) → strcmp s s ≡ Ordering.eq
unfolding strcmp
strcmp_self [] = refl
strcmp_self (x ∷ s) = ground (arith, strcmp_self s)

pub eq_of_strcmp : (s t : Bytes) → strcmp s t ≡ Ordering.eq → s ≡ t
unfolding strcmp
eq_of_strcmp [] [] h = refl
eq_of_strcmp [] (y ∷ t) h = cc
eq_of_strcmp (x ∷ s) [] h = cc
eq_of_strcmp (x ∷ s) (y ∷ t) h = ground (arith, eq_of_strcmp s t)

pub strcmp-gt_iff : (s t : Bytes) → (strcmp s t ≡ Ordering.gt) ↔ (strcmp t s ≡ Ordering.lt)
unfolding strcmp
strcmp-gt_iff [] [] = ground arith
strcmp-gt_iff [] (y ∷ t) = ground arith
strcmp-gt_iff (x ∷ s) [] = ground arith
strcmp-gt_iff (x ∷ s) (y ∷ t) = ground (arith, strcmp-gt_iff s t)

pub strcmp-lt_trans :
    (s t u : Bytes) → strcmp s t ≡ Ordering.lt → strcmp t u ≡ Ordering.lt → strcmp s u ≡ Ordering.lt
unfolding strcmp
strcmp-lt_trans [] t [] h k = ground arith
strcmp-lt_trans [] t (z ∷ u) h k = refl
strcmp-lt_trans (x ∷ s) [] u h k = cc
strcmp-lt_trans (x ∷ s) (y ∷ t) [] h k = cc
strcmp-lt_trans (x ∷ s) (y ∷ t) (z ∷ u) h k = ground (arith, strcmp-lt_trans s t u)

pub same_iff : (s t : Bytes) → (same s t ≡ true) ↔ (s ≡ t)
unfolding same
same_iff s t = (λ h. eq_of_strcmp s t (ground arith), λ e. rw e (ground (arith, strcmp_self t)))

pub same_self : (s : Bytes) → same s s ≡ true
same_self s = (same_iff s s).1 refl
