-- ===== src/Embedfs/Search.antt =====
-- The binary searches of bridge/src/embedfs.c, against a search from the front.
use homekit_bridge.Base.{
  ℕ, zero, suc, ◌+◌, ◌-◌, ◌/◌, ◌≤◌, ◌<◌, ◌≡◌, ◌≢◌, sym, ap, ◌∙◌, ◌⊎◌, inl, inr, Option, none, some,
  List, [], ◌∷◌, Ordering, length, get_elem?, get_elem?-lt, arith, Bool-cases, Option-cases,
  if◌then◌else◌, dec_lt, ltb, refl,
}
use homekit_bridge.Base.Bytes.{
  Bytes, strcmp, same, same_iff, strcmp_self, eq_of_strcmp, strcmp-gt_iff,
}
use homekit_bridge.Embedfs.{Sought, found, absent, search}

-- A search has ended: with the result, or with nothing.
abbrev pub told : {A : Type 0} → Option A → Sought A
told none = absent
told (some x) = found x

Ordering-cases : (o : Ordering) → (o ≡ Ordering.lt) ⊎ (o ≡ Ordering.eq) ⊎ (o ≡ Ordering.gt)
Ordering-cases Ordering.lt = inl refl
Ordering-cases Ordering.eq = inr (inl refl)
Ordering-cases Ordering.gt = inr (inr refl)

module _ {A : Type 0} (name : A → Bytes) where
  -- The names go up from `x` on.
  abbrev pub Above : A → List A → Type 0
  Above x [] = Unit
  Above x (y ∷ ys) = (strcmp (name x) (name y) ≡ Ordering.lt) × Above x ys

  abbrev pub IsSorted : List A → Type 0
  IsSorted [] = Unit
  IsSorted (x ∷ xs) = Above x xs × IsSorted xs

  -- The first entry of that name.
  unfoldable pub first_named : Bytes → List A → Option A
  first_named key [] = none
  first_named key (x ∷ xs) = if same (name x) key then some x else first_named key xs

  Above-at :
      (x : A) (xs : List A) (j : ℕ) {y : A}
      → Above x xs
      → get_elem? xs j ≡ some y
      → strcmp (name x) (name y) ≡ Ordering.lt
  Above-at x [] j a e = cc
  Above-at x (z ∷ xs) zero a e = ground arith
  Above-at x (z ∷ xs) (suc j) a e = Above-at x xs j a.1 e

  -- An earlier entry has the lesser name.
  IsSorted-at :
      (xs : List A) (i j : ℕ) {x y : A}
      → IsSorted xs
      → i < j
      → get_elem? xs i ≡ some x
      → get_elem? xs j ≡ some y
      → strcmp (name x) (name y) ≡ Ordering.lt
  IsSorted-at [] i j s h e k = cc
  IsSorted-at (z ∷ xs) i zero s h e k = absurd (omega arith)
  IsSorted-at (z ∷ xs) zero (suc j) s h e k = ground (arith, Above-at z xs j s.0 k)
  IsSorted-at (z ∷ xs) (suc i) (suc j) s h e k = IsSorted-at xs i j s.1 (omega arith) e k

  module _ (xs : List A) (key : Bytes) (sorted : IsSorted xs) where
    -- Where the entry lies, compared with the one in the middle.
    side :
        (mid i : ℕ) (x y : A)
        → get_elem? xs mid ≡ some y
        → get_elem? xs i ≡ some x
        → name x ≡ key
        → ((strcmp (name y) key ≡ Ordering.eq) × (y ≡ x))
          ⊎ ((strcmp (name y) key ≡ Ordering.gt) × (i < mid))
          ⊎ ((strcmp (name y) key ≡ Ordering.lt) × (mid < i))
    side mid i x y em ei k = elim (dec_lt mid i) [
      | yes p ↦ inr (inr (rw (← k) (IsSorted-at xs mid i sorted p em ei), p))
      | no p ↦ elim (dec_lt i mid) [
        | yes q ↦ inr (
            inl (
              rw (← k) ((strcmp-gt_iff (name y) (name x)).1 (IsSorted-at xs i mid sorted q ei em)),
              q,
            ))
        | no q ↦ inl (same_place (omega arith))
      ]
    ]
      where
        same_place : mid ≡ i → (strcmp (name y) key ≡ Ordering.eq) × (y ≡ x)
        same_place p =
            let both : some y ≡ some x = sym em ∙ ap (get_elem? xs) p ∙ ei in
            let q : y ≡ x = cc in (rw (q, k) (strcmp_self key), q)

    search_complete :
        (f left hi i : ℕ) (x : A)
        → hi - left < f
        → hi ≤ length xs
        → left ≤ i
        → i < hi
        → get_elem? xs i ≡ some x
        → name x ≡ key
        → search name xs key f left hi ≡ found x
    unfolding search
    search_complete zero left hi i x f h l u e k = absurd (omega arith)
    search_complete (suc n) left hi i x f h l u e k =
        let mid = left + (hi - 1 - left) / 2 in
        let (y, em) = get_elem?-lt xs mid (omega arith) in
        ground (
          arith,
          side mid i x y em e k,
          search_complete n left mid i x,
          search_complete n (mid + 1) hi i x,
        )

  search_inv :
      (xs : List A) (key : Bytes) (f left hi : ℕ) (x : A)
      → search name xs key (suc f) left hi ≡ found x
      → let mid = left + (hi - 1 - left) / 2 in
        ((get_elem? xs mid ≡ some x) × (name x ≡ key))
        ⊎ (search name xs key f left mid ≡ found x)
        ⊎ (search name xs key f (mid + 1) hi ≡ found x)
  unfolding search
  search_inv xs key f left hi x e =
      let mid = left + (hi - 1 - left) / 2 in
      elim (Option-cases (get_elem? xs mid)) [
        | inl m ↦ ground (arith, m)
        | inr (y, m) ↦ ground (arith, m, eq_of_strcmp (name y) key)
      ]

  search_sound :
      (xs : List A) (key : Bytes) (f left hi : ℕ) (x : A)
      → search name xs key f left hi ≡ found x
      → (i : ℕ) × (get_elem? xs i ≡ some x) × (name x ≡ key)
  unfolding search
  search_sound xs key zero left hi x e = cc
  search_sound xs key (suc f) left hi x e =
      let mid = left + (hi - 1 - left) / 2 in
      elim (search_inv xs key f left hi x e) [
        | inl here ↦ (mid, here.0, here.1)
        | inr (inl e') ↦ search_sound xs key f left mid x e'
        | inr (inr e') ↦ search_sound xs key f (mid + 1) hi x e'
      ]

  -- The first entry of a name, by its position.
  first_named-at :
      (xs : List A) (key : Bytes) (x : A)
      → first_named key xs ≡ some x
      → (i : ℕ) × (get_elem? xs i ≡ some x) × (i < length xs) × (name x ≡ key)
  unfolding first_named
  first_named-at [] key x e = cc
  first_named-at (y ∷ xs) key x e = elim (Bool-cases (same (name y) key)) [
    | inl s ↦ (0, ground (arith, s), omega arith, ground (arith, s, same_iff (name y) key))
    | inr s ↦
        let (i, here, l, k) = first_named-at xs key x (ground (arith, s)) in
        (suc i, here, omega arith, k)
  ]

  first_named-some :
      (xs : List A) (key : Bytes) (i : ℕ) (x : A)
      → get_elem? xs i ≡ some x
      → name x ≡ key
      → first_named key xs ≢ none
  unfolding first_named
  first_named-some [] key i x e k n = cc
  first_named-some (y ∷ xs) key zero x e k n = ground (arith, same_iff (name y) key)
  first_named-some (y ∷ xs) key (suc i) x e k n = ground (arith, first_named-some xs key i x)

  -- Within the array, with more rounds than entries, the search ends.
  search_ends :
      (xs : List A) (key : Bytes) (f left hi : ℕ)
      → hi - left < f
      → hi ≤ length xs
      → (o : Option A) × (search name xs key f left hi ≡ told o)
  unfolding search
  search_ends xs key zero left hi l h = absurd (omega arith)
  search_ends xs key (suc f) left hi l h = elim (Bool-cases (ltb left hi)) [
    | inr e ↦ (none, rw (search, e) refl)
    | inl e ↦
        let p : left < hi = ground (arith, e) in
        let mid = left + (hi - 1 - left) / 2 in
        let (x, m) = get_elem?-lt xs mid (omega arith) in
        elim (Ordering-cases (strcmp (name x) key)) [
          | inl c ↦
              let (o, r) = search_ends xs key f (mid + 1) hi (omega arith) h in
              (o, rw (search, e, m, c, r) refl)
          | inr (inl c) ↦ (some x, rw (search, e, m, c) refl)
          | inr (inr c) ↦
              let (o, r) = search_ends xs key f left mid (omega arith) (omega arith) in
              (o, rw (search, e, m, c, r) refl)
        ]
  ]

  -- On an array that is sorted by name, the binary search over all of it ends and returns the first
  -- entry of the name, and nothing exactly when there is none: more rounds than the array has entries
  -- are not needed, and no access is out of range.
  pub search-eq-first_named :
      (xs : List A) (key : Bytes)
      → IsSorted xs
      → search name xs key (suc (length xs)) 0 (length xs) ≡ told (first_named key xs)
  search-eq-first_named xs key s = elim (Option-cases (first_named key xs)) [
    | inr (x, e) ↦
        let (i, here, l, k) = first_named-at xs key x e in
        rw e (
          search_complete xs key s (suc (length xs)) 0 (length xs) i x (omega arith) (omega arith)
            (omega arith) l here k)
    | inl e ↦
        let (o, q) =
          search_ends xs key (suc (length xs)) 0 (length xs) (omega arith) (omega arith) in
        elim (Option-cases o) [
          | inl n ↦ q ∙ ap told (n ∙ sym e)
          | inr (x, n) ↦
              let (i, here, k) =
                search_sound xs key (suc (length xs)) 0 (length xs) x (q ∙ ap told n) in
              absurd (first_named-some xs key i x here k e)
        ]
  ]
