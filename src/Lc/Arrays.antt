-- ===== src/Lc/Arrays.antt =====
-- The tables that `lc_traverse_array` of bridge/src/lc.c takes for arrays.
use homekit_bridge.Base.{
  ℕ, suc, ◌+◌, ◌≡◌, ◌↔◌, inl, inr, refl, ap, sym, ◌∙◌, Bool, true, false, some, List, [], ◌∷◌, ◌++◌,
  ◌==◌, arith, Bool-cases, Option-cases, append_assoc, append-nil,
}
use homekit_bridge.Lc.{Key, traverse_from, traverse_array}

module _ {V : Type 0} where
  -- The keys are the integers from `n` on, in order.
  abbrev pub Counts : ℕ → List (Key × V) → Type 0
  Counts n [] = Unit
  Counts n ((k, v) ∷ pairs) = (k.integer ≡ some n) × Counts (suc n) pairs

  -- The values with their indices from `i` on.
  abbrev pub indexed : ℕ → List (Key × V) → List (ℕ × V)
  indexed i [] = []
  indexed i ((k, v) ∷ pairs) = (i, v) ∷ indexed (suc i) pairs

  -- A callback that notes what it gets, and goes on.
  abbrev pub note : ℕ → V → List (ℕ × V) → List (ℕ × V) × Bool
  note i v w = (w ++ (i, v) ∷ [], true)

  accept_first :
      (i : ℕ) (k : Key) (v : V) (pairs : List (Key × V)) (w : List (ℕ × V))
      → k.integer ≡ some (suc i)
      → traverse_from i note ((k, v) ∷ pairs) w
        ≡ traverse_from (suc i) note pairs (w ++ (i, v) ∷ [])
  unfolding traverse_from
  accept_first i k v pairs w c =
      let e : (suc i == i + 1) ≡ true = ground arith in rw (traverse_from, c, e) refl

  refuse_first :
      (i n : ℕ) (k : Key) (v : V) (pairs : List (Key × V)) (w : List (ℕ × V))
      → k.integer ≡ some n
      → (n == i + 1) ≡ false
      → traverse_from i note ((k, v) ∷ pairs) w ≡ (w, false)
  unfolding traverse_from
  refuse_first i n k v pairs w c e = rw (traverse_from, c, e) refl

  accepts :
      (i : ℕ) (pairs : List (Key × V)) (w : List (ℕ × V))
      → Counts (suc i) pairs
      → traverse_from i note pairs w ≡ (w ++ indexed i pairs, true)
  unfolding traverse_from
  accepts i [] w c = ap (λ x. (x, true)) (sym (append-nil w))
  accepts i ((k, v) ∷ pairs) w c =
      accept_first i k v pairs w c.0
      ∙ accepts (suc i) pairs (w ++ (i, v) ∷ []) c.1
      ∙ ap (λ x. (x, true)) (append_assoc w ((i, v) ∷ []) (indexed (suc i) pairs))

  counts :
      (i : ℕ) (pairs : List (Key × V)) (w : List (ℕ × V))
      → (traverse_from i note pairs w).1 ≡ true
      → Counts (suc i) pairs
  unfolding traverse_from
  counts i [] w h = tt
  counts i ((k, v) ∷ pairs) w h = elim (Option-cases k.integer) [
    | inl e ↦ absurd (ground (arith, rw e at h))
    | inr (n, e) ↦ elim (Bool-cases (n == i + 1)) [
      | inl q ↦
          let n' : n ≡ suc i = ground (arith, q) in
          let e' : k.integer ≡ some (suc i) = e ∙ ap (λ (x : ℕ). some x) n' in
          let g = ap (λ (x : List (ℕ × V) × Bool). x.1) (accept_first i k v pairs w e') in
          (e', counts (suc i) pairs (w ++ (i, v) ∷ []) (sym g ∙ h))
      | inr q ↦
          let g = ap (λ (x : List (ℕ × V) × Bool). x.1) (refuse_first i n k v pairs w e q) in
          absurd (ground (arith, sym g ∙ h))
    ]
  ]

  -- `lc_traverse_array` accepts a table exactly if `lua_next` yields its keys as 1, 2, 3 and so on;
  -- then the callback, which notes what it gets and goes on, has got each value once, in order, with
  -- its index from 0 on.
  pub traverse_array_iff :
      (pairs : List (Key × V))
      → (((traverse_array (some note) pairs []).1 ≡ true) ↔ Counts 1 pairs)
        × (Counts 1 pairs → traverse_array (some note) pairs [] ≡ (indexed 0 pairs, true))
  unfolding traverse_array
  traverse_array_iff pairs = (
    (λ h. counts 0 pairs [] h, λ c. ap (λ (x : List (ℕ × V) × Bool). x.1) (accepts 0 pairs [] c)),
    λ c. accepts 0 pairs [] c,
  )
