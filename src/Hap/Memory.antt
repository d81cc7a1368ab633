-- ===== src/Hap/Memory.antt =====
-- The block of memory of the bridged accessories of bridge/src/lhaplib.c.
use mathlib.Core.Option.{some-injective}
use homekit_bridge.Base.{
  ℕ, zero, suc, ◌≤◌, ◌<◌, ◌≡◌, inl, inr, refl, ap, sym, ◌∙◌, none, some, List, [], ◌∷◌, ◌++◌, arith,
  Option-cases, length,
}
use homekit_bridge.Hap.{Accessory, Cell, unset, null, entry, accessories, write, resize}

pub accessories_less :
    (cs : List Cell) (bs : List Accessory) → accessories cs ≡ some bs → length bs < length cs
unfolding accessories
accessories_less [] bs e = cc
accessories_less (unset ∷ cs) bs e = cc
accessories_less (null ∷ cs) bs e =
    let q : [] ≡ bs = some-injective [] bs e in ground (arith, ap length q)
accessories_less (entry a ∷ cs) bs e = elim (Option-cases (accessories cs)) [
  | inl n ↦ absurd (ground (arith, n))
  | inr (more, n) ↦
      let q : a ∷ more ≡ bs = some-injective (a ∷ more) bs (ground (arith, n)) in
      ground (arith, ap length q, accessories_less cs more n)
]

pub length-resize : (n : ℕ) (cs : List Cell) → length (resize n cs) ≡ n
unfolding resize
length-resize zero cs = refl
length-resize (suc n) [] = ap suc (length-resize n [])
length-resize (suc n) (c ∷ cs) = ap suc (length-resize n cs)

pub length-write :
    (i : ℕ) (x : Cell) (cs us : List Cell) → write i x cs ≡ some us → length us ≡ length cs
unfolding write
length-write i x [] us e = cc
length-write zero x (c ∷ cs) us e = sym (ap length (some-injective (x ∷ cs) us e))
length-write (suc i) x (c ∷ cs) us e = elim (Option-cases (write i x cs)) [
  | inl n ↦ absurd (ground (arith, n))
  | inr (vs, n) ↦
      let q : c ∷ vs ≡ us = some-injective (c ∷ vs) us (ground (arith, n)) in
      sym (ap length q) ∙ ap suc (length-write i x cs vs n)
]

-- A write behind the block.
pub write_beyond : (i : ℕ) (x : Cell) (cs : List Cell) → length cs ≤ i → write i x cs ≡ none
unfolding write
write_beyond i x [] h = refl
write_beyond zero x (c ∷ cs) h = absurd (omega (arith, h))
write_beyond (suc i) x (c ∷ cs) h = rw (write, write_beyond i x cs (omega (arith, h))) refl

-- What a block holds is kept where there is room for it and the null pointer.
pub accessories-resize :
    (n : ℕ) (cs : List Cell) (bs : List Accessory)
    → accessories cs ≡ some bs
    → length bs < n
    → accessories (resize n cs) ≡ some bs
unfolding accessories resize
accessories-resize zero cs bs e h = absurd (omega (arith, h))
accessories-resize (suc n) [] bs e h = cc
accessories-resize (suc n) (unset ∷ cs) bs e h = cc
accessories-resize (suc n) (null ∷ cs) bs e h = e
accessories-resize (suc n) (entry a ∷ cs) bs e h = elim (Option-cases (accessories cs)) [
  | inl q ↦ absurd (ground (arith, q))
  | inr (more, q) ↦
      let w : a ∷ more ≡ bs = some-injective (a ∷ more) bs (ground (arith, q)) in
      rw (accessories-resize n cs more q (ground (arith, h, ap length w))) (ap some w)
]

-- The null pointer is written where it is.
pub write-end :
    (cs : List Cell) (bs : List Accessory)
    → accessories cs ≡ some bs
    → (us : List Cell) × (write (length bs) null cs ≡ some us) × (accessories us ≡ some bs)
unfolding accessories write
write-end [] bs e = cc
write-end (unset ∷ cs) bs e = cc
write-end (null ∷ cs) bs e =
    let q : [] ≡ bs = some-injective [] bs e in
    (null ∷ cs, ap (λ x. write (length x) null (null ∷ cs)) (sym q), e)
write-end (entry a ∷ cs) bs e = elim (Option-cases (accessories cs)) [
  | inl n ↦ absurd (ground (arith, n))
  | inr (more, n) ↦
      let q : a ∷ more ≡ bs = some-injective (a ∷ more) bs (ground (arith, n)) in
      let (us, w, r) = write-end cs more n in
      (
        entry a ∷ us,
        ap (λ x. write (length x) null (entry a ∷ cs)) (sym q) ∙ rw (write, w) refl,
        rw r (ap some q),
      )
]

-- An accessory at the end, with a null pointer behind it.
pub write-append :
    (a : Accessory) (cs : List Cell) (bs : List Accessory)
    → accessories cs ≡ some bs
    → suc (length bs) < length cs
    → (us : List Cell) × (vs : List Cell) × (write (length bs) (entry a) cs ≡ some us)
      × (write (suc (length bs)) null us ≡ some vs)
      × (accessories vs ≡ some (bs ++ a ∷ []))
unfolding accessories write
write-append a [] bs e h = cc
write-append a (unset ∷ cs) bs e h = cc
write-append a (null ∷ []) bs e h = absurd (omega (arith, h))
write-append a (null ∷ c ∷ cs) bs e h =
    let q : [] ≡ bs = some-injective [] bs e in
    (
      entry a ∷ c ∷ cs,
      entry a ∷ null ∷ cs,
      ap (λ x. write (length x) (entry a) (null ∷ c ∷ cs)) (sym q),
      ap (λ x. write (suc (length x)) null (entry a ∷ c ∷ cs)) (sym q),
      ap (λ x. some (x ++ a ∷ [])) q,
    )
write-append a (entry b ∷ cs) bs e h = elim (Option-cases (accessories cs)) [
  | inl n ↦ absurd (ground (arith, n))
  | inr (more, n) ↦
      let q : b ∷ more ≡ bs = some-injective (b ∷ more) bs (ground (arith, n)) in
      let (us, vs, w, x, r) = write-append a cs more n (ground (arith, h, ap length q)) in
      (
        entry b ∷ us,
        entry b ∷ vs,
        ap (λ y. write (length y) (entry a) (entry b ∷ cs)) (sym q) ∙ rw (write, w) refl,
        ap (λ y. write (suc (length y)) null (entry b ∷ us)) (sym q) ∙ rw (write, x) refl,
        rw r (ap (λ y. some (y ++ a ∷ [])) q),
      )
]

-- A write within the block.
pub write_within :
    (i : ℕ) (x : Cell) (cs : List Cell)
    → i < length cs
    → (us : List Cell) × (write i x cs ≡ some us)
unfolding write
write_within i x [] h = absurd (omega (arith, h))
write_within zero x (c ∷ cs) h = (x ∷ cs, refl)
write_within (suc i) x (c ∷ cs) h =
    let (us, w) = write_within i x cs (omega (arith, h)) in (c ∷ us, rw (write, w) refl)
