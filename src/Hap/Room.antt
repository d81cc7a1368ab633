-- ===== src/Hap/Room.antt =====
-- The room of the array of bridged accessories in bridge/src/lhaplib.c.
use mathlib.Core.Option.{some-injective}
use homekit_bridge.Base.{
  ℕ, zero, suc, ◌+◌, ◌*◌, ◌<◌, ◌≡◌, inl, inr, refl, ap, ap₂, sym, ◌∙◌, true, false, Option, none,
  some, List, [], ◌∷◌, ◌++◌, ◌==◌, if◌then◌else◌, arith, Bool-cases, Option-cases, length,
}
use homekit_bridge.Hap.{
  Accessory, Cell, unset, null, entry, Desc, done, wrong, accessories, write, resize, cells,
  is_full, grow, append,
}
use homekit_bridge.Hap.Memory.{
  length-resize, length-write, write_beyond, accessories-resize, write-end, write-append,
  write_within,
}
use homekit_bridge.Hap.Valid.{contents, Holds}

-- The room after the array was enlarged where that is needed.
abbrev pub grown : Desc → ℕ
grown d =
    if is_full d
    then (if d.bridged_accs_cnt == 0 then 2 else d.bridged_accs_cnt * 2)
    else d.bridged_accs_max

abbrev pub with_array : List Cell → Desc → Desc
with_array cs d = record d { bridged_accs_max = length cs; bridged_accs = some cs }

-- The block for more accessories.
resized :
    (o : Option (List Cell)) (bs : List Accessory) (n : ℕ)
    → contents o ≡ some bs
    → length bs < n
    → (us : List Cell) × (write (length bs) null (resize n (cells o)) ≡ some us)
      × (accessories us ≡ some bs)
      × (length us ≡ n)
unfolding write accessories resize
resized none bs zero h l = absurd (omega (arith, l))
resized none bs (suc n) h l =
    let q : [] ≡ bs = some-injective [] bs h in
    (
      null ∷ resize n [],
      ap (λ x. write (length x) null (unset ∷ resize n [])) (sym q),
      h,
      ap suc (length-resize n []),
    )
resized (some cs) bs n h l =
    let e = accessories-resize n cs bs h l in
    let (us, w, r) = write-end (resize n cs) bs e in
    (us, w, r, length-write (length bs) null (resize n cs) us w ∙ length-resize n cs)

grow_full :
    (d : Desc) (cs : List Cell)
    → is_full d ≡ true
    → write d.bridged_accs_cnt null (resize (grown d) (cells d.bridged_accs)) ≡ some cs
    → length cs ≡ grown d
    → grow true d ≡ done (with_array cs d)
unfolding grow
grow_full d cs f w l =
    let n = if d.bridged_accs_cnt == 0 then 2 else d.bridged_accs_cnt * 2 in
    let g : grown d ≡ n = rw f refl in
    let w' : write d.bridged_accs_cnt null (resize n (cells d.bridged_accs)) ≡ some cs =
      ap (λ k. write d.bridged_accs_cnt null (resize k (cells d.bridged_accs))) (sym g) ∙ w in
    let r : grow true d ≡ done (record d { bridged_accs_max = n; bridged_accs = some cs }) =
      rw (grow, f, w') refl in
    r ∙ ap (λ m. done (record d { bridged_accs_max = m; bridged_accs = some cs })) (sym (l ∙ g))

grow_rest : (d : Desc) → is_full d ≡ false → grow true d ≡ done d
unfolding grow
grow_rest d f = rw (grow, f) refl

-- Where there is no array, there is no room.
pub room-none :
    (d : Desc) (bs : List Accessory) → Holds bs d → d.bridged_accs ≡ none → is_full d ≡ true
room-none d bs h n =
    let c : [] ≡ bs = some-injective [] bs (sym (ap contents n) ∙ h.held) in
    let m : d.bridged_accs_max ≡ 0 = h.room ∙ ap (λ o. length (cells o)) n in
    let k : d.bridged_accs_cnt ≡ 0 = h.count ∙ sym (ap length c) in rw (m, k) refl

pub grow_lem :
    (d : Desc) (bs : List Accessory)
    → Holds bs d
    → (cs : List Cell) × (grow true d ≡ done (with_array cs d))
      × (accessories cs ≡ some bs)
      × (length cs ≡ grown d)
grow_lem d bs h = elim (Bool-cases (is_full d)) [
  | inl f ↦
      let b : length bs < grown d = ground (arith, h.count, f) in
      let (cs, w, r, l) = resized d.bridged_accs bs (grown d) h.held b in
      let w' : write d.bridged_accs_cnt null (resize (grown d) (cells d.bridged_accs)) ≡ some cs =
        ap (λ i. write i null (resize (grown d) (cells d.bridged_accs))) h.count ∙ w in
      (cs, grow_full d cs f w' l, r, l)
  | inr f ↦ elim (Option-cases d.bridged_accs) [
    | inl n ↦ absurd (ground (arith, f, room-none d bs h n))
    | inr (cs, e) ↦
        let l : d.bridged_accs_max ≡ length cs = h.room ∙ ap (λ o. length (cells o)) e in
        (
          cs,
          grow_rest d f
              ∙ ap₂ (λ m o. done (record d { bridged_accs_max = m; bridged_accs = o })) l e,
          sym (ap contents e) ∙ h.held,
          sym l ∙ rw f refl,
        )
  ]
]

abbrev pub added : Desc → List Cell → Desc
added d vs = record d { bridged_accs_cnt = d.bridged_accs_cnt + 1; bridged_accs = some vs }

-- An accessory gets its place where there is room for the null pointer behind it, and otherwise the
-- null pointer is written behind the block.
pub append_room :
    (a : Accessory) (d : Desc) (cs : List Cell) (bs : List Accessory)
    → d.bridged_accs ≡ some cs
    → accessories cs ≡ some bs
    → d.bridged_accs_cnt ≡ length bs
    → suc (length bs) < length cs
    → (vs : List Cell) × (append a d ≡ done (added d vs))
      × (accessories vs ≡ some (bs ++ a ∷ []))
      × (length vs ≡ length cs)
unfolding append
append_room a d cs bs e h c l =
    let (us, vs, w, x, r) = write-append a cs bs h l in
    let w' : write d.bridged_accs_cnt (entry a) cs ≡ some us =
      ap (λ i. write i (entry a) cs) c ∙ w in
    let x' : write (d.bridged_accs_cnt + 1) null us ≡ some vs =
      ap (λ i. write i null us) (omega (arith, c)) ∙ x in
    (
      vs,
      rw (append, e, w', x') refl,
      r,
      length-write (suc (length bs)) null us vs x ∙ length-write (length bs) (entry a) cs us w,
    )

pub append_beyond :
    (a : Accessory) (d : Desc) (cs : List Cell)
    → d.bridged_accs ≡ some cs
    → length cs ≡ d.bridged_accs_cnt + 1
    → append a d ≡ wrong
unfolding append
append_beyond a d cs e l =
    let (us, w) = write_within d.bridged_accs_cnt (entry a) cs (omega (arith, l)) in
    let x =
      write_beyond (d.bridged_accs_cnt + 1) null us
        (omega (arith, length-write d.bridged_accs_cnt (entry a) cs us w, l)) in
    rw (append, e, w, x) refl
