-- ===== src/Hap/Bridged.antt =====
-- `lhap_add_bridged_accessory` of bridge/src/lhaplib.c.
use mathlib.Core.Option.{some-injective}
use homekit_bridge.Base.{
  ℕ, suc, ◌+◌, ◌<◌, ◌≡◌, inl, inr, refl, ap, sym, ◌∙◌, Bool, true, false, ◌&&◌, none, some, List,
  [], ◌∷◌, ◌++◌, ◌==◌, arith, Option-cases, length, length-append,
}
use homekit_bridge.Hap.{
  Accessory, Cell, Desc, done, wrong, Parsed, accessories, cells, grow, append,
  add_bridged_accessory, ◌>>=◌,
}
use homekit_bridge.Hap.Memory.{accessories_less}
use homekit_bridge.Hap.Valid.{contents, Holds, Valid}
use homekit_bridge.Hap.Room.{
  with_array, grown, grow_lem, room-none, added, append_room, append_beyond,
}

-- There is room for the null pointer behind the accessories that there are.
Holds-fits :
    (d : Desc) (bs : List Accessory)
    → Holds bs d
    → (d.bridged_accs_cnt == 0) ≡ false
    → d.bridged_accs_cnt < d.bridged_accs_max
Holds-fits d bs h z = elim (Option-cases d.bridged_accs) [
  | inl n ↦
      let c : [] ≡ bs = some-injective [] bs (sym (ap contents n) ∙ h.held) in
      absurd (ground (arith, z, h.count, ap length c))
  | inr (cs, e) ↦
      let l : d.bridged_accs_max ≡ length cs = h.room ∙ ap (λ o. length (cells o)) e in
      let m = accessories_less cs bs (sym (ap contents e) ∙ h.held) in omega (arith, l, m, h.count)
]

module _ (is_valid : Accessory → Bool) (n : ℕ) (a : Accessory) (d : Desc) (bs : List Accessory)
    (fine : is_valid a ≡ true) (inited : d.inited ≡ true) (stopped : d.is_started ≡ false)
    (h : Holds bs d) where
  table : Parsed
  table = record { counted = n; null_key = false; accessory = some a }

  -- The descriptor before the accessory gets its place.
  before : List Cell → Desc
  before cs = record (with_array cs d) { attribute_cnt = d.attribute_cnt + n }

  add_as_append :
      (cs : List Cell)
      → grow true d ≡ done (with_array cs d)
      → add_bridged_accessory is_valid true true table d ≡ append a (before cs)
  unfolding add_bridged_accessory before table
  add_as_append cs g = rw (add_bridged_accessory, g, inited, stopped, fine) refl

  roomy : (d.bridged_accs_cnt == 1 && d.bridged_accs_max == 2) ≡ false → suc (length bs) < grown d
  roomy q = let f = Holds-fits d bs h in ground (arith, q, f, h.count)

  add_room :
      (d.bridged_accs_cnt == 1 && d.bridged_accs_max == 2) ≡ false
      → (cs : List Cell) × (vs : List Cell) × (add_bridged_accessory is_valid true true table d
          ≡ done (added (before cs) vs))
        × (accessories vs ≡ some (bs ++ a ∷ []))
        × (length vs ≡ length cs)
        × (length cs ≡ grown d)
  unfolding before
  add_room q =
      let (cs, g, r, l) = grow_lem d bs h in
      let (vs, e, t, k) =
        append_room a (before cs) cs bs refl r h.count (omega (arith, l, roomy q)) in
      (cs, vs, add_as_append cs g ∙ e, t, k, l)

  -- Where the room is not that of two cells with one accessory, the accessory comes behind the
  -- others, and the descriptor stays as it has to be.
  pub add_appends :
      Valid d
      → (d.bridged_accs_cnt == 1 && d.bridged_accs_max == 2) ≡ false
      → (e : Desc) × (add_bridged_accessory is_valid true true
            (record { counted = n; null_key = false; accessory = some a })
            d
          ≡ done e)
        × Valid e
        × Holds (bs ++ a ∷ []) e
        × (e.bridged_accs_max ≡ grown d)
        × (e.inited ≡ true)
        × (e.is_started ≡ false)
  unfolding before table
  add_appends v q =
      let (cs, vs, e, t, k, l) = add_room q in
      let w : Holds (bs ++ a ∷ []) (added (before cs) vs) = record {
        held = t;
        count = omega (arith, h.count, length-append bs (a ∷ []));
        room = sym k;
      } in
      (
        added (before cs) vs,
        e,
        record {
          primary = v.primary;
          before = λ i. absurd (ground (arith, i, inited));
          started = v.started;
          bridged = (bs ++ a ∷ [], w);
        },
        w,
        l,
        inited,
        stopped,
      )

  pub add_beyond :
      d.bridged_accs_cnt ≡ 1
      → d.bridged_accs_max ≡ 2
      → add_bridged_accessory is_valid true true
          (record { counted = n; null_key = false; accessory = some a })
          d
        ≡ wrong
  unfolding before table
  add_beyond c m =
      let (cs, g, r, l) = grow_lem d bs h in
      let k : grown d ≡ 2 = rw (c, m) refl in
      add_as_append cs g ∙ append_beyond a (before cs) cs refl (omega (arith, l, k, c))

-- A second bridged accessory is written behind the array: after a descriptor without bridged
-- accessories was given one, for which there is memory, a second one ends in a write to the cell
-- behind the block, whatever the two accessories are.
pub second_overruns :
    (is_valid : Accessory → Bool) (n m : ℕ) (a b : Accessory) (d : Desc)
    → is_valid a ≡ true
    → is_valid b ≡ true
    → d.inited ≡ true
    → d.is_started ≡ false
    → Valid d
    → d.bridged_accs ≡ none
    → (add_bridged_accessory is_valid true true
          (record { counted = n; null_key = false; accessory = some a })
          d
        >>= add_bridged_accessory is_valid true true
            (record { counted = m; null_key = false; accessory = some b }))
      ≡ wrong
second_overruns is_valid n m a b d fa fb i s v o =
    let (bs, h) = v.bridged in
    let c : [] ≡ bs = some-injective [] bs (sym (ap contents o) ∙ h.held) in
    let f = room-none d bs h o in
    let k : d.bridged_accs_cnt ≡ 0 = h.count ∙ sym (ap length c) in
    let (e, g, _, w, l, i', s') = add_appends is_valid n a d bs fa i s h v (rw k refl) in
    let cnt : e.bridged_accs_cnt ≡ 1 = w.count ∙ ap (λ x. length (x ++ a ∷ [])) (sym c) in
    let max : e.bridged_accs_max ≡ 2 = l ∙ rw (f, k) refl in
    rw g (add_beyond is_valid m b e (bs ++ a ∷ []) fb i' s' w cnt max)
