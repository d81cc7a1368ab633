-- ===== src/Hap/Adding.antt =====
-- `lhap_add_bridged_accessory` of bridge/src/lhaplib.c in all its cases.
use mathlib.Core.Option.{some-injective}
use mathlib.Core.Path.{subst}
use homekit_bridge.Base.{
  ℕ, ◌+◌, ◌≡◌, inl, inr, refl, ap, sym, ◌∙◌, Bool, true, false, not, ◌&&◌, Option, none, some, List,
  ◌==◌, arith, Bool-cases,
}
use homekit_bridge.Hap.{
  Accessory, Cell, Desc, done, raises, Parsed, accessories, grow, add_bridged_accessory,
}
use homekit_bridge.Hap.Valid.{Holds, Valid}
use homekit_bridge.Hap.Room.{with_array, grow_lem}
use homekit_bridge.Hap.Bridged.{add_appends}
use homekit_bridge.Hap.Actions.{Safe}

-- The descriptor with a larger array and with more attributes.
with_array-Valid :
    (d : Desc) (n : ℕ) (cs : List Cell) (bs : List Accessory)
    → Valid d
    → d.inited ≡ true
    → Holds bs d
    → accessories cs ≡ some bs
    → Valid (record (with_array cs d) { attribute_cnt = n })
with_array-Valid d n cs bs v i h r = record {
  primary = v.primary;
  before = λ q. absurd (ground (arith, i, q));
  started = v.started;
  bridged = (bs, record { held = r; count = h.count; room = refl });
}

module _ (is_valid : Accessory → Bool) (d : Desc) (v : Valid d) where
  add_early :
      (b allocates : Bool) (p : Parsed)
      → (d.inited && not d.is_started) ≡ false
      → add_bridged_accessory is_valid b allocates p d ≡ raises d
  unfolding add_bridged_accessory
  add_early b allocates p q = elim (Bool-cases d.inited) [
    | inl i ↦
        let s : d.is_started ≡ true = ground (arith, q, i) in rw (add_bridged_accessory, i, s) refl
    | inr i ↦ rw (add_bridged_accessory, i) refl
  ]

  -- Where no accessory is added after the array was looked at.
  add_fails :
      (allocates : Bool) (n : ℕ) (o : Option Accessory) (cs : List Cell)
      → d.inited ≡ true
      → d.is_started ≡ false
      → grow true d ≡ done (with_array cs d)
      → ((a : Accessory) → o ≡ some a → (allocates && is_valid a) ≡ false)
      → (m : ℕ) × (add_bridged_accessory is_valid true allocates
            (record { counted = n; null_key = false; accessory = o })
            d
          ≡ raises (record (with_array cs d) { attribute_cnt = m }))
  unfolding add_bridged_accessory
  add_fails false n o cs i s g f = (d.attribute_cnt, rw (add_bridged_accessory, g, i, s) refl)
  add_fails true n none cs i s g f = (d.attribute_cnt + n, rw (add_bridged_accessory, g, i, s) refl)
  add_fails true n (some a) cs i s g f =
      (d.attribute_cnt + n, rw (add_bridged_accessory, g, i, s, f a refl) refl)

  add_failed-Safe :
      (allocates : Bool) (n : ℕ) (o : Option Accessory)
      → d.inited ≡ true
      → d.is_started ≡ false
      → ((a : Accessory) → o ≡ some a → (allocates && is_valid a) ≡ false)
      → Safe (
          add_bridged_accessory is_valid true allocates
            (record { counted = n; null_key = false; accessory = o })
            d)
  add_failed-Safe allocates n o i s f =
      let (bs, h) = v.bridged in
      let (cs, g, r, _) = grow_lem d bs h in
      let (m, e) = add_fails allocates n o cs i s g f in rw e (with_array-Valid d m cs bs v i h r)

  add_checked-Safe :
      (allocates : Bool) (n : ℕ) (o : Option Accessory)
      → d.inited ≡ true
      → d.is_started ≡ false
      → (d.bridged_accs_cnt == 1 && d.bridged_accs_max == 2) ≡ false
      → Safe (
          add_bridged_accessory is_valid true allocates
            (record { counted = n; null_key = false; accessory = o })
            d)
  add_checked-Safe false n o i s q = add_failed-Safe false n o i s (λ a e. refl)
  add_checked-Safe true n none i s q =
      add_failed-Safe true n none i s (λ a e. absurd (ground (arith, e)))
  add_checked-Safe true n (some a) i s q = elim (Bool-cases (is_valid a)) [
    | inl f ↦
        let (bs, h) = v.bridged in
        let (e, g, w, _, _, _, _) = add_appends is_valid n a d bs f i s h v q in rw g w
    | inr f ↦
        add_failed-Safe true n (some a) i s (λ b e. ap is_valid (sym (some-injective a b e)) ∙ f)
  ]

  pub add_bridged_accessory-Safe :
      (allocates : Bool) (p : Parsed)
      → p.null_key ≡ false
      → (d.bridged_accs_cnt == 1 && d.bridged_accs_max == 2) ≡ false
      → Safe (add_bridged_accessory is_valid true allocates p d)
  add_bridged_accessory-Safe allocates p k q = elim (Bool-cases (d.inited && not d.is_started)) [
    | inl c ↦
        subst
          (λ b. Safe (add_bridged_accessory is_valid true allocates (record p { null_key = b }) d))
          (sym k)
          (add_checked-Safe allocates p.counted p.accessory (ground (arith, c)) (ground (arith, c))
            q)
    | inr c ↦ rw (add_early true allocates p c) v
  ]
