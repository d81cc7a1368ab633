-- ===== src/Hap/Serving.antt =====
-- `lhap_start` of bridge/src/lhaplib.c in all its cases.
use mathlib.Core.Option.{some-injective}
use homekit_bridge.Base.{
  ℕ, ◌+◌, ◌≡◌, ◌⊎◌, inl, inr, refl, ap, sym, ◌∙◌, Bool, true, false, not, ◌&&◌, Option, none, some,
  List, [], arith, Bool-cases, Option-cases, length,
}
use homekit_bridge.Hap.{
  Accessory, Cell, Desc, done, raises, accessories, cells, bridged, resize, is_full,
}
use homekit_bridge.Hap.Server.{Counts, count_attr, count_accessories, list_of, shrink, start}
use homekit_bridge.Hap.Memory.{accessories-resize, length-resize}
use homekit_bridge.Hap.Valid.{contents, Holds, Valid}
use homekit_bridge.Hap.Actions.{started, Complete, AllComplete, Safe}
use homekit_bridge.Hap.Starting.{count-Complete, count_all}

abbrev with_room : Option (List Cell) → ℕ → Desc → Desc
with_room o m d = record d { bridged_accs = o; bridged_accs_max = m }

shrink-none : (allocates : Bool) (d : Desc) → d.bridged_accs ≡ none → shrink allocates d ≡ done d
unfolding shrink
shrink-none allocates d n = simp (shrink, n)

shrink_full :
    (allocates : Bool) (d : Desc) (cs : List Cell)
    → d.bridged_accs ≡ some cs
    → is_full d ≡ true
    → shrink allocates d ≡ done d
unfolding shrink
shrink_full allocates d cs n f = simp (shrink, n, f)

-- What the array gives up is not in use.
shrink_cases :
    (allocates : Bool) (d : Desc) (bs : List Accessory)
    → Holds bs d
    → (shrink allocates d ≡ raises d)
      ⊎ ((o : Option (List Cell)) × (m : ℕ) × (shrink allocates d ≡ done (with_room o m d))
          × (contents o ≡ some bs)
          × (m ≡ length (cells o)))
unfolding shrink
shrink_cases allocates d bs h = elim (Option-cases d.bridged_accs) [
  | inl n ↦ inr (d.bridged_accs, d.bridged_accs_max, shrink-none allocates d n, h.held, h.room)
  | inr (cs, n) ↦
      let e : accessories cs ≡ some bs = sym (ap contents n) ∙ h.held in
      elim (Bool-cases (is_full d)) [
        | inl f ↦
            inr (d.bridged_accs, d.bridged_accs_max, shrink_full allocates d cs n f, h.held, h.room)
        | inr f ↦ elim (Bool-cases allocates) [
          | inr b ↦ inl (simp (shrink, n, f, b))
          | inl b ↦ inr (
            some (resize (d.bridged_accs_cnt + 1) cs),
            d.bridged_accs_cnt + 1,
            simp (shrink, n, f, b),
            accessories-resize (d.bridged_accs_cnt + 1) cs bs e (omega (arith, h.count)),
            sym (length-resize (d.bridged_accs_cnt + 1) cs),
          )
        ]
      ]
]

bridged_listed :
    (d : Desc) (bs : List Accessory)
    → contents d.bridged_accs ≡ some bs
    → (o : Option (List Accessory)) × (bridged d ≡ done o) × (list_of o ≡ bs)
bridged_listed d bs h = elim (Option-cases d.bridged_accs) [
  | inl n ↦ (none, rw (bridged, n) refl, some-injective [] bs (sym (ap contents n) ∙ h))
  | inr (cs, n) ↦
      let e : accessories cs ≡ some bs = sym (ap contents n) ∙ h in
      (some bs, rw (bridged, n, e) refl, refl)
]

module _ (allocates : Bool) (d : Desc) where
  start_early : (d.inited && not d.is_started) ≡ false → started (start allocates d) ≡ raises d
  unfolding start
  start_early q = elim (Bool-cases d.inited) [
    | inl i ↦ let s : d.is_started ≡ true = ground (arith, q, i) in rw (start, i, s) refl
    | inr i ↦ rw (start, i) refl
  ]

  start_refused :
      d.inited ≡ true
      → d.is_started ≡ false
      → shrink allocates d ≡ raises d
      → started (start allocates d) ≡ raises d
  unfolding start
  start_refused i s e = rw (start, e, i, s) refl

  start_ready :
      (g : Desc) (p : Accessory) (n m : Counts) (o : Option (List Accessory))
      → d.inited ≡ true
      → d.is_started ≡ false
      → shrink allocates d ≡ done g
      → g.primary_acc ≡ some p
      → count_attr p (record { readable = 0; writable = 0; notify = 0 }) ≡ done n
      → bridged g ≡ done o
      → count_accessories (list_of o) n ≡ done m
      → started (start allocates d) ≡ done (record g { is_started = true })
  unfolding start
  start_ready g p n m o i s e f c b k = rw (start, e, i, s, b, f, c, k) refl

  pub start-Safe :
      Valid d
      → ((p : Accessory) → d.primary_acc ≡ some p → Complete p)
      → ((bs : List Accessory) → contents d.bridged_accs ≡ some bs → AllComplete bs)
      → Safe (started (start allocates d))
  start-Safe v cp cb = elim (Bool-cases (d.inited && not d.is_started)) [
    | inr q ↦ rw (start_early q) v
    | inl q ↦
        let i : d.inited ≡ true = ground (arith, q) in
        let s : d.is_started ≡ false = ground (arith, q) in
        let (bs, h) = v.bridged in
        let (p, f, a) = v.primary i in
        elim (shrink_cases allocates d bs h) [
          | inl e ↦ rw (start_refused i s e) v
          | inr (o, m, e, c, r) ↦
              let g = with_room o m d in
              let (n, k) =
                count-Complete p (record { readable = 0; writable = 0; notify = 0 }) (cp p f) in
              let (l, b, t) = bridged_listed g bs c in
              let (x, y) = count_all bs n (cb bs h.held) in
              let y' : count_accessories (list_of l) n ≡ done x =
                ap (λ z. count_accessories z n) t ∙ y in
              rw (start_ready g p n x l i s e f k b y') (record {
                primary = v.primary;
                before = λ z. absurd (ground (arith, i, z));
                started = λ z. i;
                bridged = (bs, record { held = c; count = h.count; room = r });
              })
        ]
  ]
