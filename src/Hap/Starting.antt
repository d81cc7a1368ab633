-- ===== src/Hap/Starting.antt =====
-- `lhap_init`, `lhap_deinit`, `lhap_start` and `lhap_stop` of bridge/src/lhaplib.c in all their cases.
use mathlib.Core.Path.{subst}
use homekit_bridge.Base.{
  ℕ, ◌+◌, ◌≡◌, ◌≢◌, inl, inr, refl, ap, sym, ◌∙◌, Bool, true, false, not, ◌&&◌, Option, none, some,
  List, [], ◌∷◌, ◌==◌, arith, Bool-cases, Option-cases,
}
use homekit_bridge.Base.Bytes.{Bytes, same}
use homekit_bridge.Base.Outcome.{ok}
use homekit_bridge.Lc.{Kv, Key, lookup_kv_by_name, take_pair, traverse_table}
use homekit_bridge.Hap.{
  Service, Accessory, Hooks, Desc, done, raises, Parsed, server_callbacks_kvs, first_desc, init,
  accessories, deinit, no_flags,
}
use homekit_bridge.Hap.Server.{
  Counts, count_characteristics, count_services, count_attr, count_accessories, stop,
}
use homekit_bridge.Hap.Valid.{contents, Valid}
use homekit_bridge.Hap.Actions.{AllListed, Complete, AllComplete, AllNamed, Safe}

module _ {V A : Type 0} where
  lookup_named :
      (kvs : List (Kv V A)) (key : Option Bytes)
      → key ≢ none
      → (r : Option (Kv V A)) × (lookup_kv_by_name kvs key ≡ ok r)
  unfolding lookup_kv_by_name
  lookup_named kvs none n = absurd (n refl)
  lookup_named [] (some k) n = (none, refl)
  lookup_named (kv ∷ kvs) (some k) n = elim (Bool-cases (same kv.key k)) [
    | inl q ↦ (some kv, rw (lookup_kv_by_name, q) refl)
    | inr q ↦ let (r, e) = lookup_named kvs (some k) n in (r, rw (lookup_kv_by_name, q, e) refl)
  ]

  -- A table whose keys have texts is traversed to some end.
  traverse_named :
      (lua_type : V → ℕ) (kvs : List (Kv V A)) (pairs : List (Key × V)) (a : A)
      → AllNamed pairs
      → (r : A × Bool) × (traverse_table lua_type kvs pairs a ≡ ok r)
  unfolding traverse_table
  traverse_named lua_type kvs [] a n = ((a, true), refl)
  traverse_named lua_type kvs ((k, v) ∷ pairs) a n =
      let (kv, e) = lookup_named kvs k.text n.0 in
      let t = take_pair lua_type kv v a in
      let (r, f) = traverse_named lua_type kvs pairs t.0 n.1 in
      elim (Bool-cases t.1) [
        | inl q ↦ (r, rw (traverse_table, e, q, f) refl)
        | inr q ↦ ((t.0, false), rw (traverse_table, e, q) refl)
      ]

module _ (d : Desc) (v : Valid d) where
  idle-Valid :
      (n : ℕ) (h : Hooks)
      → d.inited ≡ false
      → Valid (record d { inited = false; attribute_cnt = n; primary_acc = none; server_cbs = h })
  idle-Valid n h i = record {
    primary = λ q. absurd (ground (arith, q));
    before = λ q. v.before i;
    started = λ q. absurd (ground (arith, i, v.started q));
    bridged =
        let (bs, h) = v.bridged in (bs, record { held = h.held; count = h.count; room = h.room });
  }

  inited-Valid :
      (n : ℕ) (h : Hooks) (a : Accessory)
      → a.aid ≡ 1
      → Valid (record d { inited = true; attribute_cnt = n; primary_acc = some a; server_cbs = h })
  inited-Valid n h a e = record {
    primary = λ q. (a, refl, e);
    before = λ q. absurd (ground (arith, q));
    started = λ q. refl;
    bridged =
        let (bs, h) = v.bridged in (bs, record { held = h.held; count = h.count; room = h.room });
  }

  module _ {V : Type 0} (lua_type : V → ℕ) where
    init_parsed-Safe :
        (n : ℕ) (o : Option Accessory) (callbacks : List (Key × V))
        → d.inited ≡ false
        → AllNamed callbacks
        → Safe (
            init lua_type true
              (record { counted = n; null_key = false; accessory = o })
              callbacks
              d)
    unfolding init
    init_parsed-Safe n none callbacks i c =
        rw (Safe, i) (idle-Valid (d.attribute_cnt + n) d.server_cbs i)
    init_parsed-Safe n (some a) callbacks i c = elim (Bool-cases (a.aid == 1)) [
      | inr q ↦ rw (Safe, i, q) (idle-Valid (d.attribute_cnt + n) d.server_cbs i)
      | inl q ↦
          let ((h, b), e) = traverse_named lua_type server_callbacks_kvs callbacks d.server_cbs c in
          elim (Bool-cases b) [
            | inl f ↦
                rw (Safe, e, i, q, f) (inited-Valid (d.attribute_cnt + n) h a (ground (arith, q)))
            | inr f ↦
                rw (Safe, e, i, q, f)
                  (idle-Valid (d.attribute_cnt + n) (record h { registry = no_flags }) i)
          ]
    ]

    init_again :
        (allocates : Bool) (p : Parsed) (callbacks : List (Key × V))
        → d.inited ≡ true
        → init lua_type allocates p callbacks d ≡ raises d
    unfolding init
    init_again allocates p callbacks i = rw (init, i) refl

    pub init-Safe :
        (allocates : Bool) (p : Parsed) (callbacks : List (Key × V))
        → p.null_key ≡ false
        → AllNamed callbacks
        → Safe (init lua_type allocates p callbacks d)
    unfolding init
    init-Safe allocates p callbacks k c = elim (Bool-cases d.inited) [
      | inl i ↦ rw (init_again allocates p callbacks i) v
      | inr i ↦ elim (Bool-cases allocates) [
        | inl b ↦ rw b (
            subst (λ e. Safe (init lua_type true (record p { null_key = e }) callbacks d)) (sym k)
              (init_parsed-Safe p.counted p.accessory callbacks i c))
        | inr b ↦ rw (Safe, i, b) (idle-Valid d.attribute_cnt d.server_cbs i)
      ]
    ]

  deinit_early : (d.inited && not d.is_started) ≡ false → deinit d ≡ raises d
  unfolding deinit
  deinit_early q = elim (Bool-cases d.inited) [
    | inl i ↦ let s : d.is_started ≡ true = ground (arith, q, i) in rw (deinit, i, s) refl
    | inr i ↦ rw (deinit, i) refl
  ]

  -- What `lhap_deinit` leaves.
  pub deinit_ready :
      d.inited ≡ true
      → d.is_started ≡ false
      → deinit d ≡ done (record first_desc { bridged_aid = 1 })
  unfolding deinit
  deinit_ready i s = elim (Option-cases d.bridged_accs) [
    | inl n ↦ rw (deinit, i, s, n) refl
    | inr (cs, n) ↦
        let (bs, h) = v.bridged in
        let e : accessories cs ≡ some bs = sym (ap contents n) ∙ h.held in
        rw (deinit, i, s, n, e) refl
  ]

  pub deinit-Safe : Safe (deinit d)
  deinit-Safe = elim (Bool-cases (d.inited && not d.is_started)) [
    | inr q ↦ rw (deinit_early q) v
    | inl q ↦ rw (deinit_ready (ground (arith, q)) (ground (arith, q))) (record {
      primary = λ i. absurd (ground (arith, i));
      before = λ _. refl;
      started = λ s. absurd (ground (arith, s));
      bridged = ([], record { held = refl; count = refl; room = refl });
    })
  ]

  stop_early : d.is_started ≡ false → stop d ≡ raises d
  unfolding stop
  stop_early s = rw (stop, s) refl

  stop_started : d.is_started ≡ true → stop d ≡ done (record d { is_started = false })
  unfolding stop
  stop_started s = rw (stop, s) refl

  pub stop-Safe : Safe (stop d)
  stop-Safe = elim (Bool-cases d.is_started) [
    | inr s ↦ rw (stop_early s) v
    | inl s ↦ rw (stop_started s) (record {
      primary = v.primary;
      before = v.before;
      started = λ q. absurd (ground (arith, q));
      bridged =
          let (bs, h) = v.bridged in (bs, record { held = h.held; count = h.count; room = h.room });
    })
  ]

-- The counting needs services and characteristics.
count_listed :
    (ss : List Service) (n : Counts) → AllListed ss → (m : Counts) × (count_services ss n ≡ done m)
unfolding count_services
count_listed [] n c = (n, refl)
count_listed (s ∷ ss) n c = elim (Option-cases s.characteristics) [
  | inl e ↦ absurd (c.0 e)
  | inr (cs, e) ↦
      let (m, f) = count_listed ss (count_characteristics cs n) c.1 in
      (m, rw (count_services, e, f) refl)
]

pub count-Complete :
    (a : Accessory) (n : Counts) → Complete a → (m : Counts) × (count_attr a n ≡ done m)
unfolding count_attr
count-Complete a n (ss, e, c) = let (m, f) = count_listed ss n c in (m, rw (count_attr, e, f) refl)

pub count_all :
    (bs : List Accessory) (n : Counts)
    → AllComplete bs
    → (m : Counts) × (count_accessories bs n ≡ done m)
unfolding count_accessories
count_all [] n c = (n, refl)
count_all (a ∷ more) n c =
    let (m, e) = count-Complete a n c.0 in
    let (k, f) = count_all more m c.1 in (k, rw (count_accessories, e, f) refl)
