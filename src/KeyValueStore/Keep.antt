-- ===== src/KeyValueStore/Keep.antt =====
-- The domains and keys of HAPPlatformKeyValueStore.c as a map.
use mathlib.Core.Path.{fun_ext}
use homekit_bridge.Base.{
  ℕ, ◌≤◌, ◌<◌, ◌≡◌, ◌≢◌, inl, inr, refl, ap, sym, ◌∙◌, true, ◌&&◌, Option, none, some, List, [],
  ◌∷◌, ◌==◌, if◌then◌else◌, length, arith, Bool-cases, Option-cases,
}
use homekit_bridge.Base.Bytes.{Bytes, same, same_iff, same_self}
use homekit_bridge.KeyValueStore.{
  Kvs, Library, Erased, erased, not_found, failed, hex2, name_space, get, set, remove, purge_domain,
}
use homekit_bridge.KeyValueStore.Names.{hex2_inj, name_space_inj}
use homekit_bridge.KeyValueStore.Documented.{
  Contents, with_blob, without_namespace, fitted, Documented,
}
use homekit_bridge.KeyValueStore.Ops.{
  Op, setting, removing, purging, Values, change, changes, IsByteOp, AllByteOps, perform, performs,
}

same-hex2 : (m n : ℕ) → m < 256 → n < 256 → same (hex2 m) (hex2 n) ≡ (m == n)
same-hex2 m n h k = elim (Bool-cases (m == n)) [
  | inl e ↦ rw e (ap (λ i. same (hex2 i) (hex2 n)) (ground (arith, e)) ∙ same_self (hex2 n))
  | inr e ↦ ground (arith, e, same_iff (hex2 m) (hex2 n), hex2_inj m n h k)
]

module _ {S H : Type 0} (lib : Library S H) (kvs : Kvs) (view : S → Contents)
    (part name : H → Bytes) (doc : Documented lib view part name)
    (short : length kvs.namespace_prefix ≤ 11) where
  -- The value of a domain and a key.
  abbrev pub value : S → Values
  value s c j = view s kvs.part_name (name_space kvs c) (hex2 j)

  same-name_space :
      (c d : ℕ) → c < 256 → d < 256 → same (name_space kvs c) (name_space kvs d) ≡ (c == d)
  same-name_space c d h k = elim (Bool-cases (c == d)) [
    | inl e ↦ rw e (
        ap (λ i. same (name_space kvs i) (name_space kvs d)) (ground (arith, e))
        ∙ same_self (name_space kvs d))
    | inr e ↦
        ground (
          arith,
          e,
          same_iff (name_space kvs c) (name_space kvs d),
          name_space_inj kvs c d short h k,
        )
  ]

  -- What a changed blob is in terms of domains and keys.
  value-with_blob :
      (d k c j : ℕ) (blob : Option Bytes) (s s' : S)
      → d < 256
      → k < 256
      → c < 256
      → j < 256
      → view s' ≡ with_blob kvs.part_name (name_space kvs d) (hex2 k) blob (view s)
      → value s' c j ≡ (if (d == c) && (k == j) then blob else value s c j)
  value-with_blob d k c j blob s s' hd hk hc hj e =
      ap (λ m. m kvs.part_name (name_space kvs c) (hex2 j)) e
      ∙ ground (arith, same_self kvs.part_name, same-name_space d c hd hc, same-hex2 k j hk hj)

  -- What the end of a call leaves, where a change was made through a handle that was opened.
  view-finish :
      (d : ℕ) (effect : Bytes → Bytes → Contents → Contents) (h : H) (s s1 s2 s' : S)
      → lib.open_from_partition kvs.part_name (name_space kvs d) s ≡ (s1, some h)
      → view s2 ≡ effect (part h) (name h) (view s1)
      → s' ≡ lib.close h (lib.commit h s2).0
      → view s' ≡ effect kvs.part_name (name_space kvs d) (view s)
  view-finish d effect h s s1 s2 s' o e f =
      let (p, n, v) = doc.opened kvs.part_name (name_space kvs d) s s1 h o in
      ap view f
      ∙ doc.closes h (lib.commit h s2).0
      ∙ doc.commits h s2
      ∙ e
      ∙ ap (λ q. effect q (name h) (view s1)) p
      ∙ ap (λ q. effect kvs.part_name q (view s1)) n
      ∙ ap (λ m. effect kvs.part_name (name_space kvs d) m) v

  -- A call that goes on has opened a handle.
  abbrev handle_of : ℕ → S → S × Option H
  handle_of d s = lib.open_from_partition kvs.part_name (name_space kvs d) s

  set-view :
      (d k : ℕ) (bytes : Bytes) (s s' : S)
      → set lib kvs d k bytes s ≡ (s', true)
      → view s' ≡ with_blob kvs.part_name (name_space kvs d) (hex2 k) (some bytes) (view s)
  unfolding set
  set-view d k bytes s s' e = elim (Option-cases (handle_of d s).1) [
    | inl n ↦ absurd (ground (arith, n, e))
    | inr (h, o) ↦
        let s1 : S = (handle_of d s).0 in
        elim (Bool-cases (lib.set_blob h (hex2 k) bytes s1).1) [
          | inr n ↦ absurd (ground (arith, n, o, e))
          | inl t ↦
              let s2 : S = (lib.set_blob h (hex2 k) bytes s1).0 in
              view-finish d (λ p n m. with_blob p n (hex2 k) (some bytes) m) h s s1 s2 s'
                (ap (λ x. (s1, x)) o) (doc.put h (hex2 k) bytes s1 s2 (ap (λ x. (s2, x)) t))
                (ground (arith, o, t, e))
        ]
  ]

  removed-view :
      (d k : ℕ) (s s1 : S) (h : H) (x : S × Erased)
      → handle_of d s ≡ (s1, some h)
      → lib.erase_key h (hex2 k) s1 ≡ x
      → x.1 ≢ failed
      → view x.0 ≡ with_blob (part h) (name h) (hex2 k) none (view s1)
  removed-view d k s s1 h (s2, erased) o e n = doc.erases h (hex2 k) s1 s2 e
  removed-view d k s s1 h (s2, failed) o e n = absurd (n refl)
  removed-view d k s s1 h (s2, not_found) o e n =
      let (v, m) = doc.misses h (hex2 k) s1 s2 e in
      v ∙ fun_ext λ p. fun_ext λ q. fun_ext λ j. missing p q j m
    where
      missing :
          (p q j : Bytes)
          → view s1 (part h) (name h) (hex2 k) ≡ none
          → view s1 p q j ≡ with_blob (part h) (name h) (hex2 k) none (view s1) p q j
      missing p q j m =
          elim (Bool-cases (same (part h) p && (same (name h) q && same (hex2 k) j))) [
            | inr n ↦ rw n refl
            | inl t ↦ rw t (
                ground (arith, t, m, same_iff (part h) p, same_iff (name h) q, same_iff (hex2 k) j))
          ]

  remove-view :
      (d k : ℕ) (s s' : S)
      → remove lib kvs d k s ≡ (s', true)
      → view s' ≡ with_blob kvs.part_name (name_space kvs d) (hex2 k) none (view s)
  unfolding remove
  remove-view d k s s' e = elim (Option-cases (handle_of d s).1) [
    | inl n ↦ absurd (ground (arith, n, e))
    | inr (h, o) ↦
        let s1 : S = (handle_of d s).0 in
        let x : S × Erased = lib.erase_key h (hex2 k) s1 in
        view-finish d (λ p n m. with_blob p n (hex2 k) none m) h s s1 x.0 s' (ap (λ y. (s1, y)) o)
          (removed-view d k s s1 h x (ap (λ y. (s1, y)) o) refl (λ f. ground (arith, f, o, e)))
          (ground (arith, o, e))
  ]

  purge-view :
      (d : ℕ) (s s' : S)
      → purge_domain lib kvs d s ≡ (s', true)
      → view s' ≡ without_namespace kvs.part_name (name_space kvs d) (view s)
  unfolding purge_domain
  purge-view d s s' e = elim (Option-cases (handle_of d s).1) [
    | inl n ↦ absurd (ground (arith, n, e))
    | inr (h, o) ↦
        let s1 : S = (handle_of d s).0 in
        elim (Bool-cases (lib.erase_all h s1).1) [
          | inr n ↦ absurd (ground (arith, n, o, e))
          | inl t ↦
              let s2 : S = (lib.erase_all h s1).0 in
              view-finish d (λ p n m. without_namespace p n m) h s s1 s2 s' (ap (λ x. (s1, x)) o)
                (doc.erases_all h s1 s2 (ap (λ x. (s2, x)) t)) (ground (arith, o, t, e))
        ]
  ]

  perform-value :
      (op : Op) (c j : ℕ) (s s' : S)
      → IsByteOp op
      → c < 256
      → j < 256
      → perform lib kvs op s ≡ (s', true)
      → value s' c j ≡ change op (value s) c j
  perform-value (setting d k bytes) c j s s' v hc hj e =
      value-with_blob d k c j (some bytes) s s' v.0 v.1 hc hj (set-view d k bytes s s' e)
  perform-value (removing d k) c j s s' v hc hj e =
      value-with_blob d k c j none s s' v.0 v.1 hc hj (remove-view d k s s' e)
  perform-value (purging d) c j s s' v hc hj e =
      ap (λ m. m kvs.part_name (name_space kvs c) (hex2 j)) (purge-view d s s' e)
      ∙ ground (arith, same_self kvs.part_name, same-name_space d c v hc)

  change-cong :
      (op : Op) (m n : Values) (c j : ℕ) → m c j ≡ n c j → change op m c j ≡ change op n c j
  change-cong (setting d k bytes) m n c j e = ground arith
  change-cong (removing d k) m n c j e = ground arith
  change-cong (purging d) m n c j e = ground arith

  changes-cong :
      (ops : List Op) (m n : Values) (c j : ℕ)
      → m c j ≡ n c j
      → changes ops m c j ≡ changes ops n c j
  changes-cong [] m n c j e = e
  changes-cong (op ∷ ops) m n c j e =
      changes-cong ops (change op m) (change op n) c j (change-cong op m n c j e)

  performs-value :
      (ops : List Op) (c j : ℕ) (s s' : S)
      → AllByteOps ops
      → c < 256
      → j < 256
      → performs lib kvs ops s ≡ (s', true)
      → value s' c j ≡ changes ops (value s) c j
  unfolding performs
  performs-value [] c j s s' v hc hj e = ground arith
  performs-value (op ∷ ops) c j s s' v hc hj e = elim (Bool-cases (perform lib kvs op s).1) [
    | inr n ↦ absurd (ground (arith, n, e))
    | inl t ↦
        let s1 : S = (perform lib kvs op s).0 in
        performs-value ops c j s1 s' v.1 hc hj (ground (arith, t, e))
        ∙ changes-cong ops (value s1) (change op (value s)) c j
            (perform-value op c j s s1 v.0 hc hj (ap (λ x. (s1, x)) t))
  ]

  -- Behind any sequence of sets, removals and purges that return no error, a get reads the value
  -- that a map from domains and keys to values holds after the same changes: what is set under a
  -- domain and a key is read there until it is set again, removed, or its domain is purged, and no
  -- call changes another domain or another key. The get opens its handle; its buffer has room for
  -- the value, or it finds nothing. Domains and keys are bytes, the prefix of the namespaces has at
  -- most 11 bytes, and the storage library does what is documented.
  pub get_reads :
      (ops : List Op) (c j : ℕ) (buffer : Option ℕ) (s s1 s2 : S) (r : Option Bytes)
      → AllByteOps ops
      → c < 256
      → j < 256
      → performs lib kvs ops s ≡ (s1, true)
      → get lib kvs c j buffer s1 ≡ (s2, some r)
      → (r ≡ fitted buffer (changes ops (value s) c j)) × (view s2 ≡ view s1)
  unfolding get
  get_reads ops c j buffer s s1 s2 r v hc hj e g = elim (Option-cases (handle_of c s1).1) [
    | inl n ↦ absurd (ground (arith, n, g))
    | inr (h, o) ↦
        let t : S = (handle_of c s1).0 in
        let (p, n, w) = doc.opened kvs.part_name (name_space kvs c) s1 t h (ap (λ x. (t, x)) o) in
        let q : lib.get_blob h (hex2 j) buffer t ≡ r = ground (arith, o, g) in
        let z : lib.close h t ≡ s2 = ground (arith, o, g) in
        (
          sym q
              ∙ doc.got h (hex2 j) buffer t
              ∙ ap (fitted buffer) (
                  ap (λ m. m (part h) (name h) (hex2 j)) w
                  ∙ ap (λ x. view s1 x (name h) (hex2 j)) p
                  ∙ ap (λ x. view s1 kvs.part_name x (hex2 j)) n
                  ∙ performs-value ops c j s s1 v hc hj e),
          ap view (sym z) ∙ doc.closes h t ∙ w,
        )
  ]
