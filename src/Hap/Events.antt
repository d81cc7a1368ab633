-- ===== src/Hap/Events.antt =====
-- `lhap_raise_event` of bridge/src/lhaplib.c.
use mathlib.Core.Option.{some-injective}
use homekit_bridge.Base.{
  ℕ, ◌≡◌, inl, inr, refl, ap, sym, ◌∙◌, true, Option, none, some, List, [], ◌∷◌, ◌==◌, arith,
  Bool-cases, Option-cases,
}
use homekit_bridge.Hap.{
  Characteristic, Service, Accessory, Cell, unset, null, entry, Desc, Result, done, parsed,
  accessories, ◌>>=◌,
}
use homekit_bridge.Hap.Raise.{first_with, find_bridged, find_accessory, raise_event}
use homekit_bridge.Hap.Valid.{contents, Holds}

-- What an event is raised for: the first accessory, service and characteristic with the identifiers,
-- of the primary accessory and then the bridged ones.
abbrev pub bind : {A B : Type 0} → Option A → (A → Option B) → Option B
bind none f = none
bind (some x) f = f x

abbrev pub named : List Accessory → ℕ → ℕ → ℕ → Option (Accessory × Service × Characteristic)
named bs aid sid cid = bind (first_with (λ (x : Accessory). x.aid) aid bs) (λ a.
    bind a.services (λ ss. bind (first_with (λ (x : Service). x.iid) sid ss) (λ s.
      bind s.characteristics
        (λ cs. bind (first_with (λ (x : Characteristic). x.iid) cid cs) (λ c. some (a, s, c))))))

find_bridged_lem :
    (i : ℕ) (cs : List Cell) (bs : List Accessory) (d : Desc)
    → accessories cs ≡ some bs
    → find_bridged i cs d ≡ parsed (first_with (λ (x : Accessory). x.aid) i bs) d
unfolding accessories find_bridged first_with
find_bridged_lem i [] bs d e = cc
find_bridged_lem i (unset ∷ cs) bs d e = cc
find_bridged_lem i (null ∷ cs) bs d e =
    let q : [] ≡ bs = some-injective [] bs e in
    ap (λ x. parsed (first_with (λ (y : Accessory). y.aid) i x) d) q
find_bridged_lem i (entry a ∷ cs) bs d e = elim (Option-cases (accessories cs)) [
  | inl n ↦ absurd (ground (arith, n))
  | inr (more, n) ↦
      let q : a ∷ more ≡ bs = some-injective (a ∷ more) bs (ground (arith, n)) in
      let r : find_bridged i (entry a ∷ cs) d
          ≡ parsed (first_with (λ (y : Accessory). y.aid) i (a ∷ more)) d =
        elim (Bool-cases (a.aid == i)) [
          | inl t ↦ rw (find_bridged, first_with, t) refl
          | inr t ↦ rw (find_bridged, first_with, t) (find_bridged_lem i cs more d n)
        ] in
      r ∙ ap (λ x. parsed (first_with (λ (y : Accessory). y.aid) i x) d) q
]

find_accessory_lem :
    (i : ℕ) (d : Desc) (p : Accessory) (bs : List Accessory)
    → d.primary_acc ≡ some p
    → contents d.bridged_accs ≡ some bs
    → find_accessory i d ≡ parsed (first_with (λ (x : Accessory). x.aid) i (p ∷ bs)) d
unfolding find_accessory first_with
find_accessory_lem i d p bs e h = elim (Bool-cases (p.aid == i)) [
  | inl t ↦ simp (find_accessory, first_with, e, t)
  | inr t ↦ elim (Option-cases d.bridged_accs) [
    | inl n ↦
        let q : [] ≡ bs = some-injective [] bs (sym (ap contents n) ∙ h) in
        simp (find_accessory, first_with, e, t, n, sym q)
    | inr (cs, n) ↦
        let f = find_bridged_lem i cs bs d (sym (ap contents n) ∙ h) in
        simp (find_accessory, first_with, e, t, n, f)
  ]
]

stage :
    {A B : Type 0} (d : Desc) (o : Option A) (f : A → Result B) (g : A → Option B)
    → ((x : A) → f x ≡ parsed (g x) d)
    → (parsed o d >>= f) ≡ parsed (bind o g) d
stage d none f g h = refl
stage d (some x) f g h = h x

-- The call after the accessory was found.
raise_of : ℕ → ℕ → Desc → Accessory → Result (Accessory × Service × Characteristic)
raise_of sid cid d a = parsed a.services d >>= λ ss.
    parsed (first_with (λ (x : Service). x.iid) sid ss) d >>= λ s.
    parsed s.characteristics d >>= λ cs.
    parsed (first_with (λ (x : Characteristic). x.iid) cid cs) d >>= λ c. done (a, s, c)

raise_of_lem :
    (sid cid : ℕ) (d : Desc) (o : Option Accessory)
    → (parsed o d >>= raise_of sid cid d)
      ≡ parsed
          (bind o (λ a. bind a.services (λ ss.
            bind (first_with (λ (x : Service). x.iid) sid ss) (λ s. bind s.characteristics (λ cs.
              bind (first_with (λ (x : Characteristic). x.iid) cid cs) (λ c. some (a, s, c)))))))
          d
unfolding raise_of
raise_of_lem sid cid d o = stage d o _ _ (λ a. stage d a.services _ _ (λ ss.
    stage d (first_with (λ (x : Service). x.iid) sid ss) _ _ (λ s.
      stage d s.characteristics _ _ (λ cs.
        stage d (first_with (λ (x : Characteristic). x.iid) cid cs) _ (λ c. some (a, s, c))
          (λ c. refl)))))

raise_started :
    (aid sid cid : ℕ) (d : Desc)
    → d.is_started ≡ true
    → raise_event aid sid cid d ≡ (find_accessory aid d >>= raise_of sid cid d)
unfolding raise_event raise_of
raise_started aid sid cid d s = simp (raise_event, s)

-- From a descriptor that is started, an event is raised for the characteristic that is the first with
-- its identifier in the first service with its, of the first accessory with its among the primary
-- and the bridged ones in their order; if there is none, this is a Lua error, and no memory is used
-- that must not be.
pub raise_event_lem :
    (aid sid cid : ℕ) (d : Desc) (p : Accessory) (bs : List Accessory)
    → d.is_started ≡ true
    → d.primary_acc ≡ some p
    → Holds bs d
    → raise_event aid sid cid d ≡ parsed (named (p ∷ bs) aid sid cid) d
raise_event_lem aid sid cid d p bs s e h =
    raise_started aid sid cid d s
    ∙ ap (λ x. x >>= raise_of sid cid d) (find_accessory_lem aid d p bs e h.held)
    ∙ raise_of_lem sid cid d (first_with (λ (x : Accessory). x.aid) aid (p ∷ bs))
