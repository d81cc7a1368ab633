-- ===== src/RunLoop/Handles/Find.antt =====
-- The file handles of HAPPlatformRunLoop.c by their address, where handles are registered, changed
-- and deregistered.
use mathlib.Core.Option.{some-injective}
use homekit_bridge.Base.{
  ℕ, ◌≡◌, inl, inr, refl, ap, ◌∙◌, false, Option, none, some, List, [], ◌∷◌, ◌++◌, ◌==◌,
  if◌then◌else◌, arith, Bool-cases, Option-cases,
}
use homekit_bridge.Base.Outcome.{ok}
use homekit_bridge.RunLoop.Handles.{
  Events, Handle, Handles, find, unlink, adjust, register, update_interests, deregister,
}
use homekit_bridge.RunLoop.Handles.Valid.{Unused, WellFormed, Unused-find, find-next}

find-added :
    (j : ℕ) (n : Handle) (hs : List Handle)
    → Unused n.address hs
    → find j (hs ++ n ∷ []) ≡ (if n.address == j then some n else find j hs)
unfolding find
find-added j n [] u = refl
find-added j n (h ∷ hs) u = ground (arith, u, find-added j n hs u.1)

find-adjust :
    (j p : ℕ) (f : Handle → Handle) (h : Handle) (hs : List Handle)
    → ((x : Handle) → (f x).address ≡ x.address)
    → find p hs ≡ some h
    → find j (adjust f p hs) ≡ (if p == j then some (f h) else find j hs)
unfolding find adjust
find-adjust j p f h [] a e = cc
find-adjust j p f h (k ∷ hs) a e = elim (Bool-cases (k.address == p)) [
  | inl q ↦
      let c : k ≡ h = some-injective k h (ground (arith, q)) in
      let b : f k ≡ f h = ap f c in ground (arith, q, a k, b)
  | inr q ↦ ground (arith, q, find-adjust j p f h hs a (ground (arith, q)))
]

find-unlink :
    (j p : ℕ) (hs us : List Handle)
    → WellFormed hs
    → unlink p hs ≡ some us
    → find j us ≡ (if p == j then none else find j hs)
unfolding find unlink
find-unlink j p [] us w e = cc
find-unlink j p (n ∷ ns) us w e = elim (Bool-cases (n.address == p)) [
  | inl q ↦
      let f : us ≡ ns = ground (arith, q) in
      ap (find j) f ∙ ground (arith, q, Unused-find n.address ns w.0)
  | inr q ↦ elim (Option-cases (unlink p ns)) [
    | inl r ↦ absurd (ground (arith, q, r))
    | inr (ms, r) ↦
        let f : us ≡ n ∷ ms = ground (arith, q, r) in
        ap (find j) f ∙ ground (arith, q, find-unlink j p ns ms w.2 r)
  ]
]

unlink-found :
    (p : ℕ) (h : Handle) (hs : List Handle)
    → find p hs ≡ some h
    → (us : List Handle) × (unlink p hs ≡ some us)
unfolding find unlink
unlink-found p h [] e = cc
unlink-found p h (n ∷ ns) e = elim (Bool-cases (n.address == p)) [
  | inl q ↦ (ns, ground (arith, q))
  | inr q ↦ let (us, r) = unlink-found p h ns (ground (arith, q)) in (n ∷ us, ground (arith, q, r))
]

module _ (s : Handles) where
  -- A handle is registered at an address that is not in use.
  pub find-register :
      (j p : ℕ) (d : Option ℕ) (i : Events) (callback context : ℕ)
      → Unused p s.list
      → find j (register (some p) d i callback context s).0.list ≡ (
          if p == j
          then some (record {
            address = p;
            descriptor = d;
            interests = i;
            callback = callback;
            context = context;
            awaiting = false;
          })
          else find j s.list)
  unfolding register
  find-register j p d i callback context u =
      find-added j
        (record {
          address = p;
          descriptor = d;
          interests = i;
          callback = callback;
          context = context;
          awaiting = false;
        })
        s.list u

  -- What `HAPPlatformFileHandleUpdateInterests` does to a handle that is there.
  pub update_interests-found :
      (p : ℕ) (h : Handle) (i : Events) (callback context : ℕ)
      → find p s.list ≡ some h
      → (t : Handles) × (update_interests p i callback context s ≡ ok t)
        × ((j : ℕ)
            → find j t.list ≡ (
                if p == j
                then some (record h { interests = i; callback = callback; context = context })
                else find j s.list))
  unfolding update_interests
  update_interests-found p h i callback context e =
      let f : Handle → Handle =
        λ x. record x { interests = i; callback = callback; context = context } in
      (
        record s { list = adjust f p s.list },
        rw (update_interests, e) refl,
        λ j. find-adjust j p f h s.list (λ x. refl) e,
      )

  -- What `HAPPlatformFileHandleDeregister` does to a handle that is there.
  pub deregister-found :
      (p : ℕ) (h : Handle)
      → WellFormed s.list
      → find p s.list ≡ some h
      → (t : Handles) × (deregister p s ≡ ok t)
        × ((j : ℕ) → find j t.list ≡ (if p == j then none else find j s.list))
  unfolding deregister
  deregister-found p h w e =
      let (n, g) = find-next p h s.list e in
      let (us, u) = unlink-found p h s.list e in
      (
        record { list = us; cursor = if p == s.cursor then n else s.cursor },
        rw (deregister, g, u) refl,
        λ j. find-unlink j p s.list us w u,
      )
