-- ===== src/RunLoop/Handles/Changes.antt =====
-- What callbacks do to the file handles of HAPPlatformRunLoop.c.
use mathlib.Core.Path.{subst}
use homekit_bridge.Base.{
  ℕ, ◌≤◌, ◌≡◌, inl, inr, refl, ap, ◌∙◌, false, Option, some, List, [], ◌∷◌, ◌++◌, ◌==◌,
  if◌then◌else◌, arith, Bool-cases, Option-cases,
}
use homekit_bridge.Base.Outcome.{ok}
use homekit_bridge.RunLoop.Handles.{
  Events, Handle, Handles, next, find, unlink, adjust, register, update_interests, deregister,
}
use homekit_bridge.RunLoop.Handles.Valid.{
  Unused, Valid, waiting, has-find, next-left, has-next, next-other, next-has,
}
use homekit_bridge.RunLoop.Handles.Edits.{
  Tame, WellFormed-adjust, has-adjust, waiting-adjust, WellFormed-added, has-added, waiting-added,
  WellFormed-unlink, Kept, unlink-Kept,
}

-- A callback registers handles at addresses that are not in use, and changes and deregisters handles
-- that there are.
pub data Changes : Handles → Handles → Type 0 where
  unchanged : (s : Handles) → Changes s s
  registers :
      (s t : Handles) (p : ℕ) (descriptor : Option ℕ) (interests : Events) (callback context : ℕ)
      → Unused p t.list
      → (p == 0) ≡ false
      → Changes s t
      → Changes s (register (some p) descriptor interests callback context t).0
  updates :
      (s t u : Handles) (p : ℕ) (interests : Events) (callback context : ℕ)
      → update_interests p interests callback context t ≡ ok u
      → Changes s t
      → Changes s u
  deregisters : (s t u : Handles) (p : ℕ) → deregister p t ≡ ok u → Changes s t → Changes s u

-- The handles stay in order, and no more of them await events from the cursor on.
pub record Keeps (s t : Handles) : Type 0 where
  pub valid : Valid t
  pub fewer : waiting t.cursor t.list ≤ waiting s.cursor s.list

register-Keeps :
    (s : Handles) (p : ℕ) (descriptor : Option ℕ) (interests : Events) (callback context : ℕ)
    → Valid s
    → Unused p s.list
    → (p == 0) ≡ false
    → Keeps s (register (some p) descriptor interests callback context s).0
unfolding register
register-Keeps s p descriptor interests callback context v u z =
    let n : Handle = record {
      address = p;
      descriptor = descriptor;
      interests = interests;
      callback = callback;
      context = context;
      awaiting = false;
    } in
    let w : waiting s.cursor (s.list ++ n ∷ []) ≡ waiting s.cursor s.list =
      waiting-added n s.cursor s.list refl in
    record {
      valid = record {
        formed = WellFormed-added n s.list v.formed u z refl;
        cursor = λ c. has-added n s.cursor s.list (v.cursor c);
      };
      fewer = omega (arith, w);
    }

pub adjust-Keeps :
    (s : Handles) (f : Handle → Handle) (p : ℕ)
    → Valid s
    → Tame f
    → Keeps s (record s { list = adjust f p s.list })
adjust-Keeps s f p v m = record {
  valid = record {
    formed = WellFormed-adjust f m p s.list v.formed;
    cursor = λ c. has-adjust f m p s.cursor s.list ∙ v.cursor c;
  };
  fewer = (waiting-adjust f m p s.cursor s.list).0;
}

update_interests-Keeps :
    (s t : Handles) (p : ℕ) (interests : Events) (callback context : ℕ)
    → Valid s
    → update_interests p interests callback context s ≡ ok t
    → Keeps s t
unfolding update_interests
update_interests-Keeps s t p interests callback context v e =
    let f : Handle → Handle =
      λ h. record h { interests = interests; callback = callback; context = context } in
    elim (Option-cases (find p s.list)) [
      | inl n ↦ absurd (ground (arith, n))
      | inr (h, n) ↦
          let q : record s { list = adjust f p s.list } ≡ t = ground (arith, n) in
          subst (Keeps s) q (adjust-Keeps s f p v (λ k. (refl, refl, ground arith)))
    ]

removed-Keeps :
    (s : Handles) (p n : ℕ) (us : List Handle)
    → Valid s
    → next p s.list ≡ some n
    → unlink p s.list ≡ some us
    → Keeps s (record { list = us; cursor = if p == s.cursor then n else s.cursor })
removed-Keeps s p n us v g u = elim (Bool-cases (p == s.cursor)) [
  | inl q ↦
      let c : p ≡ s.cursor = ground (arith, q) in
      let (h, e) = has-find p s.list (next-has p n s.list g) in
      let k : Kept n s.list us =
        unlink-Kept n p s.list us u v.formed (next-other p n s.list v.formed g) in
      let l = (next-left p n h s.list v.formed e g).0 in
      let m : waiting p s.list ≡ waiting s.cursor s.list = ap (λ i. waiting i s.list) c in
      let o : waiting n s.list ≤ waiting p s.list = ground (arith, l) in
      rw q (record {
        valid = record {
          formed = WellFormed-unlink p s.list us u v.formed;
          cursor = λ z. k.still ∙ has-next p n s.list v.formed g z;
        };
        fewer = omega (arith, k.less, m, o);
      })
  | inr q ↦
      let k : Kept s.cursor s.list us = unlink-Kept s.cursor p s.list us u v.formed q in
      rw q (record {
        valid = record {
          formed = WellFormed-unlink p s.list us u v.formed;
          cursor = λ z. k.still ∙ v.cursor z;
        };
        fewer = k.less;
      })
]

deregister-Keeps : (s t : Handles) (p : ℕ) → Valid s → deregister p s ≡ ok t → Keeps s t
unfolding deregister
deregister-Keeps s t p v e = elim (Option-cases (next p s.list)) [
  | inl n ↦ absurd (ground (arith, n))
  | inr (n, g) ↦ elim (Option-cases (unlink p s.list)) [
    | inl u ↦ absurd (ground (arith, g, u))
    | inr (us, u) ↦
        let q : record { list = us; cursor = if p == s.cursor then n else s.cursor } ≡ t =
          ground (arith, g, u) in
        subst (Keeps s) q (removed-Keeps s p n us v g u)
  ]
]

Keeps-trans : (s t u : Handles) → Keeps s t → Keeps t u → Keeps s u
Keeps-trans s t u k l = record { valid = l.valid; fewer = omega (arith, k.fewer, l.fewer) }

pub Changes-Keeps : (s t : Handles) → Valid s → Changes s t → Keeps s t
Changes-Keeps s _ v (unchanged _) = record { valid = v; fewer = omega arith }
Changes-Keeps s _ v (registers _ t p d i c x u z h) =
    let k = Changes-Keeps s t v h in
    Keeps-trans s t (register (some p) d i c x t).0 k (register-Keeps t p d i c x k.valid u z)
Changes-Keeps s u v (updates _ t _ p i c x e h) =
    let k = Changes-Keeps s t v h in
    Keeps-trans s t u k (update_interests-Keeps t u p i c x k.valid e)
Changes-Keeps s u v (deregisters _ t _ p e h) =
    let k = Changes-Keeps s t v h in Keeps-trans s t u k (deregister-Keeps t u p k.valid e)
