-- ===== src/RunLoop/Handles/Kept.antt =====
-- What the callbacks of file handles keep through `ProcessSelectedFileHandles` of
-- HAPPlatformRunLoop.c.
use homekit_bridge.Base.{
  ℕ, zero, suc, ◌≡◌, inl, inr, refl, false, List, ◌==◌, Bool-cases, Option-cases,
}
use homekit_bridge.Base.Outcome.{Outcome, ok, abort}
use homekit_bridge.RunLoop.Handles.{
  Events, Handle, Handles, Ready, Firing, Visited, went, exited, wrong, Processed, finished, ended,
  failed, unsettled, first, next, find, adjust, events, any_event, went_on, dispatch, visit, rounds,
  process,
}

-- What callbacks keep, and what does not depend on the cursor and on who awaits events, holds after
-- the loop.
pub record KeptBy {W : Type 0} (fire : Firing W) (J : List Handle → W → Type 0) : Type 0 where
  pub fired :
      (h : Handle) (e : Events) (s t : Handles) (v w : W)
      → fire h e s v ≡ ok (t, w)
      → J s.list v
      → J t.list w
  pub settled :
      (p : ℕ) (hs : List Handle) (w : W)
      → J hs w
      → J (adjust (λ x. record x { awaiting = false }) p hs) w

abbrev Holds : {W : Type 0} → (List Handle → W → Type 0) → Visited W → Type 0
Holds J (went t w) = J t.list w
Holds J exited = Unit
Holds J wrong = Unit

abbrev pub HoldsAfter : {W : Type 0} → (List Handle → W → Type 0) → Processed W → Type 0
HoldsAfter J (finished t w) = J t.list w
HoldsAfter J ended = Unit
HoldsAfter J failed = Unit
HoldsAfter J unsettled = Unit

module _ {W : Type 0} (r : Ready) (fire : Firing W) (J : List Handle → W → Type 0)
    (k : KeptBy fire J) where
  went_on-Holds :
      (s : Handles) (v : W) (o : Outcome (Handles × W))
      → ((t : Handles) (w : W) → o ≡ ok (t, w) → J s.list v → J t.list w)
      → J s.list v
      → Holds J (went_on o)
  went_on-Holds s v abort c j = tt
  went_on-Holds s v (ok (t, w)) c j = c t w refl j

  dispatch-Holds :
      (h : Handle) (d : ℕ) (s : Handles) (w : W) → J s.list w → Holds J (dispatch r fire h d s w)
  unfolding dispatch
  dispatch-Holds h d s w j =
      let f : Handle → Handle = λ x. record x { awaiting = false } in
      let u : Handles = record s { list = adjust f h.address s.list } in
      let j' = k.settled h.address s.list w j in
      let e = events r d h in
      let settled = record h { awaiting = false } in
      elim (Bool-cases (h.callback == 0)) [
        | inl q ↦ rw (Holds, q) j'
        | inr q ↦ elim (Bool-cases (any_event e)) [
          | inl a ↦
              rw (Holds, q, a)
                (went_on-Holds u w (fire settled e u w) (λ t x y. k.fired settled e u t w x y) j')
          | inr a ↦ rw (Holds, q, a) j'
        ]
      ]

  visit-Holds : (h : Handle) (s : Handles) (w : W) → J s.list w → Holds J (visit r fire h s w)
  unfolding visit
  visit-Holds h s w j = elim (Option-cases (next h.address s.list)) [
    | inl n ↦ rw (Holds, n) tt
    | inr (n, e) ↦ elim (Bool-cases h.awaiting) [
      | inl a ↦ elim (Option-cases h.descriptor) [
        | inl d ↦ rw (Holds, e, a, d) tt
        | inr (d, i) ↦ rw (Holds, e, a, i) (dispatch-Holds h d (record s { cursor = n }) w j)
      ]
      | inr a ↦ rw (Holds, e, a) j
    ]
  ]

  visited-HoldsAfter :
      (f : ℕ) (o : Visited W)
      → ((t : Handles) (w : W) → J t.list w → HoldsAfter J (rounds f r fire t w))
      → Holds J o
      → HoldsAfter J (elim o as (λ x. Processed W) [
        | went t v ↦ rounds f r fire t v
        | exited ↦ ended
        | wrong ↦ failed
      ])
  visited-HoldsAfter f (went t w) rest j = rest t w j
  visited-HoldsAfter f exited rest j = tt
  visited-HoldsAfter f wrong rest j = tt

  rounds-HoldsAfter :
      (f : ℕ) (s : Handles) (w : W) → J s.list w → HoldsAfter J (rounds f r fire s w)
  unfolding rounds
  rounds-HoldsAfter zero s w j = tt
  rounds-HoldsAfter (suc f) s w j = elim (Bool-cases (s.cursor == 0)) [
    | inl z ↦ rw (HoldsAfter, z) j
    | inr z ↦ elim (Option-cases (find s.cursor s.list)) [
      | inl n ↦ rw (HoldsAfter, z, n) tt
      | inr (h, e) ↦
          rw (HoldsAfter, z, e)
            (visited-HoldsAfter f (visit r fire h s w) (λ t x y. rounds-HoldsAfter f t x y)
              (visit-Holds h s w j))
    ]
  ]

  pub process-HoldsAfter :
      (f : ℕ) (s : Handles) (w : W) → J s.list w → HoldsAfter J (process f r fire s w)
  unfolding process
  process-HoldsAfter f s w j = rounds-HoldsAfter f (record s { cursor = first s.list }) w j
