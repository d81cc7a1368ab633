-- ===== src/RunLoop/Handles/Rounds.antt =====
-- The rounds of `ProcessSelectedFileHandles` of HAPPlatformRunLoop.c.
use homekit_bridge.Base.{
  ℕ, zero, suc, ◌≤◌, ◌<◌, ◌≡◌, ◌⊎◌, inl, inr, refl, ap, ◌∙◌, true, false, some, ◌==◌, arith,
  Bool-cases, Option-cases,
}
use homekit_bridge.Base.Outcome.{Outcome, ok, abort}
use homekit_bridge.RunLoop.Handles.{
  Events, Handle, Handles, Ready, Firing, Visited, went, exited, wrong, Processed, finished, ended,
  failed, unsettled, first, next, find, adjust, events, any_event, went_on, dispatch, visit, rounds,
  process,
}
use homekit_bridge.RunLoop.Handles.Valid.{
  WellFormed, Valid, waiting, left, has-first, has-find, find-address, find-next, find-Proper,
  next-left, has-next,
}
use homekit_bridge.RunLoop.Handles.Changes.{Changes, adjust-Keeps, Changes-Keeps}

-- The callback ends the process, or does with the handles what callbacks do.
abbrev pub Orderly : {W : Type 0} → Firing W → Type 0
Orderly {W} fire =
    (h : Handle) (e : Events) (s t : Handles) (v w : W) → fire h e s v ≡ ok (t, w) → Changes s t

-- A callback has ended the process, or the handles are in order with the cursor at the sentinel.
abbrev pub Ends : {W : Type 0} → Processed W → Type 0
Ends (finished s w) = Valid s × ((s.cursor == 0) ≡ true)
Ends ended = Unit
Ends failed = ⊥
Ends unsettled = ⊥

-- A visit makes progress: fewer handles await events from the cursor on, or as many do and fewer are
-- left.
abbrev Before : Handles → Handles → Type 0
Before t s =
    (waiting t.cursor t.list < waiting s.cursor s.list)
    ⊎ ((waiting t.cursor t.list ≤ waiting s.cursor s.list)
        × (left t.cursor t.list < left s.cursor s.list))

abbrev Progress : {W : Type 0} → Handles → Visited W → Type 0
Progress s (went t w) = Valid t × Before t s
Progress s exited = Unit
Progress s wrong = ⊥

module _ {W : Type 0} (r : Ready) (fire : Firing W) (orderly : Orderly fire) where
  fired-Progress :
      (s t : Handles) (o : Outcome (Handles × W))
      → ((u : Handles) (w : W) → o ≡ ok (u, w) → Changes t u)
      → Valid t
      → waiting t.cursor t.list < waiting s.cursor s.list
      → Progress s (went_on o)
  fired-Progress s t abort c v l = tt
  fired-Progress s t (ok (u, w)) c v l =
      let k = Changes-Keeps t u v (c u w refl) in (k.valid, inl (omega (arith, l, k.fewer)))

  dispatch-Progress :
      (s t : Handles) (h : Handle) (d : ℕ) (w : W)
      → Valid t
      → waiting t.cursor t.list < waiting s.cursor s.list
      → Progress s (dispatch r fire h d t w)
  unfolding dispatch
  dispatch-Progress s t h d w v l =
      let f : Handle → Handle = λ x. record x { awaiting = false } in
      let k = adjust-Keeps t f h.address v (λ x. (refl, refl, ground arith)) in
      let u : Handles = record t { list = adjust f h.address t.list } in
      let l' : waiting u.cursor u.list < waiting s.cursor s.list = omega (arith, k.fewer, l) in
      let settled = record h { awaiting = false } in
      let e = events r d h in
      elim (Bool-cases (h.callback == 0)) [
        | inl q ↦ rw (Progress, q) (k.valid, inl l')
        | inr q ↦ elim (Bool-cases (any_event e)) [
          | inl a ↦
              rw (Progress, q, a)
                (fired-Progress s u (fire settled e u w) (λ x y. orderly settled e u x w y) k.valid
                  l')
          | inr a ↦ rw (Progress, q, a) (k.valid, inl l')
        ]
      ]

  visit-Progress :
      (s : Handles) (h : Handle) (w : W)
      → Valid s
      → find s.cursor s.list ≡ some h
      → Progress s (visit r fire h s w)
  unfolding visit
  visit-Progress s h w v e =
      let c : h.address ≡ s.cursor = find-address s.cursor h s.list e in
      let (n, g) = find-next s.cursor h s.list e in
      let g' : next h.address s.list ≡ some n = ap (λ p. next p s.list) c ∙ g in
      let l = next-left s.cursor n h s.list v.formed e g in
      let t : Handles = record s { cursor = n } in
      let v' : Valid t = record {
        formed = v.formed;
        cursor = has-next s.cursor n s.list v.formed g;
      } in
      elim (Bool-cases h.awaiting) [
        | inl a ↦ elim (Option-cases h.descriptor) [
          | inl d ↦ absurd (ground (arith, a, d, (find-Proper s.cursor h s.list v.formed e).1))
          | inr (d, i) ↦
              rw (Progress, g', a, i) (dispatch-Progress s t h d w v' (ground (arith, a, l)))
        ]
        | inr a ↦ rw (Progress, g', a) (v', inr (ground (arith, a, l), ground (arith, l)))
      ]

  visited_end :
      (s : Handles) (o : Visited W)
      → Progress s o
      → ((t : Handles) (w : W) → Valid t → Before t s → (f : ℕ) × Ends (rounds f r fire t w))
      → (f : ℕ) × Ends (elim o as (λ x. Processed W) [
        | went t v ↦ rounds f r fire t v
        | exited ↦ ended
        | wrong ↦ failed
      ])
  visited_end s (went t w) p rest = rest t w p.0 p.1
  visited_end s exited p rest = (0, tt)
  visited_end s wrong p rest = absurd p

  -- The loop ends if it does from every state that comes before.
  step_end :
      (s : Handles) (w : W)
      → Valid s
      → ((t : Handles) (v : W) → Valid t → Before t s → (f : ℕ) × Ends (rounds f r fire t v))
      → (f : ℕ) × Ends (rounds f r fire s w)
  unfolding rounds
  step_end s w v rest = elim (Bool-cases (s.cursor == 0)) [
    | inl z ↦ (1, rw (Ends, z) (v, z))
    | inr z ↦
        let (k, e) = has-find s.cursor s.list (v.cursor z) in
        let (f, x) = visited_end s (visit r fire k s w) (visit-Progress s k w v e) rest in
        (suc f, rw (Ends, z, e) x)
  ]

  rounds_end :
      (m b : ℕ) (s : Handles) (w : W)
      → Valid s
      → waiting s.cursor s.list ≤ m
      → left s.cursor s.list ≤ b
      → (f : ℕ) × Ends (rounds f r fire s w)
  rounds_end zero zero s w v h l = step_end s w v (λ t x y j. elim j [
    | inl i ↦ absurd (omega (arith, h, i))
    | inr i ↦ absurd (omega (arith, l, i.1))
  ])
  rounds_end zero (suc b) s w v h l = step_end s w v (λ t x y j. elim j [
    | inl i ↦ absurd (omega (arith, h, i))
    | inr i ↦ rounds_end zero b t x y (omega (arith, h, i.0)) (omega (arith, l, i.1))
  ])
  rounds_end (suc m) zero s w v h l = step_end s w v (λ t x y j. elim j [
    | inl i ↦ rounds_end m (left t.cursor t.list) t x y (omega (arith, h, i)) (omega arith)
    | inr i ↦ absurd (omega (arith, l, i.1))
  ])
  rounds_end (suc m) (suc b) s w v h l = step_end s w v (λ t x y j. elim j [
    | inl i ↦ rounds_end m (left t.cursor t.list) t x y (omega (arith, h, i)) (omega arith)
    | inr i ↦ rounds_end (suc m) b t x y (omega (arith, h, i.0)) (omega (arith, l, i.1))
  ])

  -- Where callbacks register, change and deregister whatever handles they like, also the one that is
  -- called and the next one, `ProcessSelectedFileHandles` ends: there is a number of rounds after
  -- which a callback has ended the process, or all handles are processed. It uses no handle that has
  -- been freed, no assertion of the loop fails, and the list is in order afterwards. A new handle is
  -- at an address that is not in use; the handles that await events have descriptors.
  pub process-Ends :
      (s : Handles) (w : W) → WellFormed s.list → (f : ℕ) × Ends (process f r fire s w)
  unfolding process
  process-Ends s w h =
      let t : Handles = record s { cursor = first s.list } in
      rounds_end (waiting t.cursor t.list) (left t.cursor t.list) t w
        (record { formed = h; cursor = has-first s.list }) (omega arith) (omega arith)
