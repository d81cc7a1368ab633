-- ===== src/RunLoop/Handles/Calls.antt =====
-- The callbacks that `ProcessSelectedFileHandles` of HAPPlatformRunLoop.c calls.
use mathlib.Core.Path.{subst}
use homekit_bridge.Base.{
  ℕ, zero, suc, ◌<◌, ◌≡◌, inl, inr, refl, ap, sym, ◌∙◌, false, none, some, List, [], ◌∷◌, ◌++◌,
  ◌==◌, if◌then◌else◌, arith, Bool-cases, Option-cases, length, append_assoc, append-nil,
}
use homekit_bridge.Base.Outcome.{ok}
use homekit_bridge.RunLoop.Handles.{
  Events, Handle, Handles, Ready, Firing, went, finished, first, next, find, adjust, events,
  any_event, dispatch, visit, rounds, process,
}
use homekit_bridge.RunLoop.Handles.Valid.{Unused, Proper, WellFormed}
use homekit_bridge.RunLoop.Handles.Edits.{WellFormed-adjust}

-- A callback that leaves the file handles alone, and is noted with its events.
abbrev pub note : Firing (List (ℕ × Events))
note h e s w = ok (s, w ++ (h.address, e) ∷ [])

-- What is noted of a handle, on the descriptor `d`, and of one that may have none.
abbrev pub call_on : Ready → Handle → ℕ → List (ℕ × Events)
call_on r h d =
    if h.callback == 0
    then []
    else if any_event (events r d h)
    then (h.address, events r d h) ∷ []
    else []

abbrev pub call : Ready → Handle → List (ℕ × Events)
call r h = if h.awaiting then elim h.descriptor [ none ↦ [] | some d ↦ call_on r h d ] else []

abbrev pub calls : Ready → List Handle → List (ℕ × Events)
calls r [] = []
calls r (h ∷ hs) = call r h ++ calls r hs

abbrev pub settle : Handle → Handle
settle h = record h { awaiting = false }

abbrev pub settle_all : List Handle → List Handle
settle_all [] = []
settle_all (h ∷ hs) = settle h ∷ settle_all hs

Unused-inside :
    (j : ℕ) (b : List Handle) (h : Handle) (hs : List Handle)
    → Unused j (b ++ h ∷ hs)
    → (h.address == j) ≡ false
Unused-inside j [] h hs u = u.0
Unused-inside j (x ∷ b) h hs u = Unused-inside j b h hs u.1

Unused-before :
    (b : List Handle) (h : Handle) (hs : List Handle)
    → WellFormed (b ++ h ∷ hs)
    → Unused h.address b
Unused-before [] h hs w = tt
Unused-before (x ∷ b) h hs w =
    (ground (arith, Unused-inside x.address b h hs w.0), Unused-before b h hs w.2)

module _ (h : Handle) (hs : List Handle) where
  find-behind : (b : List Handle) → Unused h.address b → find h.address (b ++ h ∷ hs) ≡ some h
  unfolding find
  find-behind [] u = ground arith
  find-behind (x ∷ b) u = ground (arith, u, find-behind b u.1)

  next-behind :
      (b : List Handle) → Unused h.address b → next h.address (b ++ h ∷ hs) ≡ some (first hs)
  unfolding next
  next-behind [] u = ground arith
  next-behind (x ∷ b) u = ground (arith, u, next-behind b u.1)

  adjust-behind :
      (f : Handle → Handle) (b : List Handle)
      → Unused h.address b
      → adjust f h.address (b ++ h ∷ hs) ≡ b ++ f h ∷ hs
  unfolding adjust
  adjust-behind f [] u = ground arith
  adjust-behind f (x ∷ b) u = ground (arith, u, adjust-behind f b u.1)

settled_self : (h : Handle) → h.awaiting ≡ false → settle h ≡ h
settled_self h e = ap (λ x. record h { awaiting = x }) (sym e)

Proper-inside :
    (b : List Handle) (h : Handle) (hs : List Handle) → WellFormed (b ++ h ∷ hs) → Proper h
Proper-inside [] h hs w = w.1
Proper-inside (x ∷ b) h hs w = Proper-inside b h hs w.2

module _ (r : Ready) where
  dispatch-note :
      (h : Handle) (d : ℕ) (s : Handles) (us : List Handle) (w : List (ℕ × Events))
      → adjust settle h.address s.list ≡ us
      → dispatch r note h d s w ≡ went (record s { list = us }) (w ++ call_on r h d)
  unfolding dispatch
  dispatch-note h d s us w a = elim (Bool-cases (h.callback == 0)) [
    | inl q ↦ rw (a, q) (ap (went (record s { list = us })) (sym (append-nil w)))
    | inr q ↦ elim (Bool-cases (any_event (events r d h))) [
      | inl e ↦ rw (a, q, e) refl
      | inr e ↦ rw (a, q, e) (ap (went (record s { list = us })) (sym (append-nil w)))
    ]
  ]

  -- A visit of the handle behind `b`.
  visit-note :
      (b : List Handle) (h : Handle) (hs : List Handle) (c : ℕ) (w : List (ℕ × Events))
      → WellFormed (b ++ h ∷ hs)
      → visit r note h (record { list = b ++ h ∷ hs; cursor = c }) w
        ≡ went (record { list = b ++ settle h ∷ hs; cursor = first hs }) (w ++ call r h)
  unfolding visit
  visit-note b h hs c w f =
      let u = Unused-before b h hs f in
      let n = next-behind h hs b u in
      let a = adjust-behind h hs settle b u in
      let t : Handles = record { list = b ++ h ∷ hs; cursor = first hs } in
      elim (Bool-cases h.awaiting) [
        | inl q ↦ elim (Option-cases h.descriptor) [
          | inl d ↦ absurd (ground (arith, q, d, (Proper-inside b h hs f).1))
          | inr (d, e) ↦ ground (arith, n, q, e, dispatch-note h d t (b ++ settle h ∷ hs) w a)
        ]
        | inr q ↦ ground (arith, n, q, settled_self h q, append-nil w)
      ]

  rounds-note :
      (f : ℕ) (b hs : List Handle) (w : List (ℕ × Events))
      → WellFormed (b ++ hs)
      → length hs < f
      → rounds f r note (record { list = b ++ hs; cursor = first hs }) w
        ≡ finished (record { list = b ++ settle_all hs; cursor = 0 }) (w ++ calls r hs)
  unfolding rounds
  rounds-note zero b hs w v l = absurd (omega (arith, l))
  rounds-note (suc f) b [] w v l =
      ap (finished (record { list = b ++ []; cursor = 0 })) (sym (append-nil w))
  rounds-note (suc f) b (h ∷ hs) w v l =
      let z : (h.address == 0) ≡ false = (Proper-inside b h hs v).0 in
      let e = find-behind h hs b (Unused-before b h hs v) in
      let g = visit-note b h hs h.address w v in
      let a : b ++ settle h ∷ hs ≡ (b ++ settle h ∷ []) ++ hs =
        sym (append_assoc b (settle h ∷ []) hs) in
      let c =
        WellFormed-adjust settle (λ x. (refl, refl, ground arith)) h.address (b ++ h ∷ hs) v in
      let c' = subst WellFormed (adjust-behind h hs settle b (Unused-before b h hs v) ∙ a) c in
      let m = rounds-note f (b ++ settle h ∷ []) hs (w ++ call r h) c' (omega (arith, l)) in
      rw (rounds, z, e, g)
        (ap (λ us. rounds f r note (record { list = us; cursor = first hs }) (w ++ call r h)) a
          ∙ m
          ∙ ap (λ us. finished (record { list = us; cursor = 0 }) ((w ++ call r h) ++ calls r hs))
              (append_assoc b (settle h ∷ []) (settle_all hs))
          ∙ ap (finished (record { list = b ++ settle h ∷ settle_all hs; cursor = 0 }))
              (append_assoc w (call r h) (calls r hs)))

  -- Where callbacks leave the file handles alone, `ProcessSelectedFileHandles` calls exactly those
  -- that await events, have a callback, and have an event ready in which they are interested; each
  -- once, in the order of the list, and with just these events. Afterwards none awaits events. As
  -- many rounds are enough as there are handles, and one more.
  pub process_calls :
      (s : Handles)
      → WellFormed s.list
      → process (suc (length s.list)) r note s []
        ≡ finished (record { list = settle_all s.list; cursor = 0 }) (calls r s.list)
  unfolding process
  process_calls s v = rounds-note (suc (length s.list)) [] s.list [] v (omega arith)
