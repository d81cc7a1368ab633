-- ===== src/LuaTime/Rounds.antt =====
-- A round of the run loop, in which a timer of bridge/src/ltimelib.c fires.
use mathlib.Core.Path.{subst}
use mathlib.Core.Option.{some-injective}
use homekit_bridge.Base.{
  put, put_other, ℕ, ◌≡◌, ◌≢◌, ◌⊎◌, inl, inr, refl, ap, sym, ◌∙◌, false, none, some, List, [], ◌∷◌,
  ltb, ◌==◌, arith, Bool-cases,
}
use homekit_bridge.Base.Outcome.{ok}
use homekit_bridge.RunLoop.Timers.{Timer}
use homekit_bridge.RunLoop.Timers.Find.{find, DistinctAddresses, Unused-find}
use homekit_bridge.LuaTime.{
  Object, World, itself, empty, started, timer_cb, sleep_cb, timer_fired, sleep_over, fire,
  fire_next,
}
use homekit_bridge.LuaTime.Valid.{Valid, Without, Valid-timers}
use homekit_bridge.LuaTime.Actions.{first, Safe}
use homekit_bridge.LuaTime.Calls.{Valid-cleared}

List-cases : {A : Type 0} (xs : List A) → (xs ≡ []) ⊎ ((x : A) × (rest : List A) × (xs ≡ x ∷ rest))
List-cases [] = inl refl
List-cases (x ∷ xs) = inr (x, xs, refl)

module _ {V : Type 0} where
  Without-head :
      (t : Timer) (ts : List Timer) (w : World V)
      → w.timers ≡ t ∷ ts
      → Valid w
      → Without (some t.address) w ts
  unfolding find
  Without-head t ts w e v =
      let d : DistinctAddresses (t ∷ ts) = subst DistinctAddresses e v.distinct in
      record {
        distinct = d.1;
        others = λ p q.
            let n : (t.address == p) ≡ false =
              ground (arith, λ (x : t.address ≡ p). q (ap (λ (i : ℕ). some i) x)) in
            sym (ap (find p) e ∙ ground (arith, n));
        gone = λ p q.
            let k : t.address ≡ p = some-injective t.address p q in
            ap (λ j. find j ts) (sym k) ∙ Unused-find t.address ts d.0;
      }

  find_head :
      (t : Timer) (ts : List Timer) (w : World V)
      → w.timers ≡ t ∷ ts
      → find t.address w.timers ≡ some t
  unfolding find
  find_head t ts w e = ap (find t.address) e ∙ ground arith

  -- The stack of the main thread was empty before.
  emptied : (w : World V) → w.top ≡ 0 → Valid w → Valid (record w { top = 0 })
  emptied w e v = subst (λ n. Valid (record w { top = n })) e v

  timer_fired_held :
      (ctx : ℕ) (o : Object V) (w : World V)
      → w.objects ctx ≡ some o
      → w.registry ctx ≡ itself
      → w.top ≡ 0
      → timer_fired ctx w
        ≡ ok (
          record w {
            objects = put w.objects ctx (some (record o { timer = none }));
            registry = put w.registry ctx empty;
            top = 0;
          },
          started o.values,
        )
  unfolding timer_fired
  timer_fired_held ctx o w e h n = simp (timer_fired, e, h, n)

  timer_fired-Safe :
      (t : Timer) (ts : List Timer) (w : World V)
      → w.timers ≡ t ∷ ts
      → t.callback ≡ timer_cb
      → Valid w
      → Safe (first (timer_fired t.context (record w { timers = ts })))
  timer_fired-Safe t ts w q c v =
      let ctx = t.context in
      let (o, e, n) = v.owned t.address t (find_head t ts w q) c in
      let (_, h) = v.running ctx t.address o e n in
      let x : Without o.timer w ts =
        subst (λ y. Without y w ts) (sym n) (Without-head t ts w q v) in
      rw (timer_fired_held ctx o (record w { timers = ts }) e h v.empty_stack) (
        emptied _ v.empty_stack (
          Valid-cleared w ctx o ts (put w.registry ctx empty) v e x
            (put_other w.registry ctx empty)))

  other_fired-Valid :
      (t : Timer) (ts : List Timer) (w : World V)
      → w.timers ≡ t ∷ ts
      → (t.callback == timer_cb) ≡ false
      → Valid w
      → Valid (record w { timers = ts })
  other_fired-Valid t ts w q c v =
      let x = Without-head t ts w q v in
      Valid-timers w ts v x.distinct (λ p u k.
        let away : find p w.timers ≡ some u → some t.address ≢ some p = λ g y.
          let m : find p w.timers ≡ some t =
            ap (λ i. find i w.timers) (sym (some-injective t.address p y)) ∙ find_head t ts w q in
          absurd (
            ground
              (arith, c, k, ap (λ (b : Timer). b.callback) (some-injective u t (sym g ∙ m)))) in
        (
          λ g. sym (x.others p (λ y. absurd (ground (arith, g, x.gone p y)))) ∙ g,
          λ g. x.others p (away g) ∙ g,
        ))

  sleep_over-Safe : (thread : ℕ) (w : World V) → Valid w → Safe (first (sleep_over thread w))
  unfolding sleep_over
  sleep_over-Safe thread w v = rw (Safe, v.empty_stack) (emptied w v.empty_stack v)

  fire-Safe :
      (t : Timer) (ts : List Timer) (w : World V)
      → w.timers ≡ t ∷ ts
      → Valid w
      → Safe (first (fire t (record w { timers = ts })))
  unfolding fire
  fire-Safe t ts w q v = elim (Bool-cases (t.callback == timer_cb)) [
    | inl c ↦ rw (Safe, c) (timer_fired-Safe t ts w q (ground (arith, c)) v)
    | inr c ↦
        let k = other_fired-Valid t ts w q c v in
        elim (Bool-cases (t.callback == sleep_cb)) [
          | inl s ↦ rw (c, s) (sleep_over-Safe t.context (record w { timers = ts }) k)
          | inr s ↦ rw (Safe, c, s) k
        ]
  ]

  pub fire_next-Safe : (now : ℕ) (w : World V) → Valid w → Safe (first (fire_next now w))
  unfolding fire_next
  fire_next-Safe now w v = elim (List-cases w.timers) [
    | inl e ↦ rw (Safe, e) v
    | inr (t, ts, e) ↦ elim (Bool-cases (ltb now t.deadline)) [
      | inl l ↦ rw (Safe, e, l) v
      | inr l ↦ rw (Safe, e, l) (fire-Safe t ts w e v)
    ]
  ]
