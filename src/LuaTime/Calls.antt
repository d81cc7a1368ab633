-- ===== src/LuaTime/Calls.antt =====
-- The calls of bridge/src/ltimelib.c from a world in which timers and objects belong together.
use mathlib.Core.Option.{some-injective}
use homekit_bridge.Base.{
  put, put_other, put_same, ℕ, ◌≡◌, inl, inr, refl, ap, sym, ◌∙◌, false, Option, none, some, List,
  ◌==◌, if◌then◌else◌, arith, Bool-cases, Option-cases,
}
use homekit_bridge.Base.Outcome.{ok}
use homekit_bridge.RunLoop.Timers.{Timer, new_timer, insert, register, deregister}
use homekit_bridge.RunLoop.Timers.Find.{
  find, Unused, Unused-find, find-insert, DistinctAddresses-insert,
}
use homekit_bridge.LuaTime.{
  Object, World, Entry, empty, itself, is_itself, stored, timer_cb, sleep_cb, deadline, drop_timer,
  create_timer, restart, start, stop, collect, sleep,
}
use homekit_bridge.LuaTime.Valid.{
  timer_of, Valid, Without, Mine-object, drop_timer-Without, Valid-idle, Valid-armed, Valid-timers,
}
use homekit_bridge.LuaTime.Actions.{starting, first, Fresh, Allowed, Safe}

module _ {V : Type 0} where
  -- An object whose timer is not running any more, with any entry of its own in the registry.
  pub Valid-cleared :
      (w : World V) (ctx : ℕ) (o : Object V) (ts : List Timer) (r : ℕ → Entry)
      → Valid w
      → w.objects ctx ≡ some o
      → Without o.timer w ts
      → ((j : ℕ) → (ctx == j) ≡ false → r j ≡ w.registry j)
      → Valid (record w {
        timers = ts;
        objects = put w.objects ctx (some (record o { timer = none }));
        registry = r;
      })
  Valid-cleared w ctx o ts r v e d rs =
      let o' : Object V = record o { timer = none } in
      let f = put w.objects ctx (some o') in
      Valid-idle w ctx o.timer ts f r v (Mine-object w ctx o v e) d
        (put_other w.objects ctx (some o'))
        (λ u q. ap timer_of (some-injective u o' (sym q ∙ put_same w.objects ctx (some o')))) rs
        (λ h q. absurd (ground (arith, put_same w.objects ctx (some o'), q)))

  pub create_timer-Valid :
      (ctx : ℕ) (values : List V) (w : World V)
      → w.objects ctx ≡ none
      → Valid w
      → Valid (create_timer ctx values w)
  unfolding create_timer
  create_timer-Valid ctx values w e v =
      let o : Object V = record { timer = none; values = values } in
      Valid-idle w ctx none w.timers (put w.objects ctx (some o)) w.registry v
        (record {
          named = λ u q. absurd (ground (arith, e, q));
          there = λ p q. absurd (ground (arith, q));
        })
        (record {
          distinct = v.distinct;
          others = λ p q. refl;
          gone = λ p q. absurd (ground (arith, q));
        })
        (put_other w.objects ctx (some o))
        (λ u q. ap timer_of (some-injective u o (sym q ∙ put_same w.objects ctx (some o))))
        (λ j q. refl) (λ h q. absurd (ground (arith, put_same w.objects ctx (some o), q)))

  armed_world : ℕ → ℕ → ℕ → Object V → List Timer → World V → World V
  armed_world ctx p d o ts w = record w {
    timers = insert (new_timer p d timer_cb ctx) d ts;
    objects = put w.objects ctx (some (record o { timer = some p }));
    registry = put w.registry ctx itself;
  }

  Valid-restarted :
      (w : World V) (ctx p d : ℕ) (o : Object V) (ts : List Timer)
      → Valid w
      → w.objects ctx ≡ some o
      → Without o.timer w ts
      → Unused p ts
      → Valid (armed_world ctx p d o ts w)
  unfolding armed_world
  Valid-restarted w ctx p d o ts v e x u =
      let o' : Object V = record o { timer = none } in
      let a : Object V = record o { timer = some p } in
      let f = put w.objects ctx (some o') in
      let w' : World V = record w { timers = ts; objects = f; registry = w.registry } in
      Valid-armed w' ctx p d a (put w.objects ctx (some a)) (put w.registry ctx itself)
        (Valid-cleared w ctx o ts w.registry v e x (λ j q. refl))
        (record {
          named =
              λ b q. ap timer_of (some-injective b o' (sym q ∙ put_same w.objects ctx (some o')));
          there = λ i q. absurd (ground (arith, q));
        })
        u
        (λ j q. put_other w.objects ctx (some a) j q ∙ sym (put_other w.objects ctx (some o') j q))
        (put_same w.objects ctx (some a)) refl (put_other w.registry ctx itself)
        (put_same w.registry ctx itself)

  restart-Safe :
      (ctx : ℕ) (o : Object V) (ms : ℕ) (extra : List Entry) (now : ℕ) (alloc : Option ℕ)
      (w : World V)
      → Valid w
      → w.objects ctx ≡ some o
      → stored extra ≡ itself
      → ((ts : List Timer) → drop_timer o.timer w.timers ≡ ok ts → Fresh alloc ts)
      → Safe (first (restart ctx o ms extra now alloc w))
  unfolding restart register armed_world
  restart-Safe ctx o ms extra now none w v e q h =
      let (ts, d, x) = drop_timer-Without w ctx o v e in
      rw d (Valid-cleared w ctx o ts w.registry v e x (λ j q. refl))
  restart-Safe ctx o ms extra now (some p) w v e q h =
      let (ts, d, x) = drop_timer-Without w ctx o v e in
      rw (d, q) (Valid-restarted w ctx p (deadline ms now) o ts v e x (h ts d))

  pub start-Safe :
      (ctx : ℕ) (ms : Option ℕ) (extra : List Entry) (now : ℕ) (alloc : Option ℕ) (w : World V)
      → Valid w
      → Allowed (starting ctx ms extra now alloc) w
      → Safe (first (start ctx ms extra now alloc w))
  unfolding start
  start-Safe ctx ms extra now alloc w v a = elim (Option-cases (w.objects ctx)) [
    | inl n ↦ rw (Safe, n) v
    | inr (o, e) ↦ elim (Option-cases ms) [
      | inl n ↦ rw (Safe, e, n) v
      | inr (m, n) ↦
          rw (Safe, e, n) (restart-Safe ctx o m extra now alloc w v e a.0 (λ ts. a.1 o ts e))
    ]
  ]

  pub stop-Safe : (ctx : ℕ) (w : World V) → Valid w → Safe (stop ctx w)
  unfolding stop drop_timer
  stop-Safe ctx w v = elim (Option-cases (w.objects ctx)) [
    | inl n ↦ rw (Safe, n) v
    | inr (o, e) ↦ elim (Option-cases o.timer) [
      | inl n ↦ rw (Safe, e, n) v
      | inr (p, n) ↦
          let (ts, d, x) = drop_timer-Without w ctx o v e in
          let d' : deregister p w.timers ≡ ok ts = ap (λ t. drop_timer t w.timers) (sym n) ∙ d in
          rw (Safe, e, n, d')
            (Valid-cleared w ctx o ts (put w.registry ctx empty) v e x
              (put_other w.registry ctx empty))
    ]
  ]

  -- A timer that runs is held by the registry.
  unheld :
      (ctx : ℕ) (o : Object V) (w : World V)
      → Valid w
      → is_itself (w.registry ctx) ≡ false
      → w.objects ctx ≡ some o
      → o.timer ≡ none
  unheld ctx o w v h e = elim (Option-cases o.timer) [
    | inl n ↦ n
    | inr (p, n) ↦ let (_, s) = v.running ctx p o e n in absurd (ground (arith, h, s))
  ]

  stop-unheld :
      (ctx : ℕ) (w : World V) → Valid w → is_itself (w.registry ctx) ≡ false → stop ctx w ≡ ok w
  unfolding stop
  stop-unheld ctx w v h = elim (Option-cases (w.objects ctx)) [
    | inl n ↦ rw (stop, n) refl
    | inr (o, e) ↦ rw (stop, e, unheld ctx o w v h e) refl
  ]

  pub collect-Safe : (ctx : ℕ) (w : World V) → Valid w → Safe (collect ctx w)
  unfolding collect
  collect-Safe ctx w v = elim (Bool-cases (is_itself (w.registry ctx))) [
    | inl h ↦ rw (Safe, h) v
    | inr h ↦
        rw (Safe, h, stop-unheld ctx w v h)
          (Valid-idle w ctx none w.timers (put w.objects ctx none) w.registry v
            (record {
              named = λ o e. unheld ctx o w v h e;
              there = λ p q. absurd (ground (arith, q));
            })
            (record {
              distinct = v.distinct;
              others = λ p q. refl;
              gone = λ p q. absurd (ground (arith, q));
            })
            (put_other w.objects ctx none)
            (λ o q. absurd (ground (arith, put_same w.objects ctx none, q))) (λ j q. refl)
            (λ q. absurd (ground (arith, h, q))))
  ]

  pub sleep-Valid :
      (thread : ℕ) (ms : Option ℕ) (now : ℕ) (alloc : Option ℕ) (w : World V)
      → Valid w
      → Fresh alloc w.timers
      → Valid (sleep thread ms now alloc w).0
  unfolding sleep register
  sleep-Valid thread none now alloc w v h = v
  sleep-Valid thread (some m) now none w v h = v
  sleep-Valid thread (some m) now (some p) w v h =
      let d = deadline m now in
      let a = new_timer p d sleep_cb thread in
      let found : (j : ℕ)
          → find j (insert a d w.timers) ≡ (if p == j then some a else find j w.timers) =
        λ j. find-insert j a d w.timers h in
      let free : find p w.timers ≡ none = Unused-find p w.timers h in
      Valid-timers w (insert a d w.timers) v (DistinctAddresses-insert a d w.timers h v.distinct)
        (λ j t c. elim (Bool-cases (p == j)) [
          | inl q ↦ (
            λ g. absurd (
                ground (
                  arith,
                  c,
                  ap (λ (b : Timer). b.callback)
                      (some-injective a t (sym (found j ∙ ground (arith, q)) ∙ g)),
                )),
            λ g. absurd (ground (arith, q, free, g)),
          )
          | inr q ↦
              (λ g. sym (found j ∙ ground (arith, q)) ∙ g, λ g. found j ∙ ground (arith, q, g))
        ])
