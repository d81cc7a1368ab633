-- ===== src/LuaTime/Valid.antt =====
-- How the timer objects of bridge/src/ltimelib.c and the timers of the run loop belong together.
use mathlib.Core.Option.{some-injective}
use homekit_bridge.Base.{
  ℕ, ◌≡◌, ◌≢◌, ◌↔◌, inl, inr, refl, ap, sym, ◌∙◌, false, Option, none, some, List, ◌==◌,
  if◌then◌else◌, arith, Bool-cases, Option-cases,
}
use homekit_bridge.Base.Outcome.{ok}
use homekit_bridge.RunLoop.Timers.{Timer, new_timer, insert, deregister}
use homekit_bridge.RunLoop.Timers.Find.{
  find, Unused, DistinctAddresses, Unused-find, find-insert, DistinctAddresses-insert, unlink-found,
  find-unlink, DistinctAddresses-unlink,
}
use homekit_bridge.LuaTime.{Object, World, Entry, itself, timer_cb, drop_timer}

module _ {V : Type 0} where
  abbrev pub timer_of : Object V → Option ℕ
  timer_of o = o.timer

  -- An object with a timer has it in the run loop, under its own context, and is held by the
  -- registry; a timer of the run loop with a Lua callback is that of its object; an object that the
  -- registry holds under its own address is there. The stack of the main thread is empty.
  pub record Valid (w : World V) : Type 0 where
    pub distinct : DistinctAddresses w.timers
    pub running :
        (ctx p : ℕ) (o : Object V)
        → w.objects ctx ≡ some o
        → o.timer ≡ some p
        → ((t : Timer) × (find p w.timers ≡ some t) × (t.callback ≡ timer_cb) × (t.context ≡ ctx))
          × (w.registry ctx ≡ itself)
    pub owned :
        (p : ℕ) (t : Timer)
        → find p w.timers ≡ some t
        → t.callback ≡ timer_cb
        → (o : Object V) × (w.objects t.context ≡ some o) × (o.timer ≡ some p)
    pub empty_stack : w.top ≡ 0
    pub held : (ctx : ℕ) → w.registry ctx ≡ itself → w.objects ctx ≢ none

  -- The timers `ts` are those of `w` without the timer `x`.
  pub record Without (x : Option ℕ) (w : World V) (ts : List Timer) : Type 0 where
    pub distinct : DistinctAddresses ts
    pub others : (p : ℕ) → x ≢ some p → find p ts ≡ find p w.timers
    pub gone : (p : ℕ) → x ≡ some p → find p ts ≡ none

  -- `x` is the timer that the context has.
  pub record Mine (ctx : ℕ) (x : Option ℕ) (w : World V) : Type 0 where
    pub named : (o : Object V) → w.objects ctx ≡ some o → o.timer ≡ x
    pub there : (p : ℕ) → x ≡ some p → (t : Timer) × (find p w.timers ≡ some t) × (t.context ≡ ctx)

  pub Mine-object :
      (w : World V) (ctx : ℕ) (o : Object V) → Valid w → w.objects ctx ≡ some o → Mine ctx o.timer w
  Mine-object w ctx o v e = record {
    named = λ o' e'. ap timer_of (some-injective _ _ (sym e' ∙ e));
    there = λ p n. let ((t, f, _, c), _) = v.running ctx p o e n in (t, f, c);
  }

  pub drop_timer-Without :
      (w : World V) (ctx : ℕ) (o : Object V)
      → Valid w
      → w.objects ctx ≡ some o
      → (ts : List Timer) × (drop_timer o.timer w.timers ≡ ok ts) × Without o.timer w ts
  unfolding drop_timer deregister
  drop_timer-Without w ctx o v e = elim (Option-cases o.timer) [
    | inl n ↦ (
      w.timers,
      ground (arith, n),
      record {
        distinct = v.distinct;
        others = λ p q. refl;
        gone = λ p q. absurd (ground (arith, n, q));
      },
    )
    | inr (p, n) ↦
        let ((t, f, _, _), _) = v.running ctx p o e n in
        let (ts, u) = unlink-found p t w.timers f in
        (
          ts,
          ground (arith, n, u),
          record {
            distinct = DistinctAddresses-unlink p w.timers ts u v.distinct;
            others = λ j q.
                find-unlink j p w.timers ts v.distinct u
                ∙ ground (arith, λ (x : p ≡ j). q (n ∙ ap (λ (i : ℕ). some i) x));
            gone = λ j q. find-unlink j p w.timers ts v.distinct u ∙ ground (arith, n, q);
          },
        )
  ]

  -- A context whose timer is not running any more, or that was not there.
  pub Valid-idle :
      (w : World V) (ctx : ℕ) (x : Option ℕ) (ts : List Timer) (f : ℕ → Option (Object V))
      (r : ℕ → Entry)
      → Valid w
      → Mine ctx x w
      → Without x w ts
      → ((j : ℕ) → (ctx == j) ≡ false → f j ≡ w.objects j)
      → ((o : Object V) → f ctx ≡ some o → o.timer ≡ none)
      → ((j : ℕ) → (ctx == j) ≡ false → r j ≡ w.registry j)
      → (r ctx ≡ itself → f ctx ≢ none)
      → Valid (record w { timers = ts; objects = f; registry = r })
  Valid-idle w ctx x ts f r v m d fs idle rs h = record {
    distinct = d.distinct;
    empty_stack = v.empty_stack;
    running = λ j p o e n. elim (Bool-cases (ctx == j)) [
      | inl q ↦
          let k : ctx ≡ j = ground (arith, q) in absurd (ground (arith, n, idle o (ap f k ∙ e)))
      | inr q ↦
          let ((t, g, c, k), s) = v.running j p o (sym (fs j q) ∙ e) n in
          let away : x ≢ some p = λ y.
            let (t', g', k') = m.there p y in
            absurd (
              ground (
                arith,
                q,
                k,
                k',
                ap (λ (u : Timer). u.context) (some-injective _ _ (sym g ∙ g')),
              )) in
          ((t, d.others p away ∙ g, c, k), rs j q ∙ s)
    ];
    owned = λ p t g c.
        let away : x ≢ some p = λ y. absurd (ground (arith, g, d.gone p y)) in
        let (o, e, n) = v.owned p t (sym (d.others p away) ∙ g) c in
        elim (Bool-cases (ctx == t.context)) [
          | inl q ↦
              let k : ctx ≡ t.context = ground (arith, q) in
              absurd (away (sym (m.named o (ap w.objects k ∙ e)) ∙ n))
          | inr q ↦ (o, fs t.context q ∙ e, n)
        ];
    held = λ j s. elim (Bool-cases (ctx == j)) [
      | inl q ↦ let k : ctx ≡ j = ground (arith, q) in λ z. h (ap r k ∙ s) (ap f k ∙ z)
      | inr q ↦ λ z. v.held j (sym (rs j q) ∙ s) (sym (fs j q) ∙ z)
    ];
  }

  -- A context that gets a timer at an address that no other timer has.
  pub Valid-armed :
      (w : World V) (ctx p d : ℕ) (o : Object V) (f : ℕ → Option (Object V)) (r : ℕ → Entry)
      → Valid w
      → Mine ctx none w
      → Unused p w.timers
      → ((j : ℕ) → (ctx == j) ≡ false → f j ≡ w.objects j)
      → f ctx ≡ some o
      → o.timer ≡ some p
      → ((j : ℕ) → (ctx == j) ≡ false → r j ≡ w.registry j)
      → r ctx ≡ itself
      → Valid (record w {
        timers = insert (new_timer p d timer_cb ctx) d w.timers;
        objects = f;
        registry = r;
      })
  Valid-armed w ctx p d o f r v m u fs e n rs h =
      let a = new_timer p d timer_cb ctx in
      let found : (j : ℕ)
          → find j (insert a d w.timers) ≡ (if p == j then some a else find j w.timers) =
        λ j. find-insert j a d w.timers u in
      let free : find p w.timers ≡ none = Unused-find p w.timers u in
      record {
        distinct = DistinctAddresses-insert a d w.timers u v.distinct;
        empty_stack = v.empty_stack;
        running = λ j i o' e' n'. elim (Bool-cases (ctx == j)) [
          | inl q ↦
              let k : ctx ≡ j = ground (arith, q) in
              let l : p ≡ i =
                some-injective _ _
                  (sym n ∙ ap timer_of (some-injective _ _ (sym e ∙ ap f k ∙ e')) ∙ n') in
              ((a, found i ∙ ground (arith, l), refl, k), sym (ap r k) ∙ h)
          | inr q ↦
              let ((t, g, c, k), s) = v.running j i o' (sym (fs j q) ∙ e') n' in
              let l : (p == i) ≡ false = ground (arith, free, g) in
              ((t, found i ∙ ground (arith, l, g), c, k), rs j q ∙ s)
        ];
        owned = λ i t g c. elim (Bool-cases (p == i)) [
          | inl q ↦
              let l : p ≡ i = ground (arith, q) in
              let h : some a ≡ some t = sym (found i ∙ ground (arith, q)) ∙ g in
              let k : ctx ≡ t.context = ap (λ (b : Timer). b.context) (some-injective a t h) in
              (o, ap f (sym k) ∙ e, n ∙ ap (λ (b : ℕ). some b) l)
          | inr q ↦
              let (o', e', n') = v.owned i t (sym (found i ∙ ground (arith, q)) ∙ g) c in
              elim (Bool-cases (ctx == t.context)) [
                | inl s ↦
                    let k : ctx ≡ t.context = ground (arith, s) in
                    absurd (ground (arith, n', m.named o' (ap w.objects k ∙ e')))
                | inr s ↦ (o', fs t.context s ∙ e', n')
              ]
        ];
        held = λ j s. elim (Bool-cases (ctx == j)) [
          | inl q ↦
              let k : ctx ≡ j = ground (arith, q) in λ z. absurd (ground (arith, e, ap f k ∙ z))
          | inr q ↦ λ z. v.held j (sym (rs j q) ∙ s) (sym (fs j q) ∙ z)
        ];
      }

  -- Other timers of the run loop come and go.
  pub Valid-timers :
      (w : World V) (ts : List Timer)
      → Valid w
      → DistinctAddresses ts
      → ((p : ℕ) (t : Timer)
          → t.callback ≡ timer_cb
          → (find p ts ≡ some t) ↔ (find p w.timers ≡ some t))
      → Valid (record w { timers = ts })
  Valid-timers w ts v d s = record {
    distinct = d;
    empty_stack = v.empty_stack;
    running =
        λ j p o e n. let ((t, g, c, k), h) = v.running j p o e n in ((t, (s p t c).1 g, c, k), h);
    owned = λ p t g c. v.owned p t ((s p t c).0 g) c;
    held = v.held;
  }
