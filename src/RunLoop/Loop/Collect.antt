-- ===== src/RunLoop/Loop/Collect.antt =====
-- The descriptors on which HAPPlatformRunLoop.c waits.
use homekit_bridge.Base.{
  ℕ, ◌≤◌, ◌<◌, ◌≡◌, inl, inr, refl, ap, ◌∙◌, Bool, true, false, not, ◌&&◌, ◌||◌, Option, none, some,
  List, [], ◌∷◌, ltb, ◌==◌, if◌then◌else◌, arith, Bool-cases, Option-cases,
}
use homekit_bridge.Base.Outcome.{ok}
use homekit_bridge.RunLoop.Handles.{Handle, Events, any_event}
use homekit_bridge.RunLoop.Handles.Valid.{Unused, WellFormed}
use homekit_bridge.RunLoop.Loop.{Sets, no_sets, watched, watch, collect}

abbrev pub member : ℕ → List ℕ → Bool
member d [] = false
member d (x ∷ xs) = (x == d) || member d xs

-- A handle is for the descriptor `d`.
abbrev pub on : ℕ → Option ℕ → Bool
on d none = false
on d (some x) = x == d

-- Some handle has an interest in the descriptor `d`.
abbrev pub wanted : (Events → Bool) → ℕ → List Handle → Bool
wanted kind d [] = false
wanted kind d (h ∷ hs) = (kind h.interests && on d h.descriptor) || wanted kind d hs

-- The descriptors in which there is an interest are below `setsize`.
abbrev pub InRange : ℕ → List Handle → Type 0
InRange setsize [] = Unit
InRange setsize (h ∷ hs) =
    ((d : ℕ) → h.descriptor ≡ some d → any_event h.interests ≡ true → d < setsize)
    × InRange setsize hs

abbrev pub AllBelow : ℕ → List ℕ → Type 0
AllBelow n [] = Unit
AllBelow n (d ∷ ds) = (d < n) × AllBelow n ds

-- The handle is awaiting events exactly if it has a descriptor and an interest.
abbrev pub await : Handle → Handle
await h = record h {
  awaiting = elim h.descriptor [ none ↦ false | some d ↦ any_event h.interests ];
}

abbrev pub map_await : List Handle → List Handle
map_await [] = []
map_await (h ∷ hs) = await h ∷ map_await hs

-- The sets are those of `s` and what the handles are interested in.
record Collects (hs : List Handle) (s t : Sets) : Type 0 where
  reading : (d : ℕ) → member d t.reading ≡ (wanted (λ e. e.reading) d hs || member d s.reading)
  writing : (d : ℕ) → member d t.writing ≡ (wanted (λ e. e.writing) d hs || member d s.writing)
  error : (d : ℕ) → member d t.error ≡ (wanted (λ e. e.error) d hs || member d s.error)

-- The bound of the sets, which is at most `setsize`.
record Bounded (setsize : ℕ) (s : Sets) : Type 0 where
  reading : AllBelow s.count s.reading
  writing : AllBelow s.count s.writing
  error : AllBelow s.count s.error
  count : s.count ≤ setsize

AllBelow-weaken : (m n : ℕ) (ds : List ℕ) → m ≤ n → AllBelow m ds → AllBelow n ds
AllBelow-weaken m n [] h a = tt
AllBelow-weaken m n (d ∷ ds) h a = (omega (arith, h, a.0), AllBelow-weaken m n ds h a.1)

AllBelow-add :
    (b : Bool) (n d : ℕ) (ds : List ℕ)
    → AllBelow n ds
    → (b ≡ true → d < n)
    → AllBelow n (if b then d ∷ ds else ds)
AllBelow-add true n d ds a h = (h refl, a)
AllBelow-add false n d ds a h = a

watched-Bounded :
    (setsize d : ℕ) (e : Events) (s : Sets)
    → (any_event e ≡ true → d < setsize)
    → Bounded setsize s
    → Bounded setsize (watched d e s)
watched-Bounded setsize d e s h b =
    let n = (watched d e s).count in
    let up : s.count ≤ n = ground arith in
    let below : any_event e ≡ true → d < n = λ q. ground (arith, q) in
    record {
      reading =
          AllBelow-add e.reading n d s.reading (AllBelow-weaken s.count n s.reading up b.reading)
            (λ q. below (ground (arith, q)));
      writing =
          AllBelow-add e.writing n d s.writing (AllBelow-weaken s.count n s.writing up b.writing)
            (λ q. below (ground (arith, q)));
      error =
          AllBelow-add e.error n d s.error (AllBelow-weaken s.count n s.error up b.error)
            (λ q. below (ground (arith, q)));
      count = ground (arith, h, b.count);
    }

member_add :
    (b : Bool) (x d : ℕ) (ds : List ℕ)
    → member d (if b then x ∷ ds else ds) ≡ ((b && (x == d)) || member d ds)
member_add true x d ds = refl
member_add false x d ds = refl

abbrev watched_sets : Option ℕ → Events → Sets → Sets
watched_sets none e s = s
watched_sets (some d) e s = watched d e s

and_false : (a b : Bool) → b ≡ ((a && false) || b)
and_false true b = refl
and_false false b = refl

-- The sets of `s` and a handle's descriptor, where it has an interest.
record Adds (o : Option ℕ) (e : Events) (s t : Sets) : Type 0 where
  reading : (d : ℕ) → member d t.reading ≡ ((e.reading && on d o) || member d s.reading)
  writing : (d : ℕ) → member d t.writing ≡ ((e.writing && on d o) || member d s.writing)
  error : (d : ℕ) → member d t.error ≡ ((e.error && on d o) || member d s.error)

watched_sets-Adds : (o : Option ℕ) (e : Events) (s : Sets) → Adds o e s (watched_sets o e s)
watched_sets-Adds none e s = record {
  reading = λ d. and_false e.reading (member d s.reading);
  writing = λ d. and_false e.writing (member d s.writing);
  error = λ d. and_false e.error (member d s.error);
}
watched_sets-Adds (some x) e s = record {
  reading = λ d. member_add e.reading x d s.reading;
  writing = λ d. member_add e.writing x d s.writing;
  error = λ d. member_add e.error x d s.error;
}

watch-ok :
    (setsize : ℕ) (h : Handle) (s : Sets)
    → ((d : ℕ) → h.descriptor ≡ some d → any_event h.interests ≡ true → d < setsize)
    → Bounded setsize s
    → (watch setsize h s ≡ ok (await h, watched_sets h.descriptor h.interests s))
      × Bounded setsize (watched_sets h.descriptor h.interests s)
unfolding watch
watch-ok setsize h s r b = elim (Option-cases h.descriptor) [
  | inl n ↦ (rw n refl, rw n b)
  | inr (d, n) ↦
      let l : (not (any_event h.interests) || ltb d setsize) ≡ true =
        elim (Bool-cases (any_event h.interests)) [
          | inl a ↦ ground (arith, a, r d n a)
          | inr a ↦ rw a refl
        ] in
      (rw (n, l) refl, rw n (watched-Bounded setsize d h.interests s (r d n) b))
]

or_swap : (a b c : Bool) → (b || (a || c)) ≡ ((a || b) || c)
or_swap true true c = refl
or_swap true false c = refl
or_swap false b c = refl

wanted_then :
    (kind : Events → Bool) (h : Handle) (hs : List Handle) (d : ℕ) (a b c : Bool)
    → a ≡ (wanted kind d hs || b)
    → b ≡ ((kind h.interests && on d h.descriptor) || c)
    → a ≡ (wanted kind d (h ∷ hs) || c)
wanted_then kind h hs d a b c p q =
    p
    ∙ ap (λ z. wanted kind d hs || z) q
    ∙ or_swap (kind h.interests && on d h.descriptor) (wanted kind d hs) c

Collects-then :
    (h : Handle) (hs : List Handle) (s t u : Sets)
    → Adds h.descriptor h.interests s t
    → Collects hs t u
    → Collects (h ∷ hs) s u
Collects-then h hs s t u x y = record {
  reading = λ d. wanted_then (λ e. e.reading) h hs d _ _ _ (y.reading d) (x.reading d);
  writing = λ d. wanted_then (λ e. e.writing) h hs d _ _ _ (y.writing d) (x.writing d);
  error = λ d. wanted_then (λ e. e.error) h hs d _ _ _ (y.error d) (x.error d);
}

collect-ok :
    (setsize : ℕ) (hs : List Handle) (s : Sets)
    → InRange setsize hs
    → Bounded setsize s
    → (t : Sets) × (collect setsize hs s ≡ ok (map_await hs, t))
      × Collects hs s t
      × Bounded setsize t
unfolding collect
collect-ok setsize [] s r b =
    (s, refl, record { reading = λ d. refl; writing = λ d. refl; error = λ d. refl }, b)
collect-ok setsize (h ∷ hs) s r b =
    let m = watched_sets h.descriptor h.interests s in
    let (e, b') = watch-ok setsize h s r.0 b in
    let (t, f, c, b'') = collect-ok setsize hs m r.1 b' in
    (
      t,
      rw (e, f) refl,
      Collects-then h hs s m t (watched_sets-Adds h.descriptor h.interests s) c,
      b'',
    )

Unused-map_await : (j : ℕ) (hs : List Handle) → Unused j hs → Unused j (map_await hs)
Unused-map_await j [] u = tt
Unused-map_await j (h ∷ hs) u = (u.0, Unused-map_await j hs u.1)

-- Different handles at addresses.
abbrev pub Apart : List Handle → Type 0
Apart [] = Unit
Apart (h ∷ hs) = Unused h.address hs × ((h.address == 0) ≡ false) × Apart hs

or_none : (a : Bool) → (a || false) ≡ a
or_none true = refl
or_none false = refl

map_await-WellFormed : (hs : List Handle) → Apart hs → WellFormed (map_await hs)
map_await-WellFormed [] a = tt
map_await-WellFormed (h ∷ hs) a =
    (Unused-map_await h.address hs a.0, (a.1, ground arith), map_await-WellFormed hs a.2)

-- Where every descriptor in which there is an interest is below FD_SETSIZE, no assertion fails in the
-- loop that collects the descriptors for `select`: each set holds exactly the descriptors of the
-- handles that are interested in this event, all of them are below the number passed to `select`,
-- and this is at most FD_SETSIZE. Afterwards the handles that await events are those with a descriptor
-- and an interest, and the list is as `ProcessSelectedFileHandles` requires it. The handles are at
-- different addresses.
pub collect_lem :
    (setsize : ℕ) (hs : List Handle)
    → InRange setsize hs
    → Apart hs
    → (t : Sets) × (collect setsize hs no_sets ≡ ok (map_await hs, t))
      × ((d : ℕ)
          → (member d t.reading ≡ wanted (λ e. e.reading) d hs)
            × (member d t.writing ≡ wanted (λ e. e.writing) d hs)
            × (member d t.error ≡ wanted (λ e. e.error) d hs))
      × (AllBelow t.count t.reading × AllBelow t.count t.writing × AllBelow t.count t.error)
      × (t.count ≤ setsize)
      × WellFormed (map_await hs)
collect_lem setsize hs r a =
    let (t, e, c, b) =
      collect-ok setsize hs no_sets r
        (record { reading = tt; writing = tt; error = tt; count = omega arith }) in
    (
      t,
      e,
      λ d. (c.reading d ∙ or_none _, c.writing d ∙ or_none _, c.error d ∙ or_none _),
      (b.reading, b.writing, b.error),
      b.count,
      map_await-WellFormed hs a,
    )
