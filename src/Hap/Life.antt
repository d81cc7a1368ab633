-- ===== src/Hap/Life.antt =====
-- Sequences of calls of bridge/src/lhaplib.c.
use homekit_bridge.Base.{
  ℕ, ◌+◌, ◌≡◌, ◌⊎◌, inl, inr, refl, sym, ◌∙◌, Bool, true, false, Option, none, some, Bool-cases,
  List, [], ◌∷◌, arith,
}
use homekit_bridge.Hap.{
  Accessory, Desc, Result, done, raises, wrong, parsed, first_desc, deinit, get_new_bridged_aid,
  get_new_iid,
}
use homekit_bridge.Hap.Valid.{Valid}
use homekit_bridge.Hap.Actions.{
  Action, initializing, deinitializing, adding, starting, stopping, numbering, numbering_bridged,
  raising, unchanged, perform, performs, Allowed, AllAllowed, Safe,
}
use homekit_bridge.Hap.Raise.{raise_event}
use homekit_bridge.Hap.Events.{named, raise_event_lem}
use homekit_bridge.Hap.Adding.{add_bridged_accessory-Safe}
use homekit_bridge.Hap.Starting.{init-Safe, deinit-Safe, deinit_ready, stop-Safe}
use homekit_bridge.Hap.Serving.{start-Safe}

pub first_desc-Valid : Valid first_desc
first_desc-Valid = record {
  primary = λ i. absurd (ground (arith, i));
  before = λ _. refl;
  started = λ s. absurd (ground (arith, s));
  bridged = ([], record { held = refl; count = refl; room = refl });
}

numbered-Valid : (d : Desc) (n m : ℕ) → Valid d → Valid (record d { iid = n; bridged_aid = m })
numbered-Valid d n m v = record {
  primary = v.primary;
  before = v.before;
  started = v.started;
  bridged =
      let (bs, h) = v.bridged in (bs, record { held = h.held; count = h.count; room = h.room });
}

parsed-Safe : {A : Type 0} (o : Option A) (d : Desc) → Valid d → Safe (unchanged d (parsed o d))
parsed-Safe none d v = v
parsed-Safe (some x) d v = v

raise_early :
    (aid sid cid : ℕ) (d : Desc) → d.is_started ≡ false → raise_event aid sid cid d ≡ raises d
unfolding raise_event
raise_early aid sid cid d s = rw (raise_event, s) refl

raise_event-Safe :
    (aid sid cid : ℕ) (d : Desc) → Valid d → Safe (unchanged d (raise_event aid sid cid d))
raise_event-Safe aid sid cid d v = elim (Bool-cases d.is_started) [
  | inr s ↦ rw (raise_early aid sid cid d s) v
  | inl s ↦
      let (p, q, _) = v.primary (v.started s) in
      let (bs, h) = v.bridged in
      rw (raise_event_lem aid sid cid d p bs s q h) (parsed-Safe (named (p ∷ bs) aid sid cid) d v)
]

module _ {V : Type 0} (lua_type : V → ℕ) (is_valid : Accessory → Bool) where
  perform-Safe :
      (a : Action V) (d : Desc)
      → Valid d
      → Allowed lua_type is_valid a d
      → Safe (perform lua_type is_valid a d)
  unfolding perform get_new_bridged_aid get_new_iid
  perform-Safe (initializing allocates p callbacks) d v h =
      init-Safe d v lua_type allocates p callbacks h.0 h.1
  perform-Safe deinitializing d v h = deinit-Safe d v
  perform-Safe (adding allocates_array allocates p) d v (b, k, q) =
      rw b (add_bridged_accessory-Safe is_valid d v allocates p k q)
  perform-Safe (starting allocates) d v (p, b) = start-Safe allocates d v p b
  perform-Safe stopping d v h = stop-Safe d v
  perform-Safe numbering d v h = numbered-Valid d (d.iid + 1) d.bridged_aid v
  perform-Safe numbering_bridged d v h = numbered-Valid d d.iid (d.bridged_aid + 1) v
  perform-Safe (raising aid sid cid) d v h = raise_event-Safe aid sid cid d v

  module _ (a : Action V) (more : List (Action V)) (d e : Desc) where
    performs_done :
        perform lua_type is_valid a d ≡ done e
        → performs lua_type is_valid (a ∷ more) d ≡ performs lua_type is_valid more e
    unfolding performs
    performs_done q = rw (performs, q) refl

    performs_raises :
        perform lua_type is_valid a d ≡ raises e
        → performs lua_type is_valid (a ∷ more) d ≡ performs lua_type is_valid more e
    unfolding performs
    performs_raises q = rw (performs, q) refl

  -- What a call that is safe ends in.
  Safe-cases : (r : Result Desc) → Safe r → (e : Desc) × Valid e × ((r ≡ done e) ⊎ (r ≡ raises e))
  Safe-cases (done e) s = (e, s, inl refl)
  Safe-cases (raises e) s = (e, s, inr refl)
  Safe-cases wrong s = absurd s

  -- Whatever a Lua program calls of `init`, `deinit`, `addBridgedAccessory`, `start`, `stop`,
  -- `raiseEvent` and the two that give new identifiers, in whatever order, and whether the calls
  -- succeed or end in Lua errors:
  -- no memory is used that must not be, and afterwards the array holds as many accessories as are
  -- counted, followed by a null pointer within its room, what is initialized has a primary accessory
  -- with the identifier 1, and only what is initialized has bridged accessories or is started. This
  -- is so if no call finds no memory for the array, adds an accessory to one accessory in an array of
  -- two cells, or starts with a list of services or of characteristics missing, and if the keys that
  -- are looked at in the tables of accessories and of callbacks are strings or numbers. What the
  -- functions that read the values of an accessory's table do to memory is not part of it.
  pub performs-Valid :
      (actions : List (Action V)) (d : Desc)
      → Valid d
      → AllAllowed lua_type is_valid actions d
      → (e : Desc) × (performs lua_type is_valid actions d ≡ some e) × Valid e
  unfolding performs
  performs-Valid [] d v h = (d, refl, v)
  performs-Valid (a ∷ more) d v h =
      let (e, w, c) = Safe-cases (perform lua_type is_valid a d) (perform-Safe a d v h.0) in
      elim c [
        | inl q ↦
            let (f, r, x) = performs-Valid more e w (h.1 e q) in
            (f, performs_done a more d e q ∙ r, x)
        | inr q ↦
            let (f, r, x) = performs-Valid more e w (h.2 e q) in
            (f, performs_raises a more d e q ∙ r, x)
      ]

-- After `deinit` the first new identifier for a bridged accessory is 1, which is that of the primary
-- accessory of every descriptor that is initialized.
pub new_aid_after_deinit :
    (d : Desc)
    → Valid d
    → d.inited ≡ true
    → d.is_started ≡ false
    → (p : Accessory) × (d.primary_acc ≡ some p)
      × (e : Desc) × (deinit d ≡ done e)
      × ((get_new_bridged_aid e).1 ≡ p.aid)
unfolding get_new_bridged_aid
new_aid_after_deinit d v i s =
    let (p, q, a) = v.primary i in
    (p, q, record first_desc { bridged_aid = 1 }, deinit_ready d v i s, sym a)
