-- ===== src/TcpStreams/Accepts.antt =====
-- `HAPPlatformTCPStreamManagerAcceptTCPStream`.
use mathlib.Core.Path.{subst}
use mathlib.Core.Option.{some-injective}
use homekit_bridge.Base.{
  ℕ, ◌+◌, ◌-◌, ◌<◌, ◌≡◌, ◌⊎◌, inl, inr, refl, ap, sym, ◌∙◌, true, false, Option, none, some, ltb,
  ◌==◌, arith, Bool-cases, put,
}
use homekit_bridge.Base.Outcome.{Outcome, ok, abort, ◌>>=◌}
use homekit_bridge.RunLoop.Handles.{Handle, Handles, find, register}
use homekit_bridge.RunLoop.Handles.Valid.{Unused, Unused-find}
use homekit_bridge.RunLoop.Handles.Valid as Lists
use homekit_bridge.RunLoop.Handles.Find.{find-register}
use homekit_bridge.TcpStreams.{
  Stream, Tcp, Incoming, connected, nobody, refused, Accepted, accepted, busy, unknown,
  out_of_resources, no_stream, stream_cb, for_reading, free_from, watch_listener, take_stream,
  accept,
}
use homekit_bridge.TcpStreams.Slots.{in_use, used, free_from-found, used-put, used_bound}
use homekit_bridge.TcpStreams.Valid.{Streams, Listens, Set, Valid, room}
use homekit_bridge.TcpStreams.Kept.{put-Streams, other-Listens}
use homekit_bridge.TcpStreams.Actions.{Fresh, Safe, first}
use homekit_bridge.TcpStreams.Calls.{register-Valid, Listening-found}
use homekit_bridge.TcpStreams.Watches.{Listens-room, Watched, watched}

-- A stream that has no descriptor is free.
free :
    (t : Tcp) (i : ℕ)
    → Valid t
    → in_use (t.manager.streams i) ≡ false
    → t.manager.streams i ≡ no_stream
free t i v e = elim (v.streams.each i) [
  | inl n ↦ n
  | inr (h, _, x) ↦ absurd (ground (arith, e, x.held))
]

taken : ℕ → ℕ → Stream
taken d p = record no_stream { managed = true; descriptor = some d; handle = p }

module _ (t : Tcp) (v : Valid t) (i d p : ℕ) (inside : i < t.manager.max)
    (n : t.manager.streams i ≡ no_stream) (less : t.manager.count < t.manager.max)
    (m : t.manager.listener.managed ≡ true) (z : (p == 0) ≡ false)
    (u : Unused p t.handles.list) where
  after : Handles
  after = (register (some p) (some d) (for_reading false) stream_cb i t.handles).0

  next : Tcp
  next = record {
    manager = record t.manager {
      streams = put t.manager.streams i (taken d p);
      count = t.manager.count + 1;
    };
    handles = after;
  }

  handle : Handle
  handle = record {
    address = p;
    descriptor = some d;
    interests = for_reading false;
    callback = stream_cb;
    context = i;
    awaiting = false;
  }

  found : Set p (some handle) t.handles.list after.list
  unfolding after handle
  found j = find-register t.handles j p (some d) (for_reading false) stream_cb i u

  count_next : next.manager.count ≡ used next.manager.streams 0 next.manager.max
  unfolding next taken
  count_next =
      let c =
        used-put t.manager.streams i (taken d p) 0 t.manager.max (omega arith)
          (omega (arith, inside)) in
      let e : in_use (t.manager.streams i) ≡ false = ap in_use n in ground (arith, c, e, v.count)

  streams_next : Streams next.manager.max next.manager.streams after.list
  unfolding next taken handle
  streams_next =
      let e : find p t.handles.list ≡ none = Unused-find p t.handles.list u in
      put-Streams t.manager.max i p t.manager.streams (taken d p) (some handle) t.handles.list
        after.list v.streams (inl (n, e))
        (inr (
          handle,
          refl,
          refl,
          record {
            inside = inside;
            managed = refl;
            descriptor = d;
            held = refl;
            present = z;
            watched = refl;
            interests = refl;
            callback = refl;
            context = refl;
            answers = refl;
          },
        ))
        found

  Listens-next : Listens true t.manager.listener after.list
  unfolding handle
  Listens-next =
      let e : find p t.handles.list ≡ none = Unused-find p t.handles.list u in
      let r : room t.manager ≡ true = ground (arith, less) in
      other-Listens p (some handle) t.handles.list after.list found true t.manager.listener
        (λ k b. absurd (ground (arith, sym e ∙ b)))
        (λ k b. ground (arith, ap (λ (x : Handle). x.callback) (some-injective handle k b)))
        (subst (λ b. Listens b t.manager.listener t.handles.list) r v.listener)

  after-Valid : Lists.Valid after
  unfolding after
  after-Valid = register-Valid t.handles p (some d) false stream_cb i v.handles z u

  take_stream-Safe : Safe (take_stream i d true true (some p) t)
  unfolding take_stream register watch_listener after next taken
  take_stream-Safe = elim (Bool-cases (t.manager.max - (t.manager.count + 1) == 0)) [
    | inl q ↦
        let f : room next.manager ≡ false = ground (arith, q) in
        let w : Watched false t.manager.max next.manager.streams (room next.manager)
            t.manager.listener after =
          watched false t.manager.max next.manager.streams (room next.manager) true
            t.manager.listener after after-Valid streams_next Listens-next m
            (λ b. absurd (ground (arith, f, b))) in
        rw (Safe, n, q, w.updated)
          (record {
            handles = w.valid;
            count = count_next;
            streams = w.streams;
            listener = w.listener;
          })
    | inr q ↦
        rw (Safe, n, q)
          (record {
            handles = after-Valid;
            count = count_next;
            streams = streams_next;
            listener = Listens-room (room next.manager) t.manager.listener after.list Listens-next;
          })
  ]

  -- The stream `i` has the connection, and nothing else of the manager but the count is changed.
  pub take_stream_manager :
      (w : Tcp) × (take_stream i d true true (some p) t ≡ ok w)
      × (w.manager ≡ record t.manager {
        streams =
            put t.manager.streams i
              (record no_stream { managed = true; descriptor = some d; handle = p });
        count = t.manager.count + 1;
      })
  unfolding take_stream register watch_listener after next taken
  take_stream_manager = elim (Bool-cases (t.manager.max - (t.manager.count + 1) == 0)) [
    | inl q ↦
        let w : Watched false t.manager.max next.manager.streams false t.manager.listener after =
          watched false t.manager.max next.manager.streams false true t.manager.listener after
            after-Valid streams_next Listens-next m (λ b. b) in
        (
          record { manager = next.manager; handles = w.handles },
          rw (take_stream, n, q, w.updated) refl,
          refl,
        )
    | inr q ↦ (next, rw (take_stream, n, q) refl, refl)
  ]

less_than_all :
    (t : Tcp)
    → Valid t
    → (t.manager.count == t.manager.max) ≡ false
    → t.manager.count < t.manager.max
less_than_all t v q =
    let b = used_bound t.manager.streams 0 t.manager.max in ground (arith, b, v.count, q)

then_first : {A : Type 0} (r : Outcome Tcp) (x : A) → Safe r → Safe (first (r >>= λ u. ok (u, x)))
then_first (ok u) x s = s
then_first abort x s = s

unfoldable pub after_accept : Incoming → ℕ → Option ℕ → Tcp → Outcome (Tcp × Accepted)
after_accept nobody i alloc t = ok (t, busy)
after_accept refused i alloc t = ok (t, unknown)
after_accept (connected d) i alloc t = take_stream i d true true alloc t >>= λ u. ok (u, accepted i)

accept_free :
    (a : Incoming) (alloc : Option ℕ) (t : Tcp) (d i : ℕ)
    → t.manager.listener.managed ≡ true
    → t.manager.listener.descriptor ≡ some d
    → (t.manager.listener.handle == 0) ≡ false
    → (t.manager.count == t.manager.max) ≡ false
    → ltb t.manager.count t.manager.max ≡ true
    → free_from t.manager.streams 0 t.manager.max ≡ some i
    → t.manager.streams i ≡ no_stream
    → accept a true true alloc t ≡ after_accept a i alloc t
unfolding accept after_accept
accept_free nobody alloc t d i m c p q l f n = rw (accept, m, c, p, q, l, f, n) refl
accept_free refused alloc t d i m c p q l f n = rw (accept, m, c, p, q, l, f, n) refl
accept_free (connected x) alloc t d i m c p q l f n = rw (accept, m, c, p, q, l, f, n) refl

-- What the calls do with a listener that is open: nothing where all streams are in use, and otherwise
-- a free stream is taken for a connection.
pub accept_cases :
    (a : Incoming) (alloc : Option ℕ) (t : Tcp)
    → Valid t
    → t.manager.listener.managed ≡ true
    → ((t.manager.count ≡ t.manager.max) × (accept a true true alloc t ≡ ok (t, out_of_resources)))
      ⊎ ((t.manager.count < t.manager.max)
          × (i : ℕ) × (i < t.manager.max)
          × (t.manager.streams i ≡ no_stream)
          × (accept a true true alloc t ≡ after_accept a i alloc t))
unfolding accept after_accept
accept_cases a alloc t v m =
    let (h, f, x) =
      Listening-found (room t.manager) t.manager.listener t.handles.list v.listener m in
    elim (Bool-cases (t.manager.count == t.manager.max)) [
      | inl q ↦ inl (ground (arith, q), rw (accept, m, x.held, x.present, q) refl)
      | inr q ↦
          let l = less_than_all t v q in
          let (i, g, _, b, c) =
            free_from-found t.manager.streams 0 t.manager.max (ground (arith, l, v.count)) in
          let n = free t i v c in
          let b' : ltb t.manager.count t.manager.max ≡ true = ground (arith, l) in
          inr (
            l,
            i,
            omega (arith, b),
            n,
            accept_free a alloc t x.descriptor i m x.held x.present q b' g n,
          )
    ]

after_accept-Safe :
    (a : Incoming) (i p : ℕ) (t : Tcp)
    → Valid t
    → ((d : ℕ) → Safe (take_stream i d true true (some p) t))
    → Safe (first (after_accept a i (some p) t))
unfolding after_accept
after_accept-Safe nobody i p t v s = v
after_accept-Safe refused i p t v s = v
after_accept-Safe (connected d) i p t v s =
    then_first (take_stream i d true true (some p) t) (accepted i) (s d)

pub accept-Safe :
    (a : Incoming) (alloc : Option ℕ) (t : Tcp)
    → Valid t
    → t.manager.listener.managed ≡ true
    → Fresh alloc t
    → Safe (first (accept a true true alloc t))
accept-Safe a alloc t v m (p, e, z, u) = elim (accept_cases a alloc t v m) [
  | inl (_, q) ↦ rw q v
  | inr (l, i, b, n, q) ↦
      rw (q, e) (after_accept-Safe a i p t v (λ d. take_stream-Safe t v i d p b n l m z u))
]
