-- ===== src/TcpStreams/Closes.antt =====
-- `HAPPlatformTCPStreamClose` and `HAPPlatformTCPStreamUpdateInterests`.
use mathlib.Core.Path.{subst}
use mathlib.Core.Option.{some-injective}
use homekit_bridge.Base.{
  ℕ, ◌-◌, ◌≡◌, inl, inr, refl, ap, sym, ◌∙◌, Bool, true, false, not, ◌&&◌, ◌||◌, none, some, List,
  ltb, leb, ◌==◌, if◌then◌else◌, arith, Bool-cases, put,
}
use homekit_bridge.Base.Outcome.{ok}
use homekit_bridge.RunLoop.Handles.{Events, Handle, Handles, find}
use homekit_bridge.RunLoop.Handles as Calls
use homekit_bridge.RunLoop.Handles.Valid as Lists
use homekit_bridge.RunLoop.Handles.Changes.{unchanged, updates, deregisters, Changes-Keeps}
use homekit_bridge.RunLoop.Handles.Find.{update_interests-found, deregister-found}
use homekit_bridge.TcpStreams.{
  Stream, Manager, Tcp, no_listener, no_stream, listener_cb, stream_cb, require_open,
  watch_listener, resume, close, update_interests,
}
use homekit_bridge.TcpStreams.Slots.{in_use, used, used-put, used_bound}
use homekit_bridge.TcpStreams.Valid.{Open, Streams, Listens, Not, Valid, room}
use homekit_bridge.TcpStreams.Kept.{put-Streams, other-Listens}
use homekit_bridge.TcpStreams.Actions.{Safe}
use homekit_bridge.TcpStreams.Watches.{Listens-room, Watched, watched}

-- The file handle of a stream that is open.
pub Open-found :
    (max : ℕ) (ss : ℕ → Stream) (hs : List Handle) (i : ℕ)
    → Streams max ss hs
    → (ss i).managed ≡ true
    → (h : Handle) × (find (ss i).handle hs ≡ some h) × Open max i (ss i) h
Open-found max ss hs i v m = elim (v.each i) [
  | inl e ↦
      let q : false ≡ true = sym (ap (λ (s : Stream). s.managed) e) ∙ m in
      absurd (ground (arith, q))
  | inr x ↦ x
]

-- A stream's file handle is not the listener's.
stream_handle :
    (max i p : ℕ) (s : Stream) (h : Handle) (hs : List Handle)
    → find p hs ≡ some h
    → Open max i s h
    → Not listener_cb (find p hs)
stream_handle max i p s h hs f x k b =
    ground (arith, ap (λ (y : Handle). y.callback) (some-injective h k (sym f ∙ b)), x.callback)

module _ (m : Manager) (hs : Handles) where
  resume_closed :
      m.listener ≡ no_listener
      → resume (record { manager = m; handles = hs }) ≡ ok (record { manager = m; handles = hs })
  unfolding resume
  resume_closed e = rw (resume, e) refl

  resume_open :
      (d : ℕ)
      → m.listener.managed ≡ true
      → m.listener.descriptor ≡ some d
      → (m.listener.handle == 0) ≡ false
      → resume (record { manager = m; handles = hs }) ≡ (
          if m.max - m.count == 1
          then watch_listener true (record { manager = m; handles = hs })
          else ok (record { manager = m; handles = hs }))
  unfolding resume
  resume_open d e f g = rw (resume, e, f, g) refl

  -- The listener when a stream was closed: the manager has room now, and had it with one stream more.
  resume-Safe :
      (before : Bool)
      → Lists.Valid hs
      → m.count ≡ used m.streams 0 m.max
      → Streams m.max m.streams hs.list
      → Listens before m.listener hs.list
      → ((m.max - m.count == 1) ≡ false → before ≡ true)
      → Safe (resume (record { manager = m; handles = hs }))
  unfolding watch_listener
  resume-Safe before v c s l b = elim l.state [
    | inl e ↦ rw (resume_closed e) (record {
      handles = v;
      count = c;
      streams = s;
      listener = record { state = inl e; owned = l.owned };
    })
    | inr (h, f, x) ↦ elim (Bool-cases (m.max - m.count == 1)) [
      | inl q ↦
          let w : Watched true m.max m.streams (room m) m.listener hs =
            watched true m.max m.streams (room m) before m.listener hs v s l x.managed
              (λ _. refl) in
          rw (resume_open x.descriptor x.managed x.held x.present, q, w.updated)
            (record { handles = w.valid; count = c; streams = w.streams; listener = w.listener })
      | inr q ↦
          rw (resume_open x.descriptor x.managed x.held x.present, q)
            (record {
              handles = v;
              count = c;
              streams = s;
              listener =
                  Listens-room (room m) m.listener hs.list
                    (subst (λ r. Listens r m.listener hs.list) (b q) l);
            })
    ]
  ]

pub close-Safe :
    (i : ℕ) (t : Tcp) → Valid t → (t.manager.streams i).managed ≡ true → Safe (close i t)
unfolding close require_open
close-Safe i t v m =
    let ss = t.manager.streams in
    let max = t.manager.max in
    let hs = t.handles.list in
    let (h, f, x) = Open-found max ss hs i v.streams m in
    let p = (ss i).handle in
    let (s, d, w) = deregister-found t.handles p h v.handles.formed f in
    let c = used-put ss i no_stream 0 max (omega arith) (omega (arith, x.inside)) in
    let n : in_use (ss i) ≡ true = ground (arith, x.held) in
    let b = used_bound ss 0 max in
    let l : leb t.manager.count max ≡ true = ground (arith, b, v.count) in
    let g : ltb 0 t.manager.count ≡ true = ground (arith, c, n, v.count) in
    let next : Manager = record t.manager {
      streams = put ss i no_stream;
      count = t.manager.count - 1;
    } in
    rw (Safe, m, x.held, x.present, d, l, g)
      (resume-Safe next s (room t.manager)
        (Changes-Keeps t.handles s v.handles
          (deregisters t.handles t.handles s p d (unchanged t.handles))).valid
        (ground (arith, c, n, v.count))
        (put-Streams max i p ss no_stream none hs s.list v.streams (inr (h, f, refl, x))
          (inl (refl, refl)) w)
        (other-Listens p none hs s.list w (room t.manager) t.manager.listener
          (stream_handle max i p (ss i) h hs f x) (λ k q. absurd (ground (arith, q))) v.listener)
        (λ q. ground (arith, q, l, g)))

asking : Stream → Bool → Bool → ℕ → ℕ → Stream
asking s bytes space callback context = record s {
  has_bytes_available = bytes;
  has_space_available = space;
  callback = callback;
  context = context;
}

update_interests_open :
    (i d : ℕ) (bytes space : Bool) (callback context : ℕ) (t : Tcp) (hs : Handles)
    → (not (bytes || space) || not (callback == 0)) ≡ true
    → (t.manager.streams i).managed ≡ true
    → (t.manager.streams i).descriptor ≡ some d
    → ((t.manager.streams i).handle == 0) ≡ false
    → Calls.update_interests
        (t.manager.streams i).handle
        (record { reading = bytes; writing = space; error = false })
        stream_cb
        i
        t.handles
      ≡ ok hs
    → update_interests i bytes space callback context t
      ≡ ok (record {
        manager = record t.manager {
          streams =
              put t.manager.streams i (asking (t.manager.streams i) bytes space callback context);
        };
        handles = hs;
      })
unfolding update_interests require_open asking
update_interests_open i d bytes space callback context t hs b m h p u =
    rw (update_interests, b, m, h, p, u) refl

pub update_interests-Safe :
    (i : ℕ) (bytes space : Bool) (callback context : ℕ) (t : Tcp)
    → Valid t
    → (t.manager.streams i).managed ≡ true
    → ((bytes || space) && (callback == 0)) ≡ false
    → Safe (update_interests i bytes space callback context t)
unfolding asking
update_interests-Safe i bytes space callback context t v m a =
    let ss = t.manager.streams in
    let max = t.manager.max in
    let hs = t.handles.list in
    let (h, f, x) = Open-found max ss hs i v.streams m in
    let p = (ss i).handle in
    let e : Events = record { reading = bytes; writing = space; error = false } in
    let (s, d, w) = update_interests-found t.handles p h e stream_cb i f in
    let n : Handle = record h { interests = e; callback = stream_cb; context = i } in
    let u : Stream = asking (ss i) bytes space callback context in
    let c = used-put ss i u 0 max (omega arith) (omega (arith, x.inside)) in
    let b : (not (bytes || space) || not (callback == 0)) ≡ true = ground (arith, a) in
    rw
      (update_interests_open i x.descriptor bytes space callback context t s b m x.held x.present d)
      (record {
        handles =
            (Changes-Keeps t.handles s v.handles
              (updates t.handles t.handles s p e stream_cb i d (unchanged t.handles))).valid;
        count = ground (arith, c, v.count);
        streams =
            put-Streams max i p ss u (some n) hs s.list v.streams (inr (h, f, refl, x))
              (inr (
                n,
                refl,
                refl,
                record {
                  inside = x.inside;
                  managed = m;
                  descriptor = x.descriptor;
                  held = x.held;
                  present = x.present;
                  watched = x.watched;
                  interests = refl;
                  callback = refl;
                  context = refl;
                  answers = a;
                },
              ))
              w;
        listener =
            other-Listens p (some n) hs s.list w (room t.manager) t.manager.listener
              (stream_handle max i p (ss i) h hs f x)
              (λ k q. ground (arith, ap (λ (y : Handle). y.callback) (some-injective n k q)))
              v.listener;
      })
