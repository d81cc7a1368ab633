-- ===== src/TcpStreams/Calls.antt =====
-- The calls of HAPPlatformTCPStreamManager.c for the listener.
use mathlib.Core.Option.{some-injective}
use homekit_bridge.Base.{
  ℕ, ◌≡◌, inl, inr, refl, ap, sym, ◌∙◌, Bool, true, false, Option, none, some, List, ◌==◌, arith,
  zero, suc,
}
use homekit_bridge.Base.Outcome.{ok}
use homekit_bridge.RunLoop.Handles.{Handle, Handles, find, register}
use homekit_bridge.RunLoop.Handles.Valid.{Unused, Unused-find}
use homekit_bridge.RunLoop.Handles.Valid as Lists
use homekit_bridge.RunLoop.Handles.Changes.{unchanged, registers, deregisters, Changes-Keeps}
use homekit_bridge.RunLoop.Handles.Find.{find-register, deregister-found}
use homekit_bridge.TcpStreams.{Listener, Tcp, no_listener, listener_cb, stream_cb, for_reading}
use homekit_bridge.TcpStreams.Listeners.{Opening, listener_port, open_listener, close_listener}
use homekit_bridge.TcpStreams.Valid.{Listening, Listens, Set, Not, Valid, room}
use homekit_bridge.TcpStreams.Kept.{other-Streams, put-Listens}
use homekit_bridge.TcpStreams.Actions.{Opens, Safe}

pub register-Valid :
    (s : Handles) (p : ℕ) (d : Option ℕ) (b : Bool) (callback context : ℕ)
    → Lists.Valid s
    → (p == 0) ≡ false
    → Unused p s.list
    → Lists.Valid (register (some p) d (for_reading b) callback context s).0
register-Valid s p d b callback context v z u =
    (Changes-Keeps s (register (some p) d (for_reading b) callback context s).0 v
      (registers s s p d (for_reading b) callback context u z (unchanged s))).valid

closed :
    (r : Bool) (l : Listener) (hs : List Handle)
    → Listens r l hs
    → l.managed ≡ false
    → l ≡ no_listener
closed r l hs v c = elim v.state [
  | inl e ↦ e
  | inr (h, _, x) ↦ absurd (ground (arith, c, x.managed))
]

listener_port-given :
    (port : ℕ) (chosen : Option ℕ)
    → ((port == 0) ≡ true → (p : ℕ) × (chosen ≡ some p) × ((p == 0) ≡ false))
    → (q : ℕ) × (listener_port port chosen ≡ ok q)
unfolding listener_port
listener_port-given zero chosen h =
    let (p, e, z) = h refl in (p, rw (listener_port, e) (ground (arith, z)))
listener_port-given (suc p) chosen h = (suc p, refl)

pub open_listener-Safe :
    (callback context : ℕ) (a : Opening) (t : Tcp)
    → Valid t
    → (callback == 0) ≡ false
    → t.manager.listener.managed ≡ false
    → Opens a t
    → Safe (open_listener callback context a t)
unfolding open_listener register
open_listener-Safe callback context a t v n c o =
    let e = closed (room t.manager) t.manager.listener t.handles.list v.listener c in
    let (q, g) = listener_port-given t.manager.port a.chosen o.port in
    let (p, f, z, u) = o.fresh in
    let h : Handle = record {
      address = p;
      descriptor = some o.descriptor;
      interests = for_reading true;
      callback = listener_cb;
      context = 0;
      awaiting = false;
    } in
    let l : Listener = record {
      managed = true;
      port = q;
      descriptor = some o.descriptor;
      handle = p;
      callback = callback;
      context = context;
    } in
    let hs : List Handle = t.handles.list in
    let s : Handles =
      (register (some p) (some o.descriptor) (for_reading true) listener_cb 0 t.handles).0 in
    let w : Set p (some h) hs s.list =
      λ j. find-register t.handles j p (some o.descriptor) (for_reading true) listener_cb 0 u in
    let none_there : (c : ℕ) → Not c (find p hs) =
      λ c k b. absurd (ground (arith, sym (Unused-find p hs u) ∙ b)) in
    let new_one : Not stream_cb (some h) =
      λ k b. ground (arith, ap (λ (x : Handle). x.callback) (some-injective h k b)) in
    rw (Safe, e, n, o.socket, o.reuses, o.bound, g, o.listens, f)
      (record {
        handles = register-Valid t.handles p (some o.descriptor) true listener_cb 0 v.handles z u;
        count = v.count;
        streams =
            other-Streams p (some h) hs s.list w t.manager.max t.manager.streams
              (none_there stream_cb) new_one v.streams;
        listener =
            put-Listens p (some h) hs s.list w (room t.manager) (room t.manager) t.manager.listener
              l v.listener (λ m. absurd (ground (arith, c, m)))
              (inr (
                h,
                refl,
                refl,
                record {
                  managed = refl;
                  descriptor = o.descriptor;
                  held = refl;
                  present = z;
                  watched = refl;
                  interests = refl;
                  callback = refl;
                  waits = λ r. refl;
                  answers = n;
                },
              ));
      })

-- The file handle of the listener, when it is open.
pub Listening-found :
    (r : Bool) (l : Listener) (hs : List Handle)
    → Listens r l hs
    → l.managed ≡ true
    → (h : Handle) × (find l.handle hs ≡ some h) × Listening r l h
Listening-found r l hs v m = elim v.state [
  | inl e ↦
      let q : false ≡ true = sym (ap (λ (x : Listener). x.managed) e) ∙ m in
      absurd (ground (arith, q))
  | inr x ↦ x
]

pub close_listener-Safe :
    (t : Tcp) → Valid t → t.manager.listener.managed ≡ true → Safe (close_listener t)
unfolding close_listener
close_listener-Safe t v m =
    let l = t.manager.listener in
    let hs : List Handle = t.handles.list in
    let (h, f, x) = Listening-found (room t.manager) l hs v.listener m in
    let (s, d, w) = deregister-found t.handles l.handle h v.handles.formed f in
    let gone : (c : ℕ) → Not c none = λ c k b. absurd (ground (arith, b)) in
    let there : Not stream_cb (find l.handle hs) = λ k b.
      ground
        (arith, ap (λ (y : Handle). y.callback) (some-injective h k (sym f ∙ b)), x.callback) in
    rw (Safe, m, x.held, x.present, x.answers, d)
      (record {
        handles =
            (Changes-Keeps t.handles s v.handles
              (deregisters t.handles t.handles s l.handle d (unchanged t.handles))).valid;
        count = v.count;
        streams =
            other-Streams l.handle none hs s.list w t.manager.max t.manager.streams there
              (gone stream_cb) v.streams;
        listener =
            put-Listens l.handle none hs s.list w (room t.manager) (room t.manager) l no_listener
              v.listener (λ _. refl) (inl (refl, refl));
      })
