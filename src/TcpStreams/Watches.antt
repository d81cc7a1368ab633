-- ===== src/TcpStreams/Watches.antt =====
-- The interests of the listener's file handle in HAPPlatformTCPStreamManager.c.
use mathlib.Core.Option.{some-injective}
use homekit_bridge.Base.{ℕ, ◌≡◌, inl, inr, refl, ap, sym, ◌∙◌, Bool, true, some, List, arith}
use homekit_bridge.Base.Outcome.{ok}
use homekit_bridge.RunLoop.Handles.{Handle, Handles, find, update_interests}
use homekit_bridge.RunLoop.Handles.Valid as Lists
use homekit_bridge.RunLoop.Handles.Changes.{unchanged, updates, Changes-Keeps}
use homekit_bridge.RunLoop.Handles.Find.{update_interests-found}
use homekit_bridge.TcpStreams.{Stream, Listener, listener_cb, stream_cb, for_reading}
use homekit_bridge.TcpStreams.Valid.{Streams, Listens, Not}
use homekit_bridge.TcpStreams.Kept.{other-Streams, put-Listens}
use homekit_bridge.TcpStreams.Calls.{Listening-found}

-- Where the listener waits for connections, it does so whether there is room or not.
pub Listens-room : (r : Bool) (l : Listener) (hs : List Handle) → Listens true l hs → Listens r l hs
Listens-room r l hs v = record {
  state = elim v.state [
    | inl n ↦ inl n
    | inr (h, f, x) ↦ inr (
      h,
      f,
      record {
        managed = x.managed;
        descriptor = x.descriptor;
        held = x.held;
        present = x.present;
        watched = x.watched;
        interests = x.interests;
        callback = x.callback;
        waits = λ _. x.waits refl;
        answers = x.answers;
      },
    )
  ];
  owned = v.owned;
}

-- The handles after the listener's interests were changed.
pub record Watched (b : Bool) (max : ℕ) (ss : ℕ → Stream) (r : Bool) (l : Listener) (hs : Handles)
    : Type 0 where
  pub handles : Handles
  pub updated : update_interests l.handle (for_reading b) listener_cb 0 hs ≡ ok handles
  pub valid : Lists.Valid handles
  pub streams : Streams max ss handles.list
  pub listener : Listens r l handles.list

pub watched :
    (b : Bool) (max : ℕ) (ss : ℕ → Stream) (r r' : Bool) (l : Listener) (hs : Handles)
    → Lists.Valid hs
    → Streams max ss hs.list
    → Listens r' l hs.list
    → l.managed ≡ true
    → (r ≡ true → b ≡ true)
    → Watched b max ss r l hs
watched b max ss r r' l hs v sv lv m w =
    let (h, f, x) = Listening-found r' l hs.list lv m in
    let (s, u, c) = update_interests-found hs l.handle h (for_reading b) listener_cb 0 f in
    let n : Handle = record h { interests = for_reading b; callback = listener_cb; context = 0 } in
    let old : Not stream_cb (find l.handle hs.list) = λ k q.
      ground
        (arith, ap (λ (y : Handle). y.callback) (some-injective h k (sym f ∙ q)), x.callback) in
    let new : Not stream_cb (some n) =
      λ k q. ground (arith, ap (λ (y : Handle). y.callback) (some-injective n k q)) in
    record {
      handles = s;
      updated = u;
      valid =
          (Changes-Keeps hs s v
            (updates hs hs s l.handle (for_reading b) listener_cb 0 u (unchanged hs))).valid;
      streams = other-Streams l.handle (some n) hs.list s.list c max ss old new sv;
      listener =
          put-Listens l.handle (some n) hs.list s.list c r r' l l lv (λ _. refl)
            (inr (
              n,
              refl,
              refl,
              record {
                managed = x.managed;
                descriptor = x.descriptor;
                held = x.held;
                present = x.present;
                watched = x.watched;
                interests = refl;
                callback = refl;
                waits = w;
                answers = x.answers;
              },
            ));
    }
