-- ===== src/TcpStreams/Safe.antt =====
-- Sequences of calls of HAPPlatformTCPStreamManager.c.
use homekit_bridge.Base.{
  ℕ, zero, suc, ◌≡◌, inl, refl, true, false, some, List, [], ◌∷◌, ◌==◌, arith,
}
use homekit_bridge.Base.Outcome.{Outcome, ok, abort, ◌>>=◌}
use homekit_bridge.RunLoop.Handles.{Handle, Handles, find}
use homekit_bridge.RunLoop.Handles.Valid as Lists
use homekit_bridge.TcpStreams.{Tcp, Manager, no_stream, no_listener, listener_cb, stream_cb, create}
use homekit_bridge.TcpStreams.Slots.{used}
use homekit_bridge.TcpStreams.Valid.{Valid}
use homekit_bridge.TcpStreams.Actions.{
  Action, opening, closing_listener, accepting, closing, updating, perform, run_calls, Allowed,
  AllAllowed, Safe,
}
use homekit_bridge.TcpStreams.Calls.{open_listener-Safe, close_listener-Safe}
use homekit_bridge.TcpStreams.Accepts.{accept-Safe}
use homekit_bridge.TcpStreams.Closes.{close-Safe, update_interests-Safe}

perform-Safe : (a : Action) (t : Tcp) → Valid t → Allowed a t → Safe (perform a t)
unfolding perform
perform-Safe (opening callback context a) t v (n, c, o) =
    open_listener-Safe callback context a t v n c o
perform-Safe closing_listener t v m = close_listener-Safe t v m
perform-Safe (accepting a nonblocking nodelay alloc) t v (m, e, f, g) =
    rw (e, f) (accept-Safe a alloc t v m g)
perform-Safe (closing i) t v m = close-Safe i t v m
perform-Safe (updating i bytes space callback context) t v (m, a) =
    update_interests-Safe i bytes space callback context t v m a

Safe-then :
    (r : Outcome Tcp) (f : Tcp → Outcome Tcp)
    → Safe r
    → ((t : Tcp) → r ≡ ok t → Valid t → Safe (f t))
    → Safe (r >>= f)
Safe-then abort f s h = absurd s
Safe-then (ok t) f s h = h t refl s

-- Whatever sequence of calls HomeKit's server makes for the listener and for streams, with the
-- conditions of the calls met and no system call failing that would end the process, no assertion
-- fails and no file handle is used after it was freed; and afterwards the count is that of the open
-- streams, each has the one file handle with its descriptor, its context and its interests, and the
-- listener waits for connections if a stream is free.
pub run_calls-Safe :
    (actions : List Action) (t : Tcp) → Valid t → AllAllowed actions t → Safe (run_calls actions t)
unfolding run_calls
run_calls-Safe [] t v h = v
run_calls-Safe (a ∷ more) t v h =
    Safe-then (perform a t) (run_calls more) (perform-Safe a t v h.0)
      (λ u e w. run_calls-Safe more u w (h.1 u e))

used_none : (i k : ℕ) → used (λ j. no_stream) i k ≡ 0
used_none i zero = refl
used_none i (suc k) = used_none (suc i) k

-- A manager that was just created, on a run loop without file handles of streams.
pub create-Valid :
    (port max : ℕ) (hs : Handles)
    → (max == 0) ≡ false
    → Lists.Valid hs
    → ((p : ℕ) (h : Handle)
        → find p hs.list ≡ some h
        → ((h.callback == stream_cb) ≡ false) × ((h.callback == listener_cb) ≡ false))
    → (m : Manager) × (create port max true ≡ ok m) × Valid (record { manager = m; handles = hs })
unfolding create
create-Valid port max hs z v n =
    let m : Manager = record {
      count = 0;
      max = max;
      port = port;
      listener = no_listener;
      streams = λ i. no_stream;
    } in
    (
      m,
      rw (create, z) refl,
      record {
        handles = v;
        count = ground (arith, used_none 0 max);
        streams = record {
          each = λ i. inl refl;
          owned = λ p h f c. absurd (ground (arith, (n p h f).0, c));
        };
        listener = record {
          state = inl refl;
          owned = λ p h f c. absurd (ground (arith, (n p h f).1, c));
        };
      },
    )
