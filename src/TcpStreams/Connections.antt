-- ===== src/TcpStreams/Connections.antt =====
-- Connections to the listener of HAPPlatformTCPStreamManager.c.
use homekit_bridge.Base.{
  ℕ, ◌+◌, ◌<◌, ◌≡◌, inl, inr, refl, ap, ◌∙◌, true, false, Option, some, ◌==◌, arith, put, put_other,
  put_same,
}
use homekit_bridge.Base.Outcome.{ok}
use homekit_bridge.RunLoop.Handles.{Handle, find}
use homekit_bridge.TcpStreams.{Stream, Manager, Tcp, connected, accepted, no_stream, accept}
use homekit_bridge.TcpStreams.Valid.{Valid, room}
use homekit_bridge.TcpStreams.Actions.{Fresh}
use homekit_bridge.TcpStreams.Calls.{Listening-found}
use homekit_bridge.TcpStreams.Accepts.{after_accept, accept_cases, take_stream_manager}

-- While the listener is open and fewer streams than the maximum are open, the listener's file handle
-- waits for connections, and a connection gets a stream that was free, with the descriptor of the
-- connection; the other streams stay as they are, and one more is counted. Descriptors can be made
-- nonblocking and without delay, and there is memory for a file handle.
pub connection_accepted :
    (d : ℕ) (alloc : Option ℕ) (t : Tcp)
    → Valid t
    → t.manager.listener.managed ≡ true
    → t.manager.count < t.manager.max
    → Fresh alloc t
    → ((h : Handle) × (find t.manager.listener.handle t.handles.list ≡ some h)
        × (h.interests.reading ≡ true))
      × ((i : ℕ) × (u : Tcp) × (accept (connected d) true true alloc t ≡ ok (u, accepted i))
          × (i < t.manager.max)
          × (t.manager.streams i ≡ no_stream)
          × ((u.manager.streams i).descriptor ≡ some d)
          × ((j : ℕ) → (i == j) ≡ false → u.manager.streams j ≡ t.manager.streams j)
          × (u.manager.count ≡ t.manager.count + 1))
unfolding after_accept
connection_accepted d alloc t v m l (p, e, z, n) =
    let (h, f, x) =
      Listening-found (room t.manager) t.manager.listener t.handles.list v.listener m in
    (
      (h, f, x.waits (ground (arith, l))),
      elim (accept_cases (connected d) alloc t v m) [
        | inl (q, _) ↦ absurd (omega (arith, q, l))
        | inr (_, i, b, g, a) ↦
            let (u, k, w) = take_stream_manager t v i d p b g l m z n in
            let s : Stream = record no_stream { managed = true; descriptor = some d; handle = p } in
            let ss : u.manager.streams ≡ put t.manager.streams i s =
              ap (λ (y : Manager). y.streams) w in
            (
              i,
              u,
              a ∙ rw (e, k) refl,
              b,
              g,
              rw (ss, put_same t.manager.streams i s) refl,
              λ j c. rw (ss, put_other t.manager.streams i s j c) refl,
              ap (λ (y : Manager). y.count) w,
            )
      ],
    )
