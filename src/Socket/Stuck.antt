-- ===== src/Socket/Stuck.antt =====
-- Buffers that stay in the queue of platform/posix/src/socket.c: one that is resumed, and those queued
-- before a connection.
use homekit_bridge.Base.{
  ℕ, ◌+◌, ◌≤◌, ◌≡◌, refl, Bool, true, false, Option, none, List, [], ◌∷◌, ◌++◌, length, take, drop,
  length-take, length-drop, arith, ◌==◌,
}
use homekit_bridge.Base.Bytes.{Bytes}
use homekit_bridge.Base.Outcome.{Outcome, ok, ◌>>=◌}
use homekit_bridge.Socket.{
  Family, err_in_progress, mbuf_in, st_connecting, is_some, Mbuf, Socket, Call, Effect,
}
use homekit_bridge.Socket.Connect.{connects, handle_connect, end_connect}
use homekit_bridge.Socket.Send.{
  takes, would_block, Sent, send_to, transmit, enqueue, new_mbuf, send_top, handle_send,
}

-- Write events in turn, at which the system takes at most so many bytes: the last socket, and the
-- calls of callbacks.
unfoldable pub pump : List ℕ → Socket → Outcome (Socket × List Call)
pump [] o = ok (o, [])
pump (n ∷ ns) o = do e ← handle_send (takes n) o; r ← pump ns e.socket; ok (r.0, e.calls ++ r.1)

-- A buffer that is to be sent whole, and of which a write event has sent a part.
pub record Resumed (m : Mbuf) : Type 0 where
  pub all : m.all ≡ true
  pub begun : 1 ≤ m.pos
  pub within : m.pos ≤ length m.buf

send_top-Resumed :
    (n : ℕ) (m : Mbuf) (ms : List Mbuf) (o : Socket)
    → Resumed m
    → let wire = take n (drop m.pos m.buf) in
      let m' = record m { pos = m.pos + length wire } in
      (send_top (takes n) m ms o
        ≡ ok (record { socket = record o { mbufs = m' ∷ ms }; calls = []; wire = wire }))
      × Resumed m'
unfolding send_top
send_top-Resumed n m ms o r = (
  ground (arith, short, r.all),
  record { all = r.all; begun = omega (arith, r.begun); within = omega (arith, bound, r.within) },
)
  where
    bound : length (take n (drop m.pos m.buf)) + m.pos ≤ length m.buf
    bound = omega (arith, r.within, length-take n (drop m.pos m.buf), length-drop m.pos m.buf)

    short : (length (take n (drop m.pos m.buf)) == length m.buf) ≡ false
    short = ground (arith, bound, r.begun)

-- A buffer that is to be sent whole and needs a second write event never leaves the queue: whatever
-- write events follow and however many bytes the system takes, it stays the first, no callback is
-- called, and the buffers behind it are not sent.
pub pump_stuck :
    (ns : List ℕ) (m : Mbuf) (ms : List Mbuf) (o : Socket)
    → o.mbufs ≡ m ∷ ms
    → Resumed m
    → (o' : Socket) × (k : ℕ) × (pump ns o ≡ ok (o', [])) × (o'.mbufs ≡ record m { pos = k } ∷ ms)
unfolding pump handle_send
pump_stuck [] m ms o e r = (o, m.pos, refl, e)
pump_stuck (n ∷ ns) m ms o e r =
    let wire = take n (drop m.pos m.buf) in
    let m' : Mbuf = record m { pos = m.pos + length wire } in
    let (q, r') = send_top-Resumed n m ms o r in
    let (o', k, p, s) = pump_stuck ns m' ms (record o { mbufs = m' ∷ ms }) refl r' in
    (o', k, ground (arith, e, q, p), s)

-- A message that is submitted while the socket connects, where `sendto` blocks, is not sent when the
-- connection is made: it stays in the queue, but the handler ends the socket's interest in writing,
-- without which there is no write event. The queue has an end, the remote address a family.
pub send_to_muted :
    (inet_pton : Family → Bytes → Option Bytes) (bytes : Bytes) (all : Bool) (cb arg : ℕ)
    (o : Socket)
    → o.state ≡ st_connecting
    → o.tail ≡ true
    → is_some o.remote_addr.family ≡ true
    → (r : Sent) × (x : Effect) × (send_to inet_pton
          (record { sys = would_block; memory = true })
          bytes
          none
          all
          cb
          arg
          o
        ≡ ok r)
      × (r.err ≡ err_in_progress)
      × (handle_connect connects r.socket ≡ ok x)
      × (x.socket.mbufs ≡ o.mbufs ++ new_mbuf bytes none all cb arg ∷ [])
      × (x.socket.writing ≡ false)
unfolding send_to transmit enqueue mbuf_in handle_connect end_connect
send_to_muted inet_pton bytes all cb arg o s t k = (
  record { socket = queued; err = err_in_progress; len = 0; wire = [] },
  end_connect connects (record queued { timer = none }),
  ground (arith, t, k),
  refl,
  ground (arith, s, k),
  refl,
  refl,
)
  where
    queued : Socket
    queued = record o { mbufs = o.mbufs ++ new_mbuf bytes none all cb arg ∷ []; writing = true }
