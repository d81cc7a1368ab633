-- ===== src/Socket/Phases/Handlers.antt =====
-- The phases of a TCP socket under the handlers of the run loop (platform/posix/src/socket.c).
use homekit_bridge.Base.{
  ◌+◌, ◌≡◌, ◌⊎◌, inl, inr, refl, ap, sym, ◌∙◌, Bool, true, false, not, none, some, List, [], ◌∷◌,
  if_rule, if◌then◌else◌, arith, ◌==◌, is_empty, length, take, drop,
}
use mathlib.Core.Path.{subst}
use homekit_bridge.Base.Bytes.{Bytes}
use homekit_bridge.Base.Outcome.{Outcome, ok, abort}
use homekit_bridge.Socket.{
  tcp, st_connected, Socket, Err, err_ok, err_unknown, is_connected, is_some,
}
use homekit_bridge.Socket.Receive.{recv}
use homekit_bridge.Socket.Send.{Taking, takes, would_block, failed}
use homekit_bridge.Socket.{Mbuf}
use homekit_bridge.Socket.{Effect, Ready, call, recved_call}
use homekit_bridge.Socket.Connect.{handle_connect, connect_timeout, handle_accept, accept_timeout}
use homekit_bridge.Socket.Send.{finish, send_top, handle_send, mbuf_out}
use homekit_bridge.Socket.Receive.{Arriving, arrives, handle_recv, end_recv, recv_timeout}
use homekit_bridge.Socket.Receive
use homekit_bridge.Socket.Events.{EventAnswers, tcp_handle_event, handle_event, expire, unchanged}
use homekit_bridge.Socket.Phases.{Phase, unused, connecting, idle, receiving, listening, accepting}
use homekit_bridge.Socket.Phases.Opening.{
  Handled, handled, still, handle_connect-Phase, from_known, Ended, handle_accept-Ended,
}

end_recv-Phase :
    (t : Taking) (a : Arriving) (o : Socket)
    → o.state ≡ st_connected
    → o.receiving ≡ true
    → o.timer ≡ none
    → is_some o.remote_addr.family ≡ true
    → is_some o.recved_cb ≡ true
    → Handled t (end_recv a o)
unfolding end_recv Handled
end_recv-Phase t Receive.nothing o s r u k c =
    handled t (record { socket = o; calls = []; wire = [] }) (receiving s r (inl u) k c)
end_recv-Phase t Receive.broken o s r u k c =
    handled t
      (record {
        socket = record o { receiving = false };
        calls = call o.recved_cb (λ cb. recved_call cb err_unknown none o.cb_arg);
        wire = [];
      })
      (idle s refl u k)
end_recv-Phase t (arrives bytes sender) o s r u k c = inr (
  record {
    socket = record o { receiving = false };
    calls =
        call o.recved_cb
          (λ cb. recved_call cb err_ok (some (o.remote_addr, take o.recv_maxlen bytes)) o.cb_arg);
    wire = [];
  },
  ground (arith, s, k),
  idle s refl u k,
)

handle_recv-Phase :
    (t : Taking) (a : Arriving) (o : Socket)
    → Phase o
    → is_connected o.state ≡ true
    → Handled t (handle_recv a o)
unfolding handle_recv
handle_recv-Phase t a o (idle s r u k) e =
    if_rule (Handled t) (not o.receiving) (λ f. still t o (idle s r u k))
      (λ f. absurd (ground (arith, f, r)))
handle_recv-Phase t a o (receiving s r u k c) e =
    if_rule (Handled t) (not o.receiving) (λ f. absurd (ground (arith, f, r)))
      (λ f. end_recv-Phase t a (record o { timer = none }) s r refl k c)
handle_recv-Phase t a o (unused s r u) e = absurd (ground (arith, s, e))
handle_recv-Phase t a o (connecting s r u w k c) e = absurd (ground (arith, s, e))
handle_recv-Phase t a o (listening s r u) e = absurd (ground (arith, s, e))
handle_recv-Phase t a o (accepting s r u c) e = absurd (ground (arith, s, e))

-- What a write event changes, once a connection is made.
Phase-flushed :
    (ms : List Mbuf) (b w : Bool) (o : Socket)
    → Phase o
    → is_connected o.state ≡ true
    → Phase (record o { mbufs = ms; tail = b; writing = w })
Phase-flushed ms b w o (idle s r u k) e = idle s r u k
Phase-flushed ms b w o (receiving s r u k c) e = receiving s r u k c
Phase-flushed ms b w o (unused s r u) e = unused s r u
Phase-flushed ms b w o (listening s r u) e = listening s r u
Phase-flushed ms b w o (accepting s r u c) e = accepting s r u c
Phase-flushed ms b w o (connecting s r u v k c) e = absurd (ground (arith, s, e))

finish-Phase :
    (m : Mbuf) (ms : List Mbuf) (err : Err) (wire : Bytes) (o : Socket)
    → Phase o
    → is_connected o.state ≡ true
    → Phase (finish m ms err wire o).socket
unfolding finish
finish-Phase m ms err wire o p c =
    if_rule Phase (is_empty ms) (λ e. Phase-flushed ms (mbuf_out ms o).tail false o p c)
      (λ e. Phase-flushed ms (mbuf_out ms o).tail o.writing o p c)

send_top-Phase :
    (t : Taking) (m : Mbuf) (ms : List Mbuf) (o : Socket)
    → Phase o
    → is_connected o.state ≡ true
    → Handled t (send_top t m ms o)
unfolding send_top Handled
send_top-Phase would_block m ms o p c = inl (refl, refl)
send_top-Phase failed m ms o p c =
    handled failed (finish m ms err_unknown [] o) (finish-Phase m ms err_unknown [] o p c)
send_top-Phase (takes n) m ms o p c =
    let wire = take n (drop m.pos m.buf) in
    if_rule (Handled (takes n)) (length wire == length m.buf)
      (λ e. handled (takes n) (finish m ms err_ok wire o) (finish-Phase m ms err_ok wire o p c))
      λ e.
        if_rule (Handled (takes n)) m.all
          (λ f.
            handled (takes n)
              (record {
                socket = record o { mbufs = record m { pos = m.pos + length wire } ∷ ms };
                calls = [];
                wire = wire;
              })
              (Phase-flushed (record m { pos = m.pos + length wire } ∷ ms) o.tail o.writing o p c))
          (λ f. handled (takes n) (finish m ms err_ok wire o) (finish-Phase m ms err_ok wire o p c))

handle_send-Phase :
    (t : Taking) (o : Socket) → Phase o → is_connected o.state ≡ true → Handled t (handle_send t o)
unfolding handle_send
handle_send-Phase t o p c = go o.mbufs
  where
    go :
        (ms : List Mbuf)
        → Handled t (elim ms [
          | [] ↦ ok (record { socket = o; calls = []; wire = [] })
          | m ∷ ms ↦ send_top t m ms o
        ])
    go [] = still t o p
    go (m ∷ ms) = send_top-Phase t m ms o p c

-- The events of a connection.
open_event :
    (a : EventAnswers) (e : Ready) (o : Socket)
    → Phase o
    → is_connected o.state ≡ true
    → Handled a.taking (
        if e.reading
        then handle_recv a.arriving o
        else if e.writing
        then handle_send a.taking o
        else unchanged o)
open_event a e o p c =
    if_rule (Handled a.taking) e.reading (λ f. handle_recv-Phase a.taking a.arriving o p c)
      λ f.
        if_rule (Handled a.taking) e.writing (λ g. handle_send-Phase a.taking o p c)
          (λ g. still a.taking o p)

-- The handler of a TCP socket, by its state.
event_connected :
    (a : EventAnswers) (e : Ready) (o : Socket)
    → o.state ≡ st_connected
    → tcp_handle_event true a e o ≡ (
        if e.reading
        then handle_recv a.arriving o
        else if e.writing
        then handle_send a.taking o
        else unchanged o)
unfolding tcp_handle_event
event_connected a e o s = ground (arith, s)

by_eq : (a : EventAnswers) {r r' : Outcome Effect} → r ≡ r' → Handled a.taking r' → Ended a r
unfolding Ended
by_eq a q h = inl (subst (Handled a.taking) (sym q) h)

tcp_handle_event-Ended :
    (a : EventAnswers) (e : Ready) (o : Socket) → Phase o → Ended a (tcp_handle_event true a e o)
unfolding tcp_handle_event Ended
tcp_handle_event-Ended a e o (unused s r u) =
    let q : tcp_handle_event true a e o ≡ unchanged o = ground (arith, s) in
    by_eq a q (still a.taking o (unused s r u))
tcp_handle_event-Ended a e o (listening s r u) =
    let q : tcp_handle_event true a e o ≡ unchanged o = ground (arith, s) in
    by_eq a q (still a.taking o (listening s r u))
tcp_handle_event-Ended a e o (connecting s r u w k c) =
    let q : tcp_handle_event true a e o
        ≡ (if e.writing then handle_connect a.connecting o else unchanged o) =
      ground (arith, s) in
    by_eq a q (
      if_rule (Handled a.taking) e.writing
        (λ f. handle_connect-Phase a.taking a.connecting o s r w k c)
        (λ f. still a.taking o (connecting s r u w k c)))
tcp_handle_event-Ended a e o (accepting s r u c) =
    let q : tcp_handle_event true a e o
        ≡ (if e.reading then handle_accept a.accepting o else unchanged o) =
      ground (arith, s) in
    subst (Ended a) (sym q) (
      if_rule (Ended a) e.reading (λ f. handle_accept-Ended a o s r c)
        (λ f. inl (still a.taking o (accepting s r u c))))
tcp_handle_event-Ended a e o (idle s r u k) =
    by_eq a (event_connected a e o s) (open_event a e o (idle s r u k) (ap is_connected s))
tcp_handle_event-Ended a e o (receiving s r u k c) =
    by_eq a (event_connected a e o s) (open_event a e o (receiving s r u k c) (ap is_connected s))

-- A TCP socket's event handler keeps its phases and does not end the process, unless `sendto` would
-- block although the socket was reported ready for writing, or a connection is accepted from an
-- address without a family.
pub handle_event-Phase :
    (a : EventAnswers) (e : Ready) (o : Socket)
    → o.kind ≡ tcp
    → Phase o
    → ((handle_event true a e o ≡ abort)
        × ((a.taking ≡ would_block) ⊎ (from_known a.accepting ≡ false)))
      ⊎ ((x : Effect) × (handle_event true a e o ≡ ok x) × Phase x.socket)
unfolding handle_event Handled Ended
handle_event-Phase a e o k p =
    let q : handle_event true a e o ≡ tcp_handle_event true a e o = ground (arith, k) in
    elim (tcp_handle_event-Ended a e o p) [
      | inl (inl (r, t)) ↦ inl (q ∙ r, inl t)
      | inl (inr (x, r, h)) ↦ inr (x, q ∙ r, h)
      | inr (r, f) ↦ inl (q ∙ r, inr f)
    ]

expired : (o : Socket) (x : Effect) → expire o ≡ x → Phase x.socket → Phase (expire o).socket
expired o x q p = subst (λ (y : Effect). Phase y.socket) (sym q) p

not_running : (o : Socket) → o.timer ≡ none → Phase o → Phase (expire o).socket
unfolding expire
not_running o u p = expired o (record { socket = o; calls = []; wire = [] }) (ground (arith, u)) p

pub expire-Phase : (o : Socket) → Phase o → Phase (expire o).socket
unfolding expire connect_timeout accept_timeout recv_timeout
expire-Phase o (unused s r u) = not_running o u (unused s r u)
expire-Phase o (idle s r u k) = not_running o u (idle s r u k)
expire-Phase o (listening s r u) = not_running o u (listening s r u)
expire-Phase o (connecting s r (inl u) w k c) = not_running o u (connecting s r (inl u) w k c)
expire-Phase o (connecting s r (inr u) w k c) =
    expired o (connect_timeout o) (ground (arith, u)) (unused refl r refl)
expire-Phase o (accepting s r (inl u) c) = not_running o u (accepting s r (inl u) c)
expire-Phase o (accepting s r (inr u) c) =
    expired o (accept_timeout o) (ground (arith, u)) (listening refl r refl)
expire-Phase o (receiving s r (inl u) k c) = not_running o u (receiving s r (inl u) k c)
expire-Phase o (receiving s r (inr u) k c) =
    expired o (recv_timeout o) (ground (arith, u)) (idle s refl refl k)
