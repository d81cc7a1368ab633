-- ===== src/Socket/Phases/Reachable.antt =====
-- The states that a TCP socket reaches by any sequence of calls and events
-- (platform/posix/src/socket.c).
use homekit_bridge.Base.{
  ℕ, ◌≡◌, ◌≢◌, ◌⊎◌, inl, inr, refl, sym, ◌∙◌, Bool, true, false, Option, none, some, arith,
}
use mathlib.Core.Path.{subst}
use homekit_bridge.Base.Bytes.{Bytes}
use homekit_bridge.Base.Outcome.{ok}
use homekit_bridge.Socket.{
  Family, Kind, tcp, Socket, Addr, Err, Effect, Ready, CreateAnswers, create, blank, is_some,
  is_none, is_listened, is_connected, set_timeout, mbuf_in,
}
use homekit_bridge.Socket.Connect.{
  Connecting, AcceptAnswers, connect, begin_connect, listen, accept, begin_accept, accept_async,
  new_socket, handle_connect, end_connect, connect_timeout, handle_accept, end_accept,
  accept_timeout,
}
use homekit_bridge.Socket.Send.{
  would_block, SendAnswers, Sent, send_to, transmit, enqueue, finish, send_top, handle_send,
}
use homekit_bridge.Socket.Receive.{recv, handle_recv, end_recv, recv_timeout}
use homekit_bridge.Socket.Events.{
  EventAnswers, handle_event, tcp_handle_event, udp_handle_event, expire,
}
use homekit_bridge.Socket.Phases.{
  Phase, unused, idle, TcpValid, Keeps-ok, Phase-none, Phase-listened, Phase-connected,
}
use homekit_bridge.Socket.Phases.Calls.{
  set_timeout-Phase, connect-Phase, listen-Phase, accept-Phase, recv-Phase, send_to-Phase,
}
use homekit_bridge.Socket.Phases.Handlers.{handle_event-Phase, expire-Phase}
use homekit_bridge.Socket.Phases.Opening.{from_known}

module _ (inet_pton : Family → Bytes → Option Bytes) where
  -- One call of the program, or one of the run loop, that does not end the process.
  pub data Step : Socket → Socket → Type 0 where
    timeouts : (ms : ℕ) (o : Socket) → Step o (set_timeout ms o)
    connects_to :
        (a : Connecting) (b : Bool) (text : Bytes) (port cb arg : ℕ) (o : Socket)
        → Step o (connect inet_pton a b text port cb arg o).0
    listens : (b : Bool) (o : Socket) → Step o (listen b o).0
    accepts_one :
        (a : AcceptAnswers) (b : Bool) (cb arg : ℕ) (o o' : Socket) (err : Err)
        (new : Option (Socket × Addr))
        → accept a b cb arg o ≡ ok (o', err, new)
        → Step o o'
    sends :
        (a : SendAnswers) (bytes : Bytes) (addr : Option (Bytes × ℕ)) (all : Bool) (cb arg : ℕ)
        (o : Socket) (r : Sent)
        → send_to inet_pton a bytes addr all cb arg o ≡ ok r
        → Step o r.socket
    receives :
        (b : Bool) (maxlen cb arg : ℕ) (o o' : Socket) (e : Err)
        → recv b maxlen cb arg o ≡ ok (o', e)
        → Step o o'
    becomes_ready :
        (own : Bool) (a : EventAnswers) (e : Ready) (o : Socket) (x : Effect)
        → handle_event own a e o ≡ ok x
        → Step o x.socket
    expires : (o : Socket) → Step o (expire o).socket

  -- From a socket of `pal_socket_create`, or one that was accepted.
  pub data Reachable : Socket → Type 0 where
    created :
        (a : CreateAnswers) (k : Kind) (af : Family) (o : Socket)
        → create a k af ≡ some o
        → Reachable o
    accepted :
        (from : Addr) (o : Socket) → is_some from.family ≡ true → Reachable (new_socket from o)
    onward : (o o' : Socket) → Reachable o → Step o o' → Reachable o'

  connect-kind :
      (a : Connecting) (b : Bool) (text : Bytes) (port cb arg : ℕ) (o : Socket)
      → (connect inet_pton a b text port cb arg o).0.kind ≡ o.kind
  unfolding connect begin_connect
  connect-kind a b text port cb arg o = ground arith

  accept-kind :
      (a : AcceptAnswers) (b : Bool) (cb arg : ℕ) (o o' : Socket) (err : Err)
      (new : Option (Socket × Addr))
      → accept a b cb arg o ≡ ok (o', err, new)
      → o'.kind ≡ o.kind
  unfolding accept begin_accept accept_async
  accept-kind a b cb arg o o' err new q = ground arith

  send_to-kind :
      (a : SendAnswers) (bytes : Bytes) (addr : Option (Bytes × ℕ)) (all : Bool) (cb arg : ℕ)
      (o : Socket) (r : Sent)
      → send_to inet_pton a bytes addr all cb arg o ≡ ok r
      → r.socket.kind ≡ o.kind
  unfolding send_to transmit enqueue mbuf_in
  send_to-kind a bytes addr all cb arg o r e = ground arith

  recv-kind :
      (b : Bool) (maxlen cb arg : ℕ) (o o' : Socket) (e : Err)
      → recv b maxlen cb arg o ≡ ok (o', e)
      → o'.kind ≡ o.kind
  unfolding recv
  recv-kind b maxlen cb arg o o' e q = ground arith

  handle_event-kind :
      (own : Bool) (a : EventAnswers) (e : Ready) (o : Socket) (x : Effect)
      → handle_event own a e o ≡ ok x
      → x.socket.kind ≡ o.kind
  unfolding handle_event tcp_handle_event udp_handle_event handle_connect end_connect handle_accept
      end_accept accept_async handle_recv end_recv handle_send send_top finish
  handle_event-kind own a e o x q = ground arith

  expire-kind : (o : Socket) → (expire o).socket.kind ≡ o.kind
  unfolding expire connect_timeout accept_timeout recv_timeout
  expire-kind o = ground arith

  Step-kind : (o o' : Socket) → Step o o' → o'.kind ≡ o.kind
  unfolding set_timeout listen
  Step-kind _ _ (timeouts ms o) = refl
  Step-kind _ _ (connects_to a b text port cb arg o) = connect-kind a b text port cb arg o
  Step-kind _ _ (listens b o) = ground arith
  Step-kind _ _ (accepts_one a b cb arg o o' err new q) = accept-kind a b cb arg o o' err new q
  Step-kind _ _ (sends a bytes addr all cb arg o r q) = send_to-kind a bytes addr all cb arg o r q
  Step-kind _ _ (receives b maxlen cb arg o o' e q) = recv-kind b maxlen cb arg o o' e q
  Step-kind _ _ (becomes_ready own a e o x q) = handle_event-kind own a e o x q
  Step-kind _ _ (expires o) = expire-kind o

  created-blank :
      (a : CreateAnswers) (k : Kind) (af : Family) (o : Socket)
      → create a k af ≡ some o
      → o ≡ record (blank k af) { tail = true }
  unfolding create
  created-blank a k af o e = ground arith

  ready-Phase :
      (own : Bool) (a : EventAnswers) (e : Ready) (o : Socket) (x : Effect)
      → o.kind ≡ tcp
      → Phase o
      → handle_event own a e o ≡ ok x
      → Phase x.socket
  unfolding handle_event tcp_handle_event
  ready-Phase false a e o x k p q = absurd (ground (arith, k, q))
  ready-Phase true a e o x k p q = elim (handle_event-Phase a e o k p) [
    | inl (n, t) ↦ absurd (ground (arith, n, q))
    | inr (y, r, h) ↦
        let w : y ≡ x = ground (arith, r, q) in subst (λ (z : Effect). Phase z.socket) w h
  ]

  Step-Phase : (o o' : Socket) → Step o o' → o.kind ≡ tcp → Phase o → Phase o'
  Step-Phase _ _ (timeouts ms o) k p = set_timeout-Phase ms o p
  Step-Phase _ _ (connects_to a b text port cb arg o) k p =
      connect-Phase inet_pton a b text port cb arg o p
  Step-Phase _ _ (listens b o) k p = listen-Phase b o p
  Step-Phase _ _ (accepts_one a b cb arg o o' err new q) k p =
      Keeps-ok (λ (s : Socket × Err × Option (Socket × Addr)). s.0) (accept a b cb arg o)
        (o', err, new) (accept-Phase a b cb arg o p) q
  Step-Phase _ _ (sends a bytes addr all cb arg o r q) k p =
      Keeps-ok (λ (s : Sent). s.socket) (send_to inet_pton a bytes addr all cb arg o) r
        (send_to-Phase inet_pton a bytes addr all cb arg o p) q
  Step-Phase _ _ (receives b maxlen cb arg o o' e q) k p =
      Keeps-ok (λ (s : Socket × Err). s.0) (recv b maxlen cb arg o) (o', e)
        (recv-Phase b maxlen cb arg o k p) q
  Step-Phase _ _ (becomes_ready own a e o x q) k p = ready-Phase own a e o x k p q
  Step-Phase _ _ (expires o) k p = expire-Phase o p

  -- Every call and every event takes a TCP socket from a phase to a phase: in each, the state, the
  -- reception under way and the running timer fit together.
  pub Step-TcpValid : (o o' : Socket) → Step o o' → TcpValid o → TcpValid o'
  Step-TcpValid o o' s v = record {
    is_tcp_socket = Step-kind o o' s ∙ v.is_tcp_socket;
    phase = Step-Phase o o' s v.is_tcp_socket v.phase;
  }

  -- A TCP socket is always in one of its phases.
  pub Reachable-TcpValid : (o : Socket) → Reachable o → o.kind ≡ tcp → TcpValid o
  Reachable-TcpValid _ (created a k af o e) t = record {
    is_tcp_socket = t;
    phase = subst Phase (sym (created-blank a k af o e)) (unused refl refl refl);
  }
  Reachable-TcpValid _ (accepted from o n) t = record {
    is_tcp_socket = t;
    phase = idle refl refl refl n;
  }
  Reachable-TcpValid _ (onward o o' r s) t =
      Step-TcpValid o o' s (Reachable-TcpValid o r (sym (Step-kind o o' s) ∙ t))

  -- A call that starts a timer does so when none is running: where a TCP socket is not used, listens,
  -- or is connected and does not receive, its timer is not running.
  timer_free :
      (o : Socket)
      → Reachable o
      → o.kind ≡ tcp
      → (is_none o.state ≡ true)
        ⊎ (is_listened o.state ≡ true)
        ⊎ ((is_connected o.state ≡ true) × (o.receiving ≡ false))
      → o.timer ≡ none
  timer_free o r k (inl s) = (Phase-none o (Reachable-TcpValid o r k).phase s).1
  timer_free o r k (inr (inl s)) = (Phase-listened o (Reachable-TcpValid o r k).phase s).1
  timer_free o r k (inr (inr (s, f))) = (Phase-connected o (Reachable-TcpValid o r k).phase s f).1

  -- An event of its own file handle does not end the process on a TCP socket, unless `sendto` would
  -- block although the socket was reported ready for writing, or `accept` answers with an address
  -- that has no family.
  pub handle_event_ends :
      (a : EventAnswers) (e : Ready) (o : Socket)
      → Reachable o
      → o.kind ≡ tcp
      → a.taking ≢ would_block
      → from_known a.accepting ≡ true
      → (x : Effect) × (handle_event true a e o ≡ ok x)
  handle_event_ends a e o r k n f =
      elim (handle_event-Phase a e o k (Reachable-TcpValid o r k).phase) [
        | inl (h, inl t) ↦ absurd (n t)
        | inl (h, inr g) ↦ absurd (ground (arith, f, g))
        | inr (x, q, p) ↦ (x, q)
      ]
