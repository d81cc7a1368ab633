-- ===== src/Socket/Events.antt =====
-- What the run loop calls on a socket of platform/posix/src/socket.c: the callbacks of its file
-- handle and of its timer.
use homekit_bridge.Base.{Bool, none, some, [], if◌then◌else◌}
use homekit_bridge.Base.Outcome.{Outcome, ok, ◌>>◌, require}
use homekit_bridge.Socket.{
  tcp, udp, st_none, st_connecting, st_connected, st_listened, st_accepting, connect_timer,
  accept_timer, recv_timer, Socket, Ready, Effect,
}
use homekit_bridge.Socket.Send.{Taking, handle_send}
use homekit_bridge.Socket.Connect.{
  Connecting, AcceptAnswers, handle_connect, connect_timeout, handle_accept, accept_timeout,
}
use homekit_bridge.Socket.Receive.{Arriving, handle_recv, recv_timeout}

-- The answers of the system to the calls of a handler.
pub record EventAnswers : Type 0 where
  pub connecting : Connecting
  pub accepting : AcceptAnswers
  pub taking : Taking
  pub arriving : Arriving

abbrev pub unchanged : Socket → Outcome Effect
unchanged o = ok (record { socket = o; calls = []; wire = [] })

-- `pal_socket_udp_handle_event_cb`; `own` says whether the file handle is the socket's.
unfoldable pub udp_handle_event : Bool → EventAnswers → Ready → Socket → Outcome Effect
udp_handle_event own a e o = do
  require own
  if e.reading
      then handle_recv a.arriving o
      else if e.writing
      then handle_send a.taking o
      else unchanged o

-- `pal_socket_tcp_handle_event_cb`
unfoldable pub tcp_handle_event : Bool → EventAnswers → Ready → Socket → Outcome Effect
tcp_handle_event own a e o = require own >> elim o.state [
  | st_none ↦ unchanged o
  | st_connecting ↦ if e.writing then handle_connect a.connecting o else unchanged o
  | st_connected ↦
      if e.reading
      then handle_recv a.arriving o
      else if e.writing
      then handle_send a.taking o
      else unchanged o
  | st_listened ↦ unchanged o
  | st_accepting ↦ if e.reading then handle_accept a.accepting o else unchanged o
]

-- `handle_cb`
unfoldable pub handle_event : Bool → EventAnswers → Ready → Socket → Outcome Effect
handle_event own a e o = elim o.kind [
  | tcp ↦ tcp_handle_event own a e o
  | udp ↦ udp_handle_event own a e o
]

-- The callback of the socket's timer, if it has one.
unfoldable pub expire : Socket → Effect
expire o = elim o.timer [
  | none ↦ record { socket = o; calls = []; wire = [] }
  | some t ↦ elim t [
    | connect_timer ↦ connect_timeout o
    | accept_timer ↦ accept_timeout o
    | recv_timer ↦ recv_timeout o
  ]
]
