-- ===== src/Socket/Connect.antt =====
-- Connecting, listening and accepting: `pal_socket_connect`, `pal_socket_listen`,
-- `pal_socket_accept` of platform/posix/src/socket.c, their handlers and their timers' callbacks.
use homekit_bridge.Base.{ℕ, Bool, true, false, not, ◌&&◌, Option, none, some, [], if◌then◌else◌}
use homekit_bridge.Base.Bytes.{Bytes}
use homekit_bridge.Base.Outcome.{Outcome, ok, ◌>>◌, require}
use homekit_bridge.Socket.{
  Family, st_none, st_connecting, st_connected, st_listened, st_accepting, Err, err_ok, err_timeout,
  err_in_progress, err_unknown, err_alloc, err_invalid_arg, err_invalid_state, Addr, connect_timer,
  accept_timer, Socket, connected_call, accepted_call, Effect, is_none, is_connecting, is_listened,
  is_accepting, is_some, addr_set, blank, call, register,
}

-- What `connect` answers.
pub data Connecting : Type 0 where
  connects already in_progress refused : Connecting

-- `pal_socket_connect_async`, for an address of a family
abbrev pub connect_async : Connecting → Err
connect_async connects = err_ok
connect_async already = err_ok
connect_async in_progress = err_in_progress
connect_async refused = err_unknown

-- `pal_socket_connect` behind the call of `pal_socket_connect_async`; `registered` is the answer of
-- `HAPPlatformTimerRegister`.
unfoldable pub begin_connect : Connecting → Bool → ℕ → ℕ → Socket → Socket × Err
begin_connect connects registered cb arg o = (record o { state = st_connected }, err_ok)
begin_connect already registered cb arg o = (record o { state = st_connected }, err_ok)
begin_connect refused registered cb arg o = (o, err_unknown)
begin_connect in_progress registered cb arg o = elim (register registered connect_timer o) [
  | none ↦ (o, err_unknown)
  | some timer ↦ (
    record o {
      timer = timer;
      writing = true;
      state = st_connecting;
      connected_cb = some cb;
      cb_arg = arg;
    },
    err_in_progress,
  )
]

-- `pal_socket_connect`
unfoldable pub connect :
    (Family → Bytes → Option Bytes) → Connecting → Bool → Bytes → ℕ → ℕ → ℕ → Socket → Socket × Err
connect inet_pton a registered text port cb arg o =
    if not (is_none o.state)
    then (o, err_invalid_state)
    else let (to, known) = addr_set inet_pton o.remote_addr o.af text port in
      let o1 = record o { remote_addr = to } in
      if not known then (o1, err_invalid_arg) else begin_connect a registered cb arg o1

-- `pal_socket_handle_connect_cb` behind the call of `pal_socket_connect_async`
unfoldable pub end_connect : Connecting → Socket → Effect
end_connect in_progress o = record { socket = o; calls = []; wire = [] }
end_connect connects o = record {
  socket = record o { state = st_connected; writing = false };
  calls = call o.connected_cb (λ cb. connected_call cb err_ok o.cb_arg);
  wire = [];
}
end_connect already o = record {
  socket = record o { state = st_connected; writing = false };
  calls = call o.connected_cb (λ cb. connected_call cb err_ok o.cb_arg);
  wire = [];
}
end_connect refused o = record {
  socket = record o { state = st_none; writing = false };
  calls = call o.connected_cb (λ cb. connected_call cb err_unknown o.cb_arg);
  wire = [];
}

-- `pal_socket_handle_connect_cb`, when the socket is ready for writing. The address that is not of
-- a family ends the process.
unfoldable pub handle_connect : Connecting → Socket → Outcome Effect
handle_connect a o =
    if not (is_connecting o.state)
    then ok (record { socket = o; calls = []; wire = [] })
    else require (is_some o.remote_addr.family) >> ok (end_connect a (record o { timer = none }))

-- `pal_socket_connect_timeout_cb`
unfoldable pub connect_timeout : Socket → Effect
connect_timeout o = record {
  socket = record o { timer = none; state = st_none; writing = false };
  calls = call o.connected_cb (λ cb. connected_call cb err_timeout o.cb_arg);
  wire = [];
}

-- `pal_socket_listen`; `listens` is the answer of `listen`.
unfoldable pub listen : Bool → Socket → Socket × Err
listen listens o =
    if not (is_none o.state)
    then (o, err_invalid_state)
    else if listens
    then (record o { state = st_listened }, err_ok)
    else (o, err_unknown)

-- What `accept` answers.
pub data Accepting : Type 0 where
  accepts : Addr → Accepting
  nobody broken : Accepting

-- The answers to the calls of `pal_socket_accept_async`.
pub record AcceptAnswers : Type 0 where
  pub sys : Accepting
  pub memory : Bool
  pub nonblock_ok : Bool
  pub register_ok : Bool

-- The object of an accepted connection. `mbuf_list_ptail` stays NULL, as `pal_mem_calloc` left it.
abbrev pub new_socket : Addr → Socket → Socket
new_socket from o = record (blank o.kind o.af) { state = st_connected; remote_addr = from }

-- `pal_socket_accept_async`: the error, and the new object
unfoldable pub accept_async : AcceptAnswers → Socket → Err × Option (Socket × Addr)
accept_async a o = elim a.sys [
  | nobody ↦ (err_in_progress, none)
  | broken ↦ (err_unknown, none)
  | accepts from ↦
      if not a.memory
      then (err_alloc, none)
      else if not (a.nonblock_ok && a.register_ok)
      then (err_unknown, none)
      else (err_ok, some (new_socket from o, from))
]

-- `pal_socket_addr_get_port` ends the process at an address without a family.
abbrev pub address_known : Option (Socket × Addr) → Bool
address_known none = true
address_known (some (new, from)) = is_some from.family

-- `pal_socket_accept` behind the call of `pal_socket_accept_async`
unfoldable pub begin_accept :
    Err × Option (Socket × Addr)
    → Bool
    → ℕ
    → ℕ
    → Socket
    → Outcome (Socket × Err × Option (Socket × Addr))
begin_accept (err_in_progress, new) registered cb arg o =
    elim (register registered accept_timer o) [
      | none ↦ ok (o, err_unknown, new)
      | some timer ↦ ok (
        record o { timer = timer; state = st_accepting; accepted_cb = some cb; cb_arg = arg },
        err_in_progress,
        new,
      )
    ]
begin_accept (err, new) registered cb arg o = require (address_known new) >> ok (o, err, new)

-- `pal_socket_accept`
unfoldable pub accept :
    AcceptAnswers → Bool → ℕ → ℕ → Socket → Outcome (Socket × Err × Option (Socket × Addr))
accept a registered cb arg o =
    if not (is_listened o.state)
    then ok (o, err_invalid_state, none)
    else begin_accept (accept_async a o) registered cb arg o

-- `pal_socket_handle_accept_cb` behind the call of `pal_socket_accept_async`
unfoldable pub end_accept : Err × Option (Socket × Addr) → Socket → Outcome Effect
end_accept (err_in_progress, new) o = ok (record { socket = o; calls = []; wire = [] })
end_accept (err, new) o = do
  require (address_known new)
  ok (record {
    socket = record o { state = st_listened };
    calls = call o.accepted_cb (λ cb. accepted_call cb err new o.cb_arg);
    wire = [];
  })

-- `pal_socket_handle_accept_cb`, when the socket is ready for reading
unfoldable pub handle_accept : AcceptAnswers → Socket → Outcome Effect
handle_accept a o =
    if not (is_accepting o.state)
    then ok (record { socket = o; calls = []; wire = [] })
    else end_accept (accept_async a o) (record o { timer = none })

-- `pal_socket_accept_timeout_cb`
unfoldable pub accept_timeout : Socket → Effect
accept_timeout o = record {
  socket = record o { timer = none; state = st_listened };
  calls = call o.accepted_cb (λ cb. accepted_call cb err_timeout none o.cb_arg);
  wire = [];
}
