-- ===== src/Socket/Send.antt =====
-- Sending on a socket: `pal_socket_send`, `pal_socket_sendto` and `pal_socket_handle_send_cb` of
-- platform/posix/src/socket.c.
use homekit_bridge.Base.{
  is_empty, ℕ, ◌+◌, Bool, true, false, not, Option, none, some, List, [], ◌∷◌, ◌==◌, if◌then◌else◌,
  length, take, drop,
}
use homekit_bridge.Base.Bytes.{Bytes}
use homekit_bridge.Base.Outcome.{Outcome, ok, abort, ◌>>=◌, ◌>>◌, require}
use homekit_bridge.Socket.{
  Family, Err, err_ok, err_in_progress, err_unknown, err_alloc, err_invalid_arg, Addr, Mbuf, Socket,
  Effect, sent_call, is_some, addr_set, unspecified, mbuf_in, enable_write,
}

-- What `pal_socket_send_async` gets from `sendto`: the system takes at most so many bytes, or would block, or fails.
pub data Taking : Type 0 where
  takes : ℕ → Taking
  would_block failed : Taking

-- The answers to one call of `pal_socket_sendto`.
pub record SendAnswers : Type 0 where
  pub sys : Taking
  pub memory : Bool

-- The result of `pal_socket_sendto`: the error, `*len`, and the bytes given to the system.
pub record Sent : Type 0 where
  pub socket : Socket
  pub err : Err
  pub len : ℕ
  pub wire : Bytes

-- The creation of a buffer that is queued, with the result of the call, whose `*len` was `len`.
unfoldable pub enqueue : Bool → Mbuf → Err → ℕ → Bytes → Socket → Outcome Sent
enqueue memory m err len wire o =
    if memory
    then (do
      o' ← mbuf_in m o
      ok (record { socket = enable_write true o'; err = err; len = length wire; wire = wire }))
    else ok (record { socket = o; err = err_alloc; len = len; wire = wire })

-- A buffer of `pal_socket_sendto`.
abbrev pub new_mbuf : Bytes → Option Addr → Bool → ℕ → ℕ → Mbuf
new_mbuf bytes to all cb arg = record {
  to_addr = to;
  sent_cb = cb;
  arg = arg;
  pos = 0;
  all = all;
  buf = bytes;
}

-- `pal_socket_sendto` behind its checks. With buffers in the queue nothing is sent now.
unfoldable pub transmit : SendAnswers → Bytes → Option Addr → Bool → ℕ → ℕ → Socket → Outcome Sent
transmit a bytes to all cb arg o =
    if not (is_empty o.mbufs)
    then enqueue a.memory (new_mbuf bytes to all cb arg) err_in_progress (length bytes) [] o
    else elim a.sys [
      | would_block ↦
          enqueue a.memory (new_mbuf bytes to all cb arg) err_in_progress (length bytes) [] o
      | failed ↦ ok (record { socket = o; err = err_unknown; len = 0; wire = [] })
      | takes n ↦
          let wire = take n bytes in
          if length wire == length bytes
          then ok (record { socket = o; err = err_ok; len = length wire; wire = wire })
          else if all
          then enqueue a.memory (new_mbuf (drop (length wire) bytes) to all cb arg) err_ok
              (length bytes) wire o
          else ok (record { socket = o; err = err_ok; len = length wire; wire = wire })
    ]

-- `pal_socket_sendto`; `pal_socket_send` is that without an address.
module _ (inet_pton : Family → Bytes → Option Bytes) where
  unfoldable pub send_to :
      SendAnswers → Bytes → Option (Bytes × ℕ) → Bool → ℕ → ℕ → Socket → Outcome Sent
  send_to a bytes none all cb arg o =
      require (is_some o.remote_addr.family) >> transmit a bytes none all cb arg o
  send_to a bytes (some (text, port)) all cb arg o =
      let (to, known) = addr_set inet_pton unspecified o.af text port in
      if known
      then transmit a bytes (some to) all cb arg o
      else ok (record { socket = o; err = err_invalid_arg; len = length bytes; wire = [] })

-- `pal_socket_mbuf_out`, of the first buffer before `ms`.
abbrev pub mbuf_out : List Mbuf → Socket → Socket
mbuf_out ms o = record o { mbufs = ms; tail = if is_empty ms then true else o.tail }

-- `pal_socket_handle_send_cb` from `pal_socket_mbuf_out` on.
unfoldable pub finish : Mbuf → List Mbuf → Err → Bytes → Socket → Effect
finish m ms err wire o = record {
  socket = if is_empty ms then enable_write false (mbuf_out ms o) else mbuf_out ms o;
  calls = sent_call m.sent_cb err (length wire) m.arg ∷ [];
  wire = wire;
}

-- `pal_socket_handle_send_cb` for the first buffer.
unfoldable pub send_top : Taking → Mbuf → List Mbuf → Socket → Outcome Effect
send_top would_block m ms o = abort
send_top failed m ms o = ok (finish m ms err_unknown [] o)
send_top (takes n) m ms o =
    let wire = take n (drop m.pos m.buf) in
    if length wire == length m.buf
    then ok (finish m ms err_ok wire o)
    else if m.all
    then ok (record {
      socket = record o { mbufs = record m { pos = m.pos + length wire } ∷ ms };
      calls = [];
      wire = wire;
    })
    else ok (finish m ms err_ok wire o)

-- `pal_socket_handle_send_cb`, when the socket is ready for writing
unfoldable pub handle_send : Taking → Socket → Outcome Effect
handle_send a o = elim o.mbufs [
  | [] ↦ ok (record { socket = o; calls = []; wire = [] })
  | m ∷ ms ↦ send_top a m ms o
]
