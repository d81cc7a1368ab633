-- ===== src/Socket.antt =====
-- The non-blocking sockets of platform/posix/src/socket.c: what a socket object holds.
--
-- The functions are in the child modules: Socket/Connect (listen, connect, accept), Socket/Send,
-- Socket/Receive, Socket/Events (what the run loop calls). Pointers to callbacks and their
-- arguments are numbers. The answer of a system call is an argument, behind its interruptions,
-- after which the code repeats it. A handler calls a callback last, so the calls of callbacks are
-- a result of it, and what a callback does is the next operation on the socket.
pub mod Send
pub mod Connect
pub mod Receive
pub mod Events
pub mod Stream
pub mod Stuck
pub mod Reports
pub mod Phases
mod Tests
use homekit_bridge.Base.{
  ℕ, Bool, true, false, ◌&&◌, Option, none, some, List, [], ◌∷◌, ◌++◌, ◌==◌, if◌then◌else◌,
}
use homekit_bridge.Base.Bytes.{Bytes}
use homekit_bridge.Base.Outcome.{Outcome, ok, ◌>>◌, require}

-- `pal_socket_type`
pub data Kind : Type 0 where
  tcp udp : Kind

-- `pal_addr_family`; the program asserts that it is not PAL_ADDR_FAMILY_UNSPEC.
pub data Family : Type 0 where
  ipv4 ipv6 : Family

-- `pal_socket_state`
pub data State : Type 0 where
  st_none st_connecting st_connected st_listened st_accepting : State

-- `pal_socket_err`
pub data Err : Type 0 where
  err_ok err_timeout err_in_progress err_unknown err_alloc err_invalid_arg err_invalid_state
        err_busy :
      Err

-- `pal_socket_addr`; AF_UNSPEC is no family.
pub record Addr : Type 0 where
  pub family : Option Family
  pub host : Bytes
  pub port : ℕ

-- `pal_socket_mbuf`; `len` is the length of `buf`, and a `to_addr` of AF_UNSPEC is none.
pub record Mbuf : Type 0 where
  pub to_addr : Option Addr
  pub sent_cb : ℕ
  pub arg : ℕ
  pub pos : ℕ
  pub all : Bool
  pub buf : Bytes

-- The callback of a timer.
pub data Timer : Type 0 where
  connect_timer accept_timer recv_timer : Timer

-- `pal_socket_obj`. `writing` is `interests.isReadyForWriting`; `tail` says whether
-- `mbuf_list_ptail` points to the end of the list of buffers, and not to NULL.
pub record Socket : Type 0 where
  pub receiving : Bool
  pub state : State
  pub kind : Kind
  pub af : Family
  pub timeout : ℕ
  pub timer : Option Timer
  pub recv_maxlen : ℕ
  pub remote_addr : Addr
  pub connected_cb : Option ℕ
  pub accepted_cb : Option ℕ
  pub recved_cb : Option ℕ
  pub cb_arg : ℕ
  pub writing : Bool
  pub mbufs : List Mbuf
  pub tail : Bool

-- A call of a callback, with what it is given and its last argument.
pub data Call : Type 0 where
  connected_call : ℕ → Err → ℕ → Call
  accepted_call : ℕ → Err → Option (Socket × Addr) → ℕ → Call
  recved_call : ℕ → Err → Option (Addr × Bytes) → ℕ → Call
  sent_call : ℕ → Err → ℕ → ℕ → Call

-- `HAPPlatformFileHandleEvent`
pub record Ready : Type 0 where
  pub reading : Bool
  pub writing : Bool

-- What a handler does: the socket, the calls of callbacks, and the bytes given to the system.
pub record Effect : Type 0 where
  pub socket : Socket
  pub calls : List Call
  pub wire : Bytes

abbrev pub is_none : State → Bool
is_none st_none = true
is_none st_connecting = false
is_none st_connected = false
is_none st_listened = false
is_none st_accepting = false

abbrev pub is_connecting : State → Bool
is_connecting st_none = false
is_connecting st_connecting = true
is_connecting st_connected = false
is_connecting st_listened = false
is_connecting st_accepting = false

abbrev pub is_connected : State → Bool
is_connected st_none = false
is_connected st_connecting = false
is_connected st_connected = true
is_connected st_listened = false
is_connected st_accepting = false

abbrev pub is_listened : State → Bool
is_listened st_none = false
is_listened st_connecting = false
is_listened st_connected = false
is_listened st_listened = true
is_listened st_accepting = false

abbrev pub is_accepting : State → Bool
is_accepting st_none = false
is_accepting st_connecting = false
is_accepting st_connected = false
is_accepting st_listened = false
is_accepting st_accepting = true

abbrev pub is_tcp : Kind → Bool
is_tcp tcp = true
is_tcp udp = false

abbrev pub is_some {ℓ} : {A : Type ℓ} → Option A → Bool
is_some none = false
is_some (some x) = true

abbrev pub unspecified : Addr
unspecified = record { family = none; host = []; port = 0 }

-- `pal_socket_addr_set` on the address `old`: the address, and whether the text is one.
unfoldable pub addr_set : (Family → Bytes → Option Bytes) → Addr → Family → Bytes → ℕ → Addr × Bool
addr_set inet_pton old af text port = elim (inet_pton af text) [
  | none ↦ (record old { family = some af }, false)
  | some host ↦ (record { family = some af; host = host; port = port }, true)
]

-- What the allocator and the system answer in `pal_socket_create`.
pub record CreateAnswers : Type 0 where
  pub memory : Bool
  pub socket_ok : Bool
  pub nonblock_ok : Bool
  pub register_ok : Bool

-- A socket as `pal_mem_calloc` leaves it, with its kind and family.
abbrev pub blank : Kind → Family → Socket
blank kind af = record {
  receiving = false;
  state = st_none;
  kind = kind;
  af = af;
  timeout = 0;
  timer = none;
  recv_maxlen = 0;
  remote_addr = unspecified;
  connected_cb = none;
  accepted_cb = none;
  recved_cb = none;
  cb_arg = 0;
  writing = false;
  mbufs = [];
  tail = false;
}

-- `pal_socket_create`
unfoldable pub create : CreateAnswers → Kind → Family → Option Socket
create a kind af =
    if a.memory && a.socket_ok && a.nonblock_ok && a.register_ok
    then some (record (blank kind af) { tail = true })
    else none

-- `pal_socket_set_timeout`
unfoldable pub set_timeout : ℕ → Socket → Socket
set_timeout ms o = record o { timeout = ms }

-- `pal_socket_enable_write`
abbrev pub enable_write : Bool → Socket → Socket
enable_write flag o = record o { writing = flag }

-- `pal_socket_mbuf_in`
unfoldable pub mbuf_in : Mbuf → Socket → Outcome Socket
mbuf_in m o = require o.tail >> ok (record o { mbufs = o.mbufs ++ m ∷ [] })

-- The calls of a callback, if there is one.
abbrev pub call : Option ℕ → (ℕ → Call) → List Call
call none f = []
call (some cb) f = f cb ∷ []

-- `HAPPlatformTimerRegister` with the socket's timeout, if it has one: the timer of the socket,
-- or none if the registration fails.
abbrev pub register : Bool → Timer → Socket → Option (Option Timer)
register registered t o =
    if o.timeout == 0 then some o.timer else if registered then some (some t) else none
