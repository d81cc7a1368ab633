-- ===== src/TcpStreams.antt =====
-- The TCP streams of the ESP port,
-- platform/esp/components/homekit_adk/port/src/HAPPlatformTCPStreamManager.c, on the file handles of
-- the run loop.
--
-- The array `tcpStreams` is a function from its indices, which are below `max`; a stream's reference
-- is its index, and is the context of its file handle. A manager is here between its creation and
-- its release, so that the array is there; the pointers `tcpStreamManager` tell only whether they
-- are null. Callbacks are numbers, 0 for NULL. What the system answers are arguments.
pub mod Listeners
pub mod Traffic
pub mod Slots
pub mod Valid
pub mod Kept
pub mod Actions
pub mod Calls
pub mod Watches
pub mod Accepts
pub mod Connections
pub mod Closes
pub mod Dispatch
pub mod Safe
mod Tests
use homekit_bridge.Base.{
  ℕ, zero, suc, ◌+◌, ◌-◌, Bool, true, false, not, ◌&&◌, ◌||◌, Option, none, some, List, [], ◌∷◌,
  ltb, leb, ◌==◌, if◌then◌else◌, put,
}
use homekit_bridge.Base.Outcome.{Outcome, ok, abort, ◌>>=◌, ◌>>◌, require}
use homekit_bridge.RunLoop.Handles.{Events, Handles}
use homekit_bridge.RunLoop.Handles

-- `HAPPlatformTCPStream`; the descriptor is none for -1, and `managed` that there is a manager.
pub record Stream : Type 0 where
  pub managed : Bool
  pub descriptor : Option ℕ
  pub handle : ℕ
  pub has_bytes_available : Bool
  pub has_space_available : Bool
  pub callback : ℕ
  pub context : ℕ

-- `HAPPlatformTCPStreamListener`; its interface index is always 0.
pub record Listener : Type 0 where
  pub managed : Bool
  pub port : ℕ
  pub descriptor : Option ℕ
  pub handle : ℕ
  pub callback : ℕ
  pub context : ℕ

-- `HAPPlatformTCPStreamManager`
pub record Manager : Type 0 where
  pub count : ℕ
  pub max : ℕ
  pub port : ℕ
  pub listener : Listener
  pub streams : ℕ → Stream

-- A manager and the file handles of the run loop.
pub record Tcp : Type 0 where
  pub manager : Manager
  pub handles : Handles

-- `InitializeTCPStreamListener`
abbrev pub no_listener : Listener
no_listener = record {
  managed = false;
  port = 0;
  descriptor = none;
  handle = 0;
  callback = 0;
  context = 0;
}

-- `InitializeTCPStream`
abbrev pub no_stream : Stream
no_stream = record {
  managed = false;
  descriptor = none;
  handle = 0;
  has_bytes_available = false;
  has_space_available = false;
  callback = 0;
  context = 0;
}

-- `HandleTCPStreamListenerFileHandleCallback` and `HandleTCPStreamFileHandleCallback` as callbacks of
-- file handles.
abbrev pub listener_cb : ℕ
listener_cb = 1

abbrev pub stream_cb : ℕ
stream_cb = 2

abbrev pub is_some {ℓ} : {A : Type ℓ} → Option A → Bool
is_some none = false
is_some (some x) = true

abbrev pub given {ℓ} : {A : Type ℓ} → Option A → Outcome A
given none = abort
given (some x) = ok x

-- `HAPPlatformTCPStreamManagerCreate`, where `allocates` is whether there is memory for the array.
unfoldable pub create : ℕ → ℕ → Bool → Outcome Manager
create port max allocates = do
  require (not (max == 0))
  require allocates
  ok (record {
    count = 0;
    max = max;
    port = port;
    listener = no_listener;
    streams = λ i. no_stream;
  })

abbrev pub for_reading : Bool → Events
for_reading b = record { reading = b; writing = false; error = false }

-- The index of a free stream among the `k` from `i` on.
unfoldable pub free_from : (ℕ → Stream) → ℕ → ℕ → Option ℕ
free_from ss i zero = none
free_from ss i (suc k) = if is_some (ss i).descriptor then free_from ss (suc i) k else some i

-- What `accept` answers.
pub data Incoming : Type 0 where
  connected : ℕ → Incoming
  nobody refused : Incoming

-- The results of `HAPPlatformTCPStreamManagerAcceptTCPStream`.
pub data Accepted : Type 0 where
  accepted : ℕ → Accepted
  out_of_resources busy unknown : Accepted

-- The listener's file handle is to wait for connections, or not.
unfoldable pub watch_listener : Bool → Tcp → Outcome Tcp
watch_listener b t = do
  hs ← Handles.update_interests t.manager.listener.handle (for_reading b) listener_cb 0 t.handles
  ok (record t { handles = hs })

-- A connection on the descriptor `d` gets the stream `i`; the answers are whether the descriptor is
-- made nonblocking, whether it is made without delay, and the allocator's address.
unfoldable pub take_stream : ℕ → ℕ → Bool → Bool → Option ℕ → Tcp → Outcome Tcp
take_stream i d nonblocking nodelay alloc t = do
  let m = t.manager
  let s = m.streams i
  require nonblocking
  require nodelay
  let r = Handles.register alloc (some d) (for_reading false) stream_cb i t.handles
  p ← given r.1
  require (not s.has_bytes_available)
  require (not s.has_space_available)
  require (s.callback == 0)
  require (s.context == 0)
  let u : Tcp = record {
    manager = record m {
      streams = put m.streams i (record s { managed = true; descriptor = some d; handle = p });
      count = m.count + 1;
    };
    handles = r.0;
  }
  if m.max - (m.count + 1) == 0 then watch_listener false u else ok u

-- `HAPPlatformTCPStreamManagerAcceptTCPStream`
unfoldable pub accept : Incoming → Bool → Bool → Option ℕ → Tcp → Outcome (Tcp × Accepted)
accept a nonblocking nodelay alloc t = do
  let m = t.manager
  require m.listener.managed
  require (is_some m.listener.descriptor)
  require (not (m.listener.handle == 0))
  if m.count == m.max then ok (t, out_of_resources) else (do
    require (ltb m.count m.max)
    i ← given (free_from m.streams 0 m.max)
    require (not (m.streams i).managed)
    require ((m.streams i).handle == 0)
    elim a [
      | nobody ↦ ok (t, busy)
      | refused ↦ ok (t, unknown)
      | connected d ↦ do u ← take_stream i d nonblocking nodelay alloc t; ok (u, accepted i)
    ])

-- What every call for a stream requires.
unfoldable pub require_open : Stream → Outcome (Unit {0})
require_open s = do require s.managed; require (is_some s.descriptor); require (not (s.handle == 0))

-- The end of `HAPPlatformTCPStreamClose`: the listener waits for connections again if there was no
-- room for one.
unfoldable pub resume : Tcp → Outcome Tcp
resume t = do
  let m = t.manager
  if is_some m.listener.descriptor
      then (do
        require m.listener.managed
        require (not (m.listener.handle == 0))
        if m.max - m.count == 1 then watch_listener true t else ok t)
      else (do require (not m.listener.managed); require (m.listener.handle == 0); ok t)

-- `HAPPlatformTCPStreamClose`
unfoldable pub close : ℕ → Tcp → Outcome Tcp
close i t = do
  let m = t.manager
  require_open (m.streams i)
  hs ← Handles.deregister (m.streams i).handle t.handles
  require (leb m.count m.max)
  require (ltb 0 m.count)
  resume (record {
    manager = record m { streams = put m.streams i no_stream; count = m.count - 1 };
    handles = hs;
  })

-- `HAPPlatformTCPStreamUpdateInterests`
unfoldable pub update_interests : ℕ → Bool → Bool → ℕ → ℕ → Tcp → Outcome Tcp
update_interests i bytes space callback context t = do
  let m = t.manager
  let s = m.streams i
  require (not (bytes || space) || not (callback == 0))
  require_open s
  hs ←
      Handles.update_interests s.handle (record { reading = bytes; writing = space; error = false })
        stream_cb i t.handles
  ok (record {
    manager = record m {
      streams = put m.streams i (record s {
        has_bytes_available = bytes;
        has_space_available = space;
        callback = callback;
        context = context;
      });
    };
    handles = hs;
  })
