-- ===== src/TcpStreams/Traffic.antt =====
-- What goes through the TCP streams of HAPPlatformTCPStreamManager.c: reading and writing, and the
-- callbacks of file handles.
use homekit_bridge.Base.{ℕ, Bool, not, ◌&&◌, ◌||◌, Option, none, some, leb, ◌==◌, if◌then◌else◌}
use homekit_bridge.Base.Outcome.{Outcome, ok, ◌>>◌, require}
use homekit_bridge.RunLoop.Handles.{Events}
use homekit_bridge.TcpStreams.{Tcp, is_some, require_open}

-- What `recv` and `send` answer: a number of bytes, that they would block, or another error.
pub data Moved : Type 0 where
  moved : ℕ → Moved
  blocked broken : Moved

-- The results of `HAPPlatformTCPStreamRead` and `HAPPlatformTCPStreamWrite`.
pub data Transfer : Type 0 where
  bytes : ℕ → Transfer
  later failed : Transfer

-- `HAPPlatformTCPStreamRead` and `HAPPlatformTCPStreamWrite`
unfoldable pub transfer : ℕ → ℕ → Moved → Tcp → Outcome Transfer
transfer i max_bytes a t = do
  require_open (t.manager.streams i)
  elim a [
    | moved n ↦ require (leb n max_bytes) >> ok (bytes n)
    | blocked ↦ ok later
    | broken ↦ ok failed
  ]

-- `HAPPlatformTCPStreamCloseOutput`
unfoldable pub close_output : ℕ → Tcp → Outcome (Unit {0})
close_output i t = require_open (t.manager.streams i)

-- `HandleTCPStreamListenerFileHandleCallback` of the file handle `p`: the callback and its context.
unfoldable pub handle_listener : ℕ → Events → Tcp → Outcome (ℕ × ℕ)
handle_listener p e t = do
  let l = t.manager.listener
  require l.managed
  require (is_some l.descriptor)
  require (l.handle == p)
  require (not (l.callback == 0))
  require e.reading
  ok (l.callback, l.context)

-- A call of a stream's callback.
pub record Call : Type 0 where
  pub callback : ℕ
  pub stream : ℕ
  pub has_bytes_available : Bool
  pub has_space_available : Bool
  pub context : ℕ

-- `HandleTCPStreamFileHandleCallback` of the file handle `p`, whose context is the stream `i`.
unfoldable pub handle_stream : ℕ → Events → ℕ → Tcp → Outcome (Option Call)
handle_stream p e i t = do
  let s = t.manager.streams i
  require s.managed
  require (is_some s.descriptor)
  require (s.handle == p)
  require (e.reading || e.writing)
  let b = s.has_bytes_available && e.reading
  let w = s.has_space_available && e.writing
  if b || w
      then (do
        require (not (s.callback == 0))
        ok (
            some (record {
              callback = s.callback;
              stream = i;
              has_bytes_available = b;
              has_space_available = w;
              context = s.context;
            })))
      else ok none
