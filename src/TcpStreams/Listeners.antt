-- ===== src/TcpStreams/Listeners.antt =====
-- The listener of HAPPlatformTCPStreamManager.c: how it is opened and closed.
use homekit_bridge.Base.{ℕ, zero, suc, Bool, true, not, Option, none, some, ◌==◌}
use homekit_bridge.Base.Outcome.{Outcome, ok, abort, ◌>>=◌, ◌>>◌, require}
use homekit_bridge.RunLoop.Handles.{Events}
use homekit_bridge.RunLoop.Handles
use homekit_bridge.TcpStreams.{Manager, Tcp, no_listener, listener_cb, is_some, given, for_reading}

-- `HAPPlatformTCPStreamManagerIsListenerOpen`
unfoldable pub is_listener_open : Manager → Bool
is_listener_open m = m.listener.managed

-- `HAPPlatformTCPStreamManagerGetListenerPort`
unfoldable pub get_listener_port : Manager → Outcome ℕ
get_listener_port m = require m.listener.managed >> ok m.listener.port

-- The answers when a listener is opened: the socket, whether an address can be reused, whether it is
-- bound, the port that the system has chosen, whether it listens, and the allocator's address for
-- the file handle.
pub record Opening : Type 0 where
  pub socket : Option ℕ
  pub reuses : Bool
  pub bound : Bool
  pub chosen : Option ℕ
  pub listens : Bool
  pub alloc : Option ℕ

-- The port of the configuration, or that of `getsockname`.
unfoldable pub listener_port : ℕ → Option ℕ → Outcome ℕ
listener_port zero none = abort
listener_port zero (some p) = require (not (p == 0)) >> ok p
listener_port (suc p) chosen = ok (suc p)

-- `HAPPlatformTCPStreamManagerOpenListener`
unfoldable pub open_listener : ℕ → ℕ → Opening → Tcp → Outcome Tcp
open_listener callback context a t = do
  let l = t.manager.listener
  require (not (callback == 0))
  require (not l.managed)
  require (l.port == 0)
  require (not (is_some l.descriptor))
  require (l.handle == 0)
  require (l.callback == 0)
  require (l.context == 0)
  d ← given a.socket
  require a.reuses
  require a.bound
  port ← listener_port t.manager.port a.chosen
  require a.listens
  let r = Handles.register a.alloc (some d) (for_reading true) listener_cb 0 t.handles
  p ← given r.1
  ok (record {
    manager = record t.manager {
      listener = record {
        managed = true;
        port = port;
        descriptor = some d;
        handle = p;
        callback = callback;
        context = context;
      };
    };
    handles = r.0;
  })

-- `HAPPlatformTCPStreamManagerCloseListener`
unfoldable pub close_listener : Tcp → Outcome Tcp
close_listener t = do
  let l = t.manager.listener
  require l.managed
  require (is_some l.descriptor)
  require (not (l.handle == 0))
  require (not (l.callback == 0))
  hs ← Handles.deregister l.handle t.handles
  ok (record { manager = record t.manager { listener = no_listener }; handles = hs })
