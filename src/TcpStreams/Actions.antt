-- ===== src/TcpStreams/Actions.antt =====
-- What HomeKit's server and the run loop ask of HAPPlatformTCPStreamManager.c, one call after the
-- other.
use homekit_bridge.Base.{ℕ, ◌≡◌, Bool, true, false, ◌&&◌, ◌||◌, Option, some, List, [], ◌∷◌, ◌==◌}
use homekit_bridge.Base.Outcome.{Outcome, ok, abort, ◌>>=◌}
use homekit_bridge.RunLoop.Handles.Valid.{Unused}
use homekit_bridge.TcpStreams.{Tcp, Incoming, accept, close, update_interests}
use homekit_bridge.TcpStreams.Listeners.{Opening, open_listener, close_listener}
use homekit_bridge.TcpStreams.Valid.{Valid}

-- The calls that change the state, with their arguments and with the answers of the system.
pub data Action : Type 0 where
  opening : ℕ → ℕ → Opening → Action
  closing_listener : Action
  accepting : Incoming → Bool → Bool → Option ℕ → Action
  closing : ℕ → Action
  updating : ℕ → Bool → Bool → ℕ → ℕ → Action

abbrev pub first {ℓ κ} : {A : Type ℓ} {B : Type κ} → Outcome (A × B) → Outcome A
first (ok (a, b)) = ok a
first abort = abort

unfoldable pub perform : Action → Tcp → Outcome Tcp
perform (opening callback context a) t = open_listener callback context a t
perform closing_listener t = close_listener t
perform (accepting a nonblocking nodelay alloc) t = first (accept a nonblocking nodelay alloc t)
perform (closing i) t = close i t
perform (updating i bytes space callback context) t =
    update_interests i bytes space callback context t

unfoldable pub run_calls : List Action → Tcp → Outcome Tcp
run_calls [] t = ok t
run_calls (a ∷ more) t = perform a t >>= run_calls more

-- The allocator has memory, at an address that no file handle has.
abbrev pub Fresh : Option ℕ → Tcp → Type 0
Fresh alloc t = (p : ℕ) × (alloc ≡ some p) × ((p == 0) ≡ false) × Unused p t.handles.list

-- The system opens a listener: no call fails, and there is memory.
pub record Opens (a : Opening) (t : Tcp) : Type 0 where
  pub descriptor : ℕ
  pub socket : a.socket ≡ some descriptor
  pub reuses : a.reuses ≡ true
  pub bound : a.bound ≡ true
  pub port : (t.manager.port == 0) ≡ true → (p : ℕ) × (a.chosen ≡ some p) × ((p == 0) ≡ false)
  pub listens : a.listens ≡ true
  pub fresh : Fresh a.alloc t

-- What callers see to: a listener is opened when it is closed, and closed and asked for connections
-- when it is open; streams are used while they are open; who waits for events has a callback. And the
-- system does what else would end the process.
abbrev pub Allowed : Action → Tcp → Type 0
Allowed (opening callback context a) t =
    ((callback == 0) ≡ false) × (t.manager.listener.managed ≡ false) × Opens a t
Allowed closing_listener t = t.manager.listener.managed ≡ true
Allowed (accepting a nonblocking nodelay alloc) t =
    (t.manager.listener.managed ≡ true) × (nonblocking ≡ true) × (nodelay ≡ true) × Fresh alloc t
Allowed (closing i) t = (t.manager.streams i).managed ≡ true
Allowed (updating i bytes space callback context) t =
    ((t.manager.streams i).managed ≡ true) × (((bytes || space) && (callback == 0)) ≡ false)

abbrev pub AllAllowed : List Action → Tcp → Type 0
AllAllowed [] t = Unit
AllAllowed (a ∷ more) t = Allowed a t × ((u : Tcp) → perform a t ≡ ok u → AllAllowed more u)

-- The process goes on, and the streams and the file handles still belong together.
abbrev pub Safe : Outcome Tcp → Type 0
Safe abort = ⊥
Safe (ok t) = Valid t
