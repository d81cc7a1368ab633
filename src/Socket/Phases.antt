-- ===== src/Socket/Phases.antt =====
-- The state machine of a TCP socket of platform/posix/src/socket.c.
pub mod Calls
pub mod Opening
pub mod Handlers
pub mod Reachable
use homekit_bridge.Base.{
  ℕ, ◌≡◌, ◌≢◌, ◌⊎◌, inl, inr, refl, ap, sym, Bool, true, false, not, ◌&&◌, Option, none, some, List,
  [], ◌∷◌, if_rule, if◌then◌else◌, arith, ◌==◌,
}
use mathlib.Core.Path.{subst}
use homekit_bridge.Base.Bytes.{Bytes}
use homekit_bridge.Base.Outcome.{Outcome, ok, abort, ◌>>=◌, ◌>>◌, require}
use homekit_bridge.Socket.{
  Family, Kind, tcp, State, st_none, st_connecting, st_connected, st_listened, st_accepting, Timer,
  connect_timer, accept_timer, recv_timer, Socket, Addr, Err, err_ok, err_in_progress, err_timeout,
  err_unknown, err_alloc, err_invalid_arg, err_invalid_state, err_busy, is_none, is_connecting,
  is_connected, is_listened, is_accepting, is_some, is_tcp, register, addr_set, CreateAnswers,
  create, blank,
}
use homekit_bridge.Socket.Connect.{
  Connecting, connects, already, in_progress, refused, begin_connect, connect, listen,
  AcceptAnswers, accept, accept_async, begin_accept, new_socket,
}
use homekit_bridge.Socket.Receive.{recv}

-- The phases of a TCP socket: what its fields are in each.
pub data Phase (o : Socket) : Type 0 where
  unused : o.state ≡ st_none → o.receiving ≡ false → o.timer ≡ none → Phase o
  connecting :
      o.state ≡ st_connecting
      → o.receiving ≡ false
      → (o.timer ≡ none) ⊎ (o.timer ≡ some connect_timer)
      → o.writing ≡ true
      → is_some o.remote_addr.family ≡ true
      → is_some o.connected_cb ≡ true
      → Phase o
  idle :
      o.state ≡ st_connected
      → o.receiving ≡ false
      → o.timer ≡ none
      → is_some o.remote_addr.family ≡ true
      → Phase o
  receiving :
      o.state ≡ st_connected
      → o.receiving ≡ true
      → (o.timer ≡ none) ⊎ (o.timer ≡ some recv_timer)
      → is_some o.remote_addr.family ≡ true
      → is_some o.recved_cb ≡ true
      → Phase o
  listening : o.state ≡ st_listened → o.receiving ≡ false → o.timer ≡ none → Phase o
  accepting :
      o.state ≡ st_accepting
      → o.receiving ≡ false
      → (o.timer ≡ none) ⊎ (o.timer ≡ some accept_timer)
      → is_some o.accepted_cb ≡ true
      → Phase o

pub record TcpValid (o : Socket) : Type 0 where
  pub is_tcp_socket : o.kind ≡ tcp
  pub phase : Phase o

pub Phase-none :
    (o : Socket) → Phase o → is_none o.state ≡ true → (o.receiving ≡ false) × (o.timer ≡ none)
Phase-none o (unused s r t) e = (r, t)
Phase-none o (connecting s r t w k c) e = absurd (ground (arith, s, e))
Phase-none o (idle s r t k) e = absurd (ground (arith, s, e))
Phase-none o (receiving s r t k c) e = absurd (ground (arith, s, e))
Phase-none o (listening s r t) e = absurd (ground (arith, s, e))
Phase-none o (accepting s r t c) e = absurd (ground (arith, s, e))

pub Phase-listened :
    (o : Socket) → Phase o → is_listened o.state ≡ true → (o.receiving ≡ false) × (o.timer ≡ none)
Phase-listened o (listening s r t) e = (r, t)
Phase-listened o (unused s r t) e = absurd (ground (arith, s, e))
Phase-listened o (connecting s r t w k c) e = absurd (ground (arith, s, e))
Phase-listened o (idle s r t k) e = absurd (ground (arith, s, e))
Phase-listened o (receiving s r t k c) e = absurd (ground (arith, s, e))
Phase-listened o (accepting s r t c) e = absurd (ground (arith, s, e))

pub Phase-connected :
    (o : Socket)
    → Phase o
    → is_connected o.state ≡ true
    → o.receiving ≡ false
    → (o.state ≡ st_connected) × (o.timer ≡ none) × (is_some o.remote_addr.family ≡ true)
Phase-connected o (idle s r t k) e f = (s, t, k)
Phase-connected o (receiving s r t k c) e f = absurd (ground (arith, r, f))
Phase-connected o (listening s r t) e f = absurd (ground (arith, s, e))
Phase-connected o (unused s r t) e f = absurd (ground (arith, s, e))
Phase-connected o (connecting s r t w k c) e f = absurd (ground (arith, s, e))
Phase-connected o (accepting s r t c) e f = absurd (ground (arith, s, e))

pub state_none : (s : State) → is_none s ≡ true → s ≡ st_none
state_none st_none e = refl
state_none st_connecting e = cc
state_none st_connected e = cc
state_none st_listened e = cc
state_none st_accepting e = cc

pub state_listened : (s : State) → is_listened s ≡ true → s ≡ st_listened
state_listened st_none e = cc
state_listened st_connecting e = cc
state_listened st_connected e = cc
state_listened st_listened e = refl
state_listened st_accepting e = cc

-- The timer that a registration leaves, where none was running.
pub register_rule :
    (P : Option (Option Timer) → Type 0) (b : Bool) (t : Timer) (o : Socket)
    → o.timer ≡ none
    → P none
    → ((u : Option Timer) → (u ≡ none) ⊎ (u ≡ some t) → P (some u))
    → P (register b t o)
register_rule P b t o e f g =
    if_rule P (o.timeout == 0) (λ q. g o.timer (inl e))
      (λ q. if_rule P b (λ r. g (some t) (inr refl)) (λ r. f))

-- A call or a handler that ends leaves a socket in a phase.
abbrev pub Keeps : {A : Type 0} → (A → Socket) → Outcome A → Type 0
Keeps f (ok x) = Phase (f x)
Keeps f abort = Unit

pub require_rule :
    {A : Type 0} (f : A → Socket) (b : Bool) (k : Unit {0} → Outcome A)
    → (b ≡ true → Keeps f (k tt))
    → Keeps f (require b >>= k)
require_rule f true k h = h refl
require_rule f false k h = tt

pub Keeps-ok :
    {A : Type 0} (f : A → Socket) (r : Outcome A) (x : A) → Keeps f r → r ≡ ok x → Phase (f x)
Keeps-ok f r x k e = subst (Keeps f) e k
