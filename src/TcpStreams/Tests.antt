-- ===== src/TcpStreams/Tests.antt =====
-- TCP streams of one listener with room for one stream, and the theorems there.
use mathlib.Core.Path.{subst}
use homekit_bridge.Base.{
  ℕ, ◌+◌, ◌<◌, ◌≡◌, refl, ap, sym, ◌∙◌, true, false, Option, none, some, List, [], ◌∷◌, ◌==◌, arith,
}
use homekit_bridge.Base.Outcome.{Outcome, ok, abort, ◌>>=◌}
use homekit_bridge.RunLoop.Handles.{
  Handle, Handles, Ready, find, next, unlink, adjust, register, deregister, events,
}
use homekit_bridge.RunLoop.Handles as Calls
use homekit_bridge.TcpStreams.{
  Manager, Tcp, connected, accepted, out_of_resources, no_stream, listener_cb, stream_cb,
  for_reading, create, free_from, watch_listener, take_stream, accept, require_open,
  update_interests,
}
use homekit_bridge.TcpStreams.Listeners.{
  Opening, listener_port, open_listener, is_listener_open, get_listener_port,
}
use homekit_bridge.TcpStreams.Traffic.{
  handle_listener, handle_stream, bytes, moved, transfer, close_output,
}
use homekit_bridge.TcpStreams.Valid.{Valid}
use homekit_bridge.TcpStreams.Actions.{
  Action, opening, accepting, closing, updating, perform, run_calls, Allowed, AllAllowed, Safe,
  Opens, Fresh,
}
use homekit_bridge.TcpStreams.Safe.{run_calls-Safe, create-Valid}
use homekit_bridge.TcpStreams.Connections.{connection_accepted}
use homekit_bridge.TcpStreams.Dispatch.{handle_stream_calls}

abbrev empty : Handles
empty = record { list = []; cursor = 0 }

abbrev m0 : Manager
m0 = record {
  count = 0;
  max = 1;
  port = 0;
  listener = record {
    managed = false;
    port = 0;
    descriptor = none;
    handle = 0;
    callback = 0;
    context = 0;
  };
  streams = λ i. no_stream;
}

abbrev with_manager : Manager → Tcp
with_manager m = record { manager = m; handles = empty }

abbrev t0 : Tcp
t0 = with_manager m0

abbrev value : {A : Type 0} → A → Outcome A → A
value d abort = d
value d (ok a) = a

creates : create 0 1 true ≡ ok m0
unfolding create
creates = refl

t0-Valid : Valid t0
unfolding find
t0-Valid =
    let (m, e, v) =
      create-Valid 0 1 empty refl (record { formed = tt; cursor = λ c. absurd (ground (arith, c)) })
        (λ p h f. absurd (ground (arith, f))) in
    subst (λ x. Valid (with_manager x)) (ap (value m) (sym e ∙ creates)) v

abbrev answers : Opening
answers = record {
  socket = some 5;
  reuses = true;
  bound = true;
  chosen = some 5540;
  listens = true;
  alloc = some 2;
}

abbrev open_it : Action
open_it = opening 7 8 answers

abbrev accept_it : Action
accept_it = accepting (connected 6) true true (some 3)

abbrev update_it : Action
update_it = updating 0 true false 9 4

abbrev close_it : Action
close_it = closing 0

abbrev t1 : Tcp
t1 = value t0 (perform open_it t0)

abbrev t2 : Tcp
t2 = value t0 (perform accept_it t1)

abbrev t3 : Tcp
t3 = value t0 (perform update_it t2)

opens : perform open_it t0 ≡ ok t1
unfolding perform open_listener listener_port register
opens = refl

accepts : perform accept_it t1 ≡ ok t2
unfolding perform accept free_from take_stream watch_listener Calls.update_interests find adjust
    open_listener listener_port register
accepts = refl

updates : perform update_it t2 ≡ ok t3
unfolding perform accept free_from take_stream watch_listener Calls.update_interests find adjust
    open_listener listener_port register update_interests require_open
updates = refl

known :
    (a : Action) (more : List Action) (t t' : Tcp)
    → perform a t ≡ ok t'
    → AllAllowed more t'
    → (u : Tcp) → perform a t ≡ ok u
    → AllAllowed more u
known a more t t' e h u q = subst (AllAllowed more) (ap (value t') (sym e ∙ q)) h

answers-Opens : Opens answers t0
answers-Opens = record {
  descriptor = 5;
  socket = refl;
  reuses = refl;
  bound = refl;
  port = λ _. (5540, refl, refl);
  listens = refl;
  fresh = (2, refl, refl, tt);
}

abbrev until_open : List Action
until_open = open_it ∷ []

abbrev until_asking : List Action
until_asking = open_it ∷ accept_it ∷ update_it ∷ []

until_open_allowed : AllAllowed until_open t0
until_open_allowed = ((refl, refl, answers-Opens), λ u e. tt)

t1-Valid : Valid t1
unfolding run_calls
t1-Valid =
    subst Safe (ap (λ x. x >>= run_calls []) opens)
      (run_calls-Safe until_open t0 t0-Valid until_open_allowed)

accept_allowed : Fresh (some 3) t1
unfolding perform open_listener listener_port register
accept_allowed = (3, refl, refl, (refl, tt))

update-Allowed : Allowed update_it t2
unfolding perform accept free_from take_stream watch_listener Calls.update_interests find adjust
    open_listener listener_port register
update-Allowed = (refl, refl)

abbrev until_closed : List Action
until_closed = open_it ∷ accept_it ∷ update_it ∷ close_it ∷ []

accept_is_Allowed : Allowed accept_it t1
unfolding perform open_listener listener_port register
accept_is_Allowed = (refl, refl, refl, accept_allowed)

close-Allowed : Allowed close_it t3
unfolding perform accept free_from take_stream watch_listener Calls.update_interests find adjust
    open_listener listener_port register update_interests require_open
close-Allowed = refl

-- The calls from `t1` on, with what comes after the stream waits for bytes.
allowed_then :
    (more : List Action)
    → AllAllowed more t3
    → AllAllowed (open_it ∷ accept_it ∷ update_it ∷ more) t0
allowed_then more h = (
  (refl, refl, answers-Opens),
  known open_it (accept_it ∷ update_it ∷ more) t0 t1 opens (
    accept_is_Allowed,
    known accept_it (update_it ∷ more) t1 t2 accepts
        (update-Allowed, known update_it more t2 t3 updates h),
  ),
)

run_calls-Safe_example : Safe (run_calls until_closed t0)
run_calls-Safe_example =
    run_calls-Safe until_closed t0 t0-Valid
      (allowed_then (close_it ∷ []) (close-Allowed, λ u e. tt))

t3-Valid : Valid t3
unfolding run_calls
t3-Valid =
    let e : run_calls until_asking t0 ≡ ok t3 = rw (run_calls, opens, accepts, updates) refl in
    subst Safe e (run_calls-Safe until_asking t0 t0-Valid (allowed_then [] tt))

connection_accepted_example :
    ((h : Handle) × (find t1.manager.listener.handle t1.handles.list ≡ some h)
      × (h.interests.reading ≡ true))
    × ((i : ℕ) × (u : Tcp) × (accept (connected 6) true true (some 3) t1 ≡ ok (u, accepted i))
        × (i < t1.manager.max)
        × (t1.manager.streams i ≡ no_stream)
        × ((u.manager.streams i).descriptor ≡ some 6)
        × ((j : ℕ) → (i == j) ≡ false → u.manager.streams j ≡ t1.manager.streams j)
        × (u.manager.count ≡ t1.manager.count + 1))
unfolding perform open_listener listener_port register
connection_accepted_example =
    connection_accepted 6 (some 3) t1 t1-Valid refl (omega arith) accept_allowed

abbrev handle_of : Option Handle → Handle
handle_of none = record {
  address = 0;
  descriptor = none;
  interests = for_reading false;
  callback = 0;
  context = 0;
  awaiting = false;
}
handle_of (some h) = h

abbrev all_ready : Ready
all_ready = record { reading = λ d. true; writing = λ d. true; error = λ d. true }

abbrev stream_handle : Handle
stream_handle = record {
  address = 3;
  descriptor = some 6;
  interests = for_reading true;
  callback = stream_cb;
  context = 0;
  awaiting = false;
}

stream_found : find 3 t3.handles.list ≡ some stream_handle
unfolding perform accept free_from take_stream watch_listener Calls.update_interests find adjust
    open_listener listener_port register update_interests require_open
stream_found = refl

abbrev listener_handle : Handle
listener_handle = record {
  address = 2;
  descriptor = some 5;
  interests = for_reading true;
  callback = listener_cb;
  context = 0;
  awaiting = false;
}

listener_found : find 2 t1.handles.list ≡ some listener_handle
unfolding perform find open_listener listener_port register
listener_found = refl

handle_stream_calls_example :
    (((t3.manager.streams 0).callback == 0) ≡ false)
    × (handle_stream 3 (events all_ready 6 stream_handle) 0 t3
        ≡ ok (
            some (record {
              callback = (t3.manager.streams 0).callback;
              stream = 0;
              has_bytes_available = true;
              has_space_available = false;
              context = (t3.manager.streams 0).context;
            })))
handle_stream_calls_example =
    handle_stream_calls 3 6 stream_handle all_ready t3 t3-Valid stream_found refl refl

listener_called :
    handle_listener 2 (events all_ready 5 listener_handle) t1
    ≡ ok (t1.manager.listener.callback, t1.manager.listener.context)
unfolding perform open_listener listener_port register handle_listener
listener_called = refl

-- With the only stream in use, the listener does not wait for connections.
full : find 2 t2.handles.list ≡ some (record listener_handle { interests = for_reading false })
unfolding perform accept free_from take_stream watch_listener Calls.update_interests find adjust
    open_listener listener_port register
full = refl

abbrev result_of : {A : Type 0} → Outcome (Tcp × A) → Option A
result_of abort = none
result_of (ok (t, x)) = some x

accept_full : result_of (accept (connected 9) true true none t2) ≡ some out_of_resources
unfolding perform accept free_from take_stream watch_listener Calls.update_interests find adjust
    open_listener listener_port register
accept_full = refl

read_three : transfer 0 10 (moved 3) t2 ≡ ok (bytes 3)
unfolding perform accept free_from take_stream watch_listener Calls.update_interests find adjust
    open_listener listener_port register transfer require_open
read_three = refl

read_free : transfer 0 10 (moved 3) t1 ≡ abort
unfolding perform open_listener listener_port register transfer require_open
read_free = refl

shut_free : close_output 0 t1 ≡ abort
unfolding perform open_listener listener_port register close_output require_open
shut_free = refl

port_chosen : get_listener_port t1.manager ≡ ok 5540
unfolding perform open_listener listener_port register get_listener_port
port_chosen = refl

listener_shut : is_listener_open t0.manager ≡ false
unfolding is_listener_open
listener_shut = refl
