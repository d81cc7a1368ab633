-- ===== src/Socket/Tests.antt =====
-- Runs of sockets on small inputs, and the theorems at them.
use homekit_bridge.Base.{◌⊎◌, ℕ, ◌≡◌, refl, true, false, Option, none, some, [], ◌∷◌, ◌++◌, arith}
use mathlib.Core.Path.{subst}
use homekit_bridge.Base.Bytes.{Bytes}
use homekit_bridge.Base.Outcome.{ok, abort}
use homekit_bridge.Socket.{
  Family, ipv4, tcp, st_connecting, st_connected, st_accepting, Addr, Mbuf, Socket, Effect,
  connect_timer, blank, create, addr_set, err_in_progress, mbuf_in,
}
use homekit_bridge.Socket.Connect.{
  connects, connect, begin_connect, accepts, nobody, accept_async, handle_connect, handle_accept,
  end_accept, new_socket,
}
use homekit_bridge.Socket.Send.{
  takes, would_block, transmit, enqueue, handle_send, Sent, send_to, send_top,
}
use homekit_bridge.Socket.Receive.{arrives}
use homekit_bridge.Socket.Events.{EventAnswers, handle_event}
use homekit_bridge.Socket.Stream.{sending, writable, run, pending, run_stream}
use homekit_bridge.Socket.Stuck.{pump, pump_stuck, send_to_muted}
use homekit_bridge.Socket.Reports.{handle_send_reports}
use homekit_bridge.Socket.{Err, err_ok, sent_call}
use homekit_bridge.Socket.Send.{finish}
use homekit_bridge.Socket.Phases.{TcpValid}
use homekit_bridge.Socket.Phases.Reachable.{
  Reachable, created, connects_to, onward, Step-TcpValid, Reachable-TcpValid, handle_event_ends,
}

abbrev pton : Family → Bytes → Option Bytes
pton af text = some text

abbrev peer : Addr
peer = record { family = some ipv4; host = 10 ∷ []; port = 80 }

abbrev linked : Socket
linked = record (blank tcp ipv4) { state = st_connected; remote_addr = peer; tail = true }

abbrev dialling : Socket
dialling = record linked {
  state = st_connecting;
  timeout = 9;
  timer = some connect_timer;
  writing = true;
  connected_cb = some 4;
  cb_arg = 5;
}

abbrev half : Mbuf
half = record { to_addr = none; sent_cb = 1; arg = 2; pos = 1; all = true; buf = 7 ∷ 8 ∷ 9 ∷ [] }

-- A message of which the system takes a byte at once and a byte at the write event.
two_parts :
    pump (1 ∷ []) (record linked { mbufs = record half { pos = 0 } ∷ [] })
    ≡ ok (record linked { mbufs = half ∷ [] }, [])
unfolding pump handle_send send_top
two_parts = refl

-- A send on a socket that was never connected ends the process.
send_to-unconnected :
    send_to pton
      (record { sys = takes 1; memory = true })
      (7 ∷ [])
      none
      true
      1
      2
      (record (blank tcp ipv4) { tail = true })
    ≡ abort
unfolding send_to
send_to-unconnected = refl

-- A message that cannot be sent at once on an accepted connection ends the process.
accepted_send :
    transmit
      (record { sys = would_block; memory = true })
      (7 ∷ [])
      none
      true
      1
      2
      (new_socket peer linked)
    ≡ abort
unfolding transmit enqueue mbuf_in
accepted_send = refl

run_stream_example :
    (o' : Socket) × (wire : Bytes) × (run pton 1 2
        (sending (some 1) (7 ∷ 8 ∷ []) ∷ writable 5 ∷ sending none (9 ∷ []) ∷ [])
        linked
      ≡ ok (o', wire))
    × (wire ++ pending o'.mbufs ≡ 7 ∷ 8 ∷ 9 ∷ [])
run_stream_example =
    run_stream pton 1 2 (sending (some 1) (7 ∷ 8 ∷ []) ∷ writable 5 ∷ sending none (9 ∷ []) ∷ [])
      linked (record { linked = refl; known = refl; whole = tt })

pump_stuck_example :
    (o' : Socket) × (k : ℕ) × (pump (1 ∷ 5 ∷ 5 ∷ []) (record linked { mbufs = half ∷ [] })
      ≡ ok (o', []))
    × (o'.mbufs ≡ record half { pos = k } ∷ [])
pump_stuck_example =
    pump_stuck (1 ∷ 5 ∷ 5 ∷ []) half [] (record linked { mbufs = half ∷ [] }) refl
      (record { all = refl; begun = omega arith; within = omega arith })

send_to_muted_example :
    (r : Sent) × (x : Effect) × (send_to pton
        (record { sys = would_block; memory = true })
        (7 ∷ [])
        none
        true
        1
        2
        dialling
      ≡ ok r)
    × (r.err ≡ err_in_progress)
    × (handle_connect connects r.socket ≡ ok x)
    × (x.socket.mbufs
        ≡ record { to_addr = none; sent_cb = 1; arg = 2; pos = 0; all = true; buf = 7 ∷ [] } ∷ [])
    × (x.socket.writing ≡ false)
send_to_muted_example = send_to_muted pton (7 ∷ []) true 1 2 dialling refl refl refl

abbrev new : Socket
new = record (blank tcp ipv4) { tail = true }

new-Reachable : Reachable pton new
unfolding create
new-Reachable =
    created (record { memory = true; socket_ok = true; nonblock_ok = true; register_ok = true }) tcp
      ipv4 new refl

-- A new socket connects at once.
joined-Reachable : Reachable pton (connect pton connects true (10 ∷ []) 80 4 5 new).0
joined-Reachable =
    onward new (connect pton connects true (10 ∷ []) 80 4 5 new).0 new-Reachable
      (connects_to connects true (10 ∷ []) 80 4 5 new)

joined : (connect pton connects true (10 ∷ []) 80 4 5 new).0 ≡ linked
unfolding connect begin_connect addr_set
joined = refl

linked-Reachable : Reachable pton linked
linked-Reachable = subst (Reachable pton) joined joined-Reachable

abbrev answers : EventAnswers
answers = record {
  connecting = connects;
  accepting = record { sys = nobody; memory = true; nonblock_ok = true; register_ok = true };
  taking = takes 3;
  arriving = arrives (1 ∷ []) peer;
}

Reachable-TcpValid_example : TcpValid linked
Reachable-TcpValid_example = Reachable-TcpValid pton linked linked-Reachable refl

-- A connection from an address without a family ends the process.
strange_peer :
    handle_accept
      (record {
        sys = accepts (record peer { family = none });
        memory = true;
        nonblock_ok = true;
        register_ok = true;
      })
      (record linked { state = st_accepting })
    ≡ abort
unfolding handle_accept end_accept accept_async
strange_peer = refl

handle_event_ends_example :
    (x : Effect) × (handle_event true answers (record { reading = true; writing = true }) linked
      ≡ ok x)
handle_event_ends_example =
    handle_event_ends pton answers (record { reading = true; writing = true }) linked
      linked-Reachable refl (λ e. cc) refl

Step-TcpValid_example : TcpValid (connect pton connects true (10 ∷ []) 80 4 5 new).0
Step-TcpValid_example =
    Step-TcpValid pton new (connect pton connects true (10 ∷ []) 80 4 5 new).0
      (connects_to connects true (10 ∷ []) 80 4 5 new)
      (Reachable-TcpValid pton new new-Reachable refl)

abbrev flushed : Effect
flushed = record { socket = linked; calls = sent_call 1 err_ok 3 2 ∷ []; wire = 7 ∷ 8 ∷ 9 ∷ [] }

flushing :
    handle_send (takes 3) (record linked { mbufs = record half { pos = 0 } ∷ [] }) ≡ ok flushed
unfolding handle_send send_top finish
flushing = refl

handle_send_reports_example :
    ((flushed.calls ≡ []) × (k : ℕ) × (linked.mbufs ≡ record half { pos = k } ∷ []))
    ⊎ ((linked.mbufs ≡ []) × (e : Err) × (flushed.calls ≡ sent_call 1 e 3 2 ∷ []))
handle_send_reports_example =
    handle_send_reports (takes 3) (record half { pos = 0 }) []
      (record linked { mbufs = record half { pos = 0 } ∷ [] }) flushed refl flushing
