-- ===== src/Socket/Phases/Opening.antt =====
-- The phases of a TCP socket under the handlers of connecting and accepting
-- (platform/posix/src/socket.c).
use homekit_bridge.Base.{
  ◌≡◌, ◌⊎◌, inl, inr, refl, ◌∙◌, Bool, true, false, Option, none, [], Bool-cases, arith,
}
use homekit_bridge.Base.Outcome.{Outcome, ok, abort, ◌>>◌, require}
use homekit_bridge.Socket.{
  st_connecting, st_accepting, st_listened, Socket, Addr, Err, err_ok, err_in_progress, err_timeout,
  err_unknown, err_alloc, err_invalid_arg, err_invalid_state, err_busy, is_some,
}
use homekit_bridge.Socket.Connect.{
  Connecting, connects, already, in_progress, refused, AcceptAnswers, accept_async, accepts, nobody,
  broken, address_known,
}
use homekit_bridge.Socket.Send.{Taking, would_block}
use homekit_bridge.Socket.{Effect, call, accepted_call}
use homekit_bridge.Socket.Connect.{handle_connect, end_connect, handle_accept, end_accept}
use homekit_bridge.Socket.Events.{EventAnswers, unchanged}
use homekit_bridge.Socket.Phases.{Phase, unused, connecting, idle, listening, accepting}

-- A handler ends with a socket in a phase, or it aborts because `sendto` would block.
unfoldable pub Handled : Taking → Outcome Effect → Type 0
Handled t r = ((r ≡ abort) × (t ≡ would_block)) ⊎ ((x : Effect) × (r ≡ ok x) × Phase x.socket)

pub handled : (t : Taking) (x : Effect) → Phase x.socket → Handled t (ok x)
unfolding Handled
handled t x p = inr (x, refl, p)

pub still : (t : Taking) (o : Socket) → Phase o → Handled t (unchanged o)
still t o p = handled t (record { socket = o; calls = []; wire = [] }) p

end_connect-Phase :
    (a : Connecting) (o : Socket)
    → o.state ≡ st_connecting
    → o.receiving ≡ false
    → o.timer ≡ none
    → o.writing ≡ true
    → is_some o.remote_addr.family ≡ true
    → is_some o.connected_cb ≡ true
    → Phase (end_connect a o).socket
unfolding end_connect
end_connect-Phase connects o s r t w k c = idle refl r t k
end_connect-Phase already o s r t w k c = idle refl r t k
end_connect-Phase refused o s r t w k c = unused refl r t
end_connect-Phase in_progress o s r t w k c = connecting s r (inl t) w k c

pub handle_connect-Phase :
    (t : Taking) (a : Connecting) (o : Socket)
    → o.state ≡ st_connecting
    → o.receiving ≡ false
    → o.writing ≡ true
    → is_some o.remote_addr.family ≡ true
    → is_some o.connected_cb ≡ true
    → Handled t (handle_connect a o)
unfolding handle_connect Handled
handle_connect-Phase t a o s r w k c = inr (
  end_connect a (record o { timer = none }),
  ground (arith, s, k),
  end_connect-Phase a (record o { timer = none }) s r refl w k c,
)

-- The address of an accepted connection has a family.
abbrev pub from_known : AcceptAnswers → Bool
from_known a = elim a.sys [ accepts from ↦ is_some from.family | nobody ↦ true | broken ↦ true ]

accept_async-from_known :
    (a : AcceptAnswers) (o : Socket)
    → address_known (accept_async a o).1 ≡ false
    → from_known a ≡ false
unfolding accept_async
accept_async-from_known a o h = ground (arith, h)

-- A handler ends as those do, or it aborts at the address of an accepted connection.
unfoldable pub Ended : EventAnswers → Outcome Effect → Type 0
Ended a r = Handled a.taking r ⊎ ((r ≡ abort) × (from_known a.accepting ≡ false))

-- A socket that listens again, unless the address ends the process.
listened_again :
    (err : Err) (new : Option (Socket × Addr)) (o : Socket)
    → o.receiving ≡ false
    → o.timer ≡ none
    → let x : Effect = record {
      socket = record o { state = st_listened };
      calls = call o.accepted_cb (λ cb. accepted_call cb err new o.cb_arg);
      wire = [];
    } in
      let r : Outcome Effect = require (address_known new) >> ok x in
      ((r ≡ abort) × (address_known new ≡ false)) ⊎ ((y : Effect) × (r ≡ ok y) × Phase y.socket)
listened_again err new o r t = elim (Bool-cases (address_known new)) [
  | inl k ↦ inr (
    record {
      socket = record o { state = st_listened };
      calls = call o.accepted_cb (λ cb. accepted_call cb err new o.cb_arg);
      wire = [];
    },
    rw k refl,
    listening refl r t,
  )
  | inr k ↦ inl (rw k refl, k)
]

end_accept-Phase :
    (x : Err × Option (Socket × Addr)) (o : Socket)
    → o.state ≡ st_accepting
    → o.receiving ≡ false
    → o.timer ≡ none
    → is_some o.accepted_cb ≡ true
    → ((end_accept x o ≡ abort) × (address_known x.1 ≡ false))
      ⊎ ((y : Effect) × (end_accept x o ≡ ok y) × Phase y.socket)
unfolding end_accept
end_accept-Phase (err_in_progress, new) o s r t c =
    inr (record { socket = o; calls = []; wire = [] }, refl, accepting s r (inl t) c)
end_accept-Phase (err_ok, new) o s r t c = listened_again err_ok new o r t
end_accept-Phase (err_timeout, new) o s r t c = listened_again err_timeout new o r t
end_accept-Phase (err_unknown, new) o s r t c = listened_again err_unknown new o r t
end_accept-Phase (err_alloc, new) o s r t c = listened_again err_alloc new o r t
end_accept-Phase (err_invalid_arg, new) o s r t c = listened_again err_invalid_arg new o r t
end_accept-Phase (err_invalid_state, new) o s r t c = listened_again err_invalid_state new o r t
end_accept-Phase (err_busy, new) o s r t c = listened_again err_busy new o r t

pub handle_accept-Ended :
    (b : EventAnswers) (o : Socket)
    → o.state ≡ st_accepting
    → o.receiving ≡ false
    → is_some o.accepted_cb ≡ true
    → Ended b (handle_accept b.accepting o)
unfolding handle_accept Handled Ended
handle_accept-Ended b o s r c =
    let o' : Socket = record o { timer = none } in
    let x = accept_async b.accepting o in
    let q : handle_accept b.accepting o ≡ end_accept x o' = ground (arith, s) in
    elim (end_accept-Phase x o' s r refl c) [
      | inl (e, k) ↦ inr (q ∙ e, accept_async-from_known b.accepting o k)
      | inr (y, e, p) ↦ inl (inr (y, q ∙ e, p))
    ]
