-- ===== src/Socket/Phases/Calls.antt =====
-- The phases of a TCP socket under the calls of a program (platform/posix/src/socket.c).
use homekit_bridge.Base.{
  ℕ, ◌≡◌, inl, inr, refl, Bool, true, false, not, ◌&&◌, Option, none, some, List, [], ◌∷◌, if_rule,
  if◌then◌else◌, arith, ◌==◌, Option-cases, is_empty, length, take, drop, ◌++◌,
}
use homekit_bridge.Base.Bytes.{Bytes}
use homekit_bridge.Base.Outcome.{Outcome, ok, ◌>>=◌, ◌>>◌, require}
use homekit_bridge.Socket.{
  Family, tcp, st_none, st_connecting, st_listened, st_accepting, Timer, connect_timer,
  accept_timer, recv_timer, Socket, Addr, Err, err_ok, err_in_progress, err_timeout, err_unknown,
  err_alloc, err_invalid_arg, err_invalid_state, err_busy, is_none, is_connected, is_listened,
  is_some, is_tcp, register, addr_set,
}
use homekit_bridge.Socket.Connect.{
  Connecting, connects, already, in_progress, refused, begin_connect, connect, listen,
  AcceptAnswers, accept, accept_async, begin_accept, address_known,
}
use homekit_bridge.Socket.Receive.{recv}
use homekit_bridge.Socket.Send.{
  Taking, SendAnswers, Sent, enqueue, transmit, send_to, takes, would_block, failed, new_mbuf,
}
use homekit_bridge.Socket.{enable_write, mbuf_in, Mbuf, unspecified, set_timeout}
use homekit_bridge.Socket.Phases.{
  Keeps, require_rule, Phase, unused, connecting, idle, receiving, listening, accepting, Phase-none,
  Phase-listened, Phase-connected, state_none, state_listened, register_rule,
}

addr_set-known :
    (inet_pton : Family → Bytes → Option Bytes) (old : Addr) (af : Family) (text : Bytes) (port : ℕ)
    → is_some (addr_set inet_pton old af text port).0.family ≡ true
unfolding addr_set
addr_set-known inet_pton old af text port = elim (Option-cases (inet_pton af text)) [
  | inl e ↦ ground (arith, e)
  | inr (h, e) ↦ ground (arith, e)
]

module _ (inet_pton : Family → Bytes → Option Bytes) where
  begin_connect-Phase :
      (a : Connecting) (b : Bool) (cb arg : ℕ) (o : Socket)
      → o.state ≡ st_none
      → o.receiving ≡ false
      → o.timer ≡ none
      → is_some o.remote_addr.family ≡ true
      → Phase (begin_connect a b cb arg o).0
  unfolding begin_connect
  begin_connect-Phase connects b cb arg o s r t k = idle refl r t k
  begin_connect-Phase already b cb arg o s r t k = idle refl r t k
  begin_connect-Phase refused b cb arg o s r t k = unused s r t
  begin_connect-Phase in_progress b cb arg o s r t k =
      register_rule
        (λ x.
          Phase
            (elim x as (λ y. Socket × Err) [
              | none ↦ (o, err_unknown)
              | some timer ↦ (
                record o {
                  timer = timer;
                  writing = true;
                  state = st_connecting;
                  connected_cb = some cb;
                  cb_arg = arg;
                },
                err_in_progress,
              )
            ]).0)
        b connect_timer o t (unused s r t) (λ u w. connecting refl r w refl k refl)

  pub connect-Phase :
      (a : Connecting) (b : Bool) (text : Bytes) (port cb arg : ℕ) (o : Socket)
      → Phase o
      → Phase (connect inet_pton a b text port cb arg o).0
  unfolding connect
  connect-Phase a b text port cb arg o p =
      if_rule (λ (x : Socket × Err). Phase x.0) (not (is_none o.state)) (λ e. p)
        λ e.
          let n : is_none o.state ≡ true = ground (arith, e) in
          let (r, t) = Phase-none o p n in
          let to = addr_set inet_pton o.remote_addr o.af text port in
          if_rule (λ (x : Socket × Err). Phase x.0) (not to.1)
            (λ f. unused (state_none o.state n) r t)
            (λ f.
              begin_connect-Phase a b cb arg (record o { remote_addr = to.0 })
                (state_none o.state n) r t (addr_set-known inet_pton o.remote_addr o.af text port))

pub set_timeout-Phase : (ms : ℕ) (o : Socket) → Phase o → Phase (set_timeout ms o)
unfolding set_timeout
set_timeout-Phase ms o (unused s r t) = unused s r t
set_timeout-Phase ms o (connecting s r t w k c) = connecting s r t w k c
set_timeout-Phase ms o (idle s r t k) = idle s r t k
set_timeout-Phase ms o (receiving s r t k c) = receiving s r t k c
set_timeout-Phase ms o (listening s r t) = listening s r t
set_timeout-Phase ms o (accepting s r t c) = accepting s r t c

pub listen-Phase : (b : Bool) (o : Socket) → Phase o → Phase (listen b o).0
unfolding listen
listen-Phase b o p =
    if_rule (λ (x : Socket × Err). Phase x.0) (not (is_none o.state)) (λ e. p)
      λ e.
        let n : is_none o.state ≡ true = ground (arith, e) in
        let (r, t) = Phase-none o p n in
        if_rule (λ (x : Socket × Err). Phase x.0) b (λ f. listening refl r t)
          (λ f. unused (state_none o.state n) r t)

abbrev accept_socket : Socket × Err × Option (Socket × Addr) → Socket
accept_socket x = x.0

begin_accept-Phase :
    (x : Err × Option (Socket × Addr)) (b : Bool) (cb arg : ℕ) (o : Socket)
    → o.state ≡ st_listened
    → o.receiving ≡ false
    → o.timer ≡ none
    → Keeps accept_socket (begin_accept x b cb arg o)
unfolding begin_accept
begin_accept-Phase (err_in_progress, new) b cb arg o s r t =
    register_rule
      (λ x. Keeps accept_socket (elim x as (λ y. Outcome (Socket × Err × Option (Socket × Addr))) [
        | none ↦ ok (o, err_unknown, new)
        | some timer ↦ ok (
          record o { timer = timer; state = st_accepting; accepted_cb = some cb; cb_arg = arg },
          err_in_progress,
          new,
        )
      ]))
      b accept_timer o t (listening s r t) (λ u w. accepting refl r w refl)
begin_accept-Phase (err_ok, new) b cb arg o s r t =
    require_rule accept_socket (address_known new) (λ _. ok (o, err_ok, new)) (λ q. listening s r t)
begin_accept-Phase (err_timeout, new) b cb arg o s r t =
    require_rule accept_socket (address_known new) (λ _. ok (o, err_timeout, new))
      (λ q. listening s r t)
begin_accept-Phase (err_unknown, new) b cb arg o s r t =
    require_rule accept_socket (address_known new) (λ _. ok (o, err_unknown, new))
      (λ q. listening s r t)
begin_accept-Phase (err_alloc, new) b cb arg o s r t =
    require_rule accept_socket (address_known new) (λ _. ok (o, err_alloc, new))
      (λ q. listening s r t)
begin_accept-Phase (err_invalid_arg, new) b cb arg o s r t =
    require_rule accept_socket (address_known new) (λ _. ok (o, err_invalid_arg, new))
      (λ q. listening s r t)
begin_accept-Phase (err_invalid_state, new) b cb arg o s r t =
    require_rule accept_socket (address_known new) (λ _. ok (o, err_invalid_state, new))
      (λ q. listening s r t)
begin_accept-Phase (err_busy, new) b cb arg o s r t =
    require_rule accept_socket (address_known new) (λ _. ok (o, err_busy, new))
      (λ q. listening s r t)

pub accept-Phase :
    (a : AcceptAnswers) (b : Bool) (cb arg : ℕ) (o : Socket)
    → Phase o
    → Keeps (λ (x : Socket × Err × Option (Socket × Addr)). x.0) (accept a b cb arg o)
unfolding accept
accept-Phase a b cb arg o p =
    if_rule (Keeps accept_socket) (not (is_listened o.state)) (λ e. p)
      λ e.
        let n : is_listened o.state ≡ true = ground (arith, e) in
        let (r, t) = Phase-listened o p n in
        begin_accept-Phase (accept_async a o) b cb arg o (state_listened o.state n) r t

pub recv-Phase :
    (b : Bool) (maxlen cb arg : ℕ) (o : Socket)
    → o.kind ≡ tcp
    → Phase o
    → Keeps (λ (x : Socket × Err). x.0) (recv b maxlen cb arg o)
unfolding recv
recv-Phase b maxlen cb arg o k p =
    require_rule f (not (maxlen == 0)) (λ _. body)
      λ z.
        if_rule P (is_tcp o.kind && not (is_connected o.state)) (λ e. p)
          λ e.
            if_rule P o.receiving (λ g. p)
              λ g.
                let (s, t, n) = Phase-connected o p (ground (arith, k, e)) g in
                register_rule
                  (λ x. P (elim x as (λ y. Outcome (Socket × Err)) [
                    | none ↦ ok (o, err_unknown)
                    | some timer ↦ ok (started timer, err_in_progress)
                  ]))
                  b recv_timer o t p (λ u w. receiving s refl w n refl)
  where
    f : Socket × Err → Socket
    f x = x.0

    P : Outcome (Socket × Err) → Type 0
    P = Keeps f

    started : Option Timer → Socket
    started timer = record o {
      timer = timer;
      recv_maxlen = maxlen;
      recved_cb = some cb;
      cb_arg = arg;
      receiving = true;
    }

    body : Outcome (Socket × Err)
    body =
        if is_tcp o.kind && not (is_connected o.state)
        then ok (o, err_invalid_state)
        else if o.receiving
        then ok (o, err_busy)
        else elim (register b recv_timer o) [
          | none ↦ ok (o, err_unknown)
          | some timer ↦ ok (started timer, err_in_progress)
        ]

-- A buffer that is queued, and the interest in writing.
Phase-enqueued :
    (ms : List Mbuf) (o : Socket) → Phase o → Phase (record o { mbufs = ms; writing = true })
Phase-enqueued ms o (unused s r t) = unused s r t
Phase-enqueued ms o (connecting s r t w k c) = connecting s r t refl k c
Phase-enqueued ms o (idle s r t k) = idle s r t k
Phase-enqueued ms o (receiving s r t k c) = receiving s r t k c
Phase-enqueued ms o (listening s r t) = listening s r t
Phase-enqueued ms o (accepting s r t c) = accepting s r t c

abbrev sent_socket : Sent → Socket
sent_socket x = x.socket

enqueue-Phase :
    (b : Bool) (m : Mbuf) (err : Err) (len : ℕ) (wire : Bytes) (o : Socket)
    → Phase o
    → Keeps sent_socket (enqueue b m err len wire o)
unfolding enqueue mbuf_in
enqueue-Phase false m err len wire o p = p
enqueue-Phase true m err len wire o p = go o.tail
  where
    go :
        (b : Bool)
        → Keeps sent_socket (
            (require b >> ok (record o { mbufs = o.mbufs ++ m ∷ [] })) >>= λ o'.
            ok
              (record { socket = enable_write true o'; err = err; len = length wire; wire = wire }))
    go true = Phase-enqueued (o.mbufs ++ m ∷ []) o p
    go false = tt

transmit-Phase :
    (t : Taking) (b : Bool) (bytes : Bytes) (to : Option Addr) (all : Bool) (cb arg : ℕ)
    (o : Socket)
    → Phase o
    → Keeps sent_socket (transmit (record { sys = t; memory = b }) bytes to all cb arg o)
unfolding transmit
transmit-Phase t b bytes to all cb arg o p =
    if_rule (Keeps sent_socket) (not (is_empty o.mbufs))
      (λ e. enqueue-Phase b (new_mbuf bytes to all cb arg) err_in_progress (length bytes) [] o p)
      (λ e. go t)
  where
    go :
        (t : Taking)
        → Keeps sent_socket (elim t [
          | would_block ↦
              enqueue b (new_mbuf bytes to all cb arg) err_in_progress (length bytes) [] o
          | failed ↦ ok (record { socket = o; err = err_unknown; len = 0; wire = [] })
          | takes n ↦
              let wire = take n bytes in
              if length wire == length bytes
              then ok (record { socket = o; err = err_ok; len = length wire; wire = wire })
              else if all
              then enqueue b
                  (new_mbuf (drop (length wire) bytes) to all cb arg)
                  err_ok
                  (length bytes)
                  wire
                  o
              else ok (record { socket = o; err = err_ok; len = length wire; wire = wire })
        ])
    go would_block =
        enqueue-Phase b (new_mbuf bytes to all cb arg) err_in_progress (length bytes) [] o p
    go failed = p
    go (takes n) =
        if_rule (Keeps sent_socket) (length (take n bytes) == length bytes) (λ e. p)
          λ e.
            if_rule (Keeps sent_socket) all
              (λ h.
                enqueue-Phase b (new_mbuf (drop (length (take n bytes)) bytes) to all cb arg) err_ok
                  (length bytes) (take n bytes) o p)
              (λ h. p)

pub send_to-Phase :
    (inet_pton : Family → Bytes → Option Bytes) (a : SendAnswers) (bytes : Bytes)
    (addr : Option (Bytes × ℕ)) (all : Bool) (cb arg : ℕ) (o : Socket)
    → Phase o
    → Keeps sent_socket (send_to inet_pton a bytes addr all cb arg o)
unfolding send_to
send_to-Phase inet_pton a bytes none all cb arg o p =
    require_rule sent_socket (is_some o.remote_addr.family)
      (λ _. transmit a bytes none all cb arg o)
      (λ e. transmit-Phase a.sys a.memory bytes none all cb arg o p)
send_to-Phase inet_pton a bytes (some (text, port)) all cb arg o p =
    if_rule (Keeps sent_socket) (addr_set inet_pton unspecified o.af text port).1
      (λ e.
        transmit-Phase a.sys a.memory bytes (some (addr_set inet_pton unspecified o.af text port).0)
          all cb arg o p)
      (λ e. p)
