-- ===== src/Socket/Receive.antt =====
-- Receiving: `pal_socket_recv` of platform/posix/src/socket.c, its handler and its timer's callback.
use homekit_bridge.Base.{ℕ, Bool, true, false, not, ◌&&◌, none, some, [], if◌then◌else◌, take, ◌==◌}
use homekit_bridge.Base.Bytes.{Bytes}
use homekit_bridge.Base.Outcome.{Outcome, ok, ◌>>◌, require}
use homekit_bridge.Socket.{
  Err, err_ok, err_timeout, err_in_progress, err_unknown, err_invalid_state, err_busy, Addr,
  recv_timer, Socket, recved_call, Effect, is_connected, is_some, is_tcp, call, register,
}

-- What `recv` or `recvfrom` answers: bytes, of which it gives no more than it is asked for, and the
-- address that `recvfrom` says they come from.
pub data Arriving : Type 0 where
  arrives : Bytes → Addr → Arriving
  nothing broken : Arriving

-- `pal_socket_recv`; `registered` is the answer of `HAPPlatformTimerRegister`.
unfoldable pub recv : Bool → ℕ → ℕ → ℕ → Socket → Outcome (Socket × Err)
recv registered maxlen cb arg o = do
  require (not (maxlen == 0))
  if is_tcp o.kind && not (is_connected o.state)
      then ok (o, err_invalid_state)
      else if o.receiving
      then ok (o, err_busy)
      else elim (register registered recv_timer o) [
        | none ↦ ok (o, err_unknown)
        | some timer ↦ ok (
          record o {
            timer = timer;
            recv_maxlen = maxlen;
            recved_cb = some cb;
            cb_arg = arg;
            receiving = true;
          },
          err_in_progress,
        )
      ]

-- `pal_socket_handle_recv_cb` behind the removal of the timer. Bytes of an address that is not of a
-- family end the process.
unfoldable pub end_recv : Arriving → Socket → Outcome Effect
end_recv nothing o = ok (record { socket = o; calls = []; wire = [] })
end_recv broken o = ok (record {
  socket = record o { receiving = false };
  calls = call o.recved_cb (λ cb. recved_call cb err_unknown none o.cb_arg);
  wire = [];
})
end_recv (arrives bytes sender) o =
    let from = if is_connected o.state then o.remote_addr else sender in
    require (is_some from.family)
    >> ok (record {
      socket = record o { receiving = false };
      calls =
          call o.recved_cb
            (λ cb. recved_call cb err_ok (some (from, take o.recv_maxlen bytes)) o.cb_arg);
      wire = [];
    })

-- `pal_socket_handle_recv_cb`, when the socket is ready for reading
unfoldable pub handle_recv : Arriving → Socket → Outcome Effect
handle_recv a o =
    if not o.receiving
    then ok (record { socket = o; calls = []; wire = [] })
    else end_recv a (record o { timer = none })

-- `pal_socket_recv_timeout_cb`
unfoldable pub recv_timeout : Socket → Effect
recv_timeout o = record {
  socket = record o { timer = none; receiving = false };
  calls = call o.recved_cb (λ cb. recved_call cb err_timeout none o.cb_arg);
  wire = [];
}
