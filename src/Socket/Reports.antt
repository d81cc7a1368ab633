-- ===== src/Socket/Reports.antt =====
-- The callbacks of buffers and of receptions of platform/posix/src/socket.c.
use homekit_bridge.Base.{
  ℕ, ◌+◌, ◌≡◌, ◌⊎◌, inl, inr, refl, List, [], ◌∷◌, if_rule, is_empty, length, take, drop, arith,
  ◌==◌,
}
use mathlib.Core.Path.{subst}
use homekit_bridge.Base.Bytes.{Bytes}
use homekit_bridge.Base.Outcome.{Outcome, ok, abort}
use homekit_bridge.Socket.{Err, err_ok, err_unknown, Mbuf, Socket, Effect, sent_call}
use homekit_bridge.Socket.Send.{Taking, takes, would_block, failed, finish, send_top, handle_send}

-- A buffer stays and nothing is called, or it leaves and its callback is called.
Reports : Mbuf → List Mbuf → Effect → Type 0
Reports m ms x =
    ((x.calls ≡ []) × (k : ℕ) × (x.socket.mbufs ≡ record m { pos = k } ∷ ms))
    ⊎ ((x.socket.mbufs ≡ ms)
        × (e : Err) × (x.calls ≡ sent_call m.sent_cb e (length x.wire) m.arg ∷ []))

finish-Reports :
    (m : Mbuf) (ms : List Mbuf) (e : Err) (wire : Bytes) (o : Socket)
    → Reports m ms (finish m ms e wire o)
unfolding Reports finish
finish-Reports m ms e wire o =
    inr (if_rule (λ (s : Socket). s.mbufs ≡ ms) (is_empty ms) (λ q. refl) (λ q. refl), e, refl)

-- What holds of an effect, if there is one.
abbrev Holds : (Effect → Type 0) → Outcome Effect → Type 0
Holds P (ok x) = P x
Holds P abort = Unit

send_top-Reports :
    (t : Taking) (m : Mbuf) (ms : List Mbuf) (o : Socket) → Holds (Reports m ms) (send_top t m ms o)
unfolding send_top Reports
send_top-Reports would_block m ms o = tt
send_top-Reports failed m ms o = finish-Reports m ms err_unknown [] o
send_top-Reports (takes n) m ms o =
    let wire = take n (drop m.pos m.buf) in
    if_rule (Holds (Reports m ms)) (length wire == length m.buf)
      (λ e. finish-Reports m ms err_ok wire o)
      λ e.
        if_rule (Holds (Reports m ms)) m.all (λ f. inl (refl, m.pos + length wire, refl))
          (λ f. finish-Reports m ms err_ok wire o)

-- A write event, if it does not end the process, either keeps the first buffer of the queue and
-- calls no callback, or takes it off the queue and calls its callback, once, with its argument and
-- the number of bytes that were sent by this event. The other buffers stay in order.
pub handle_send_reports :
    (t : Taking) (m : Mbuf) (ms : List Mbuf) (o : Socket) (x : Effect)
    → o.mbufs ≡ m ∷ ms
    → handle_send t o ≡ ok x
    → ((x.calls ≡ []) × (k : ℕ) × (x.socket.mbufs ≡ record m { pos = k } ∷ ms))
      ⊎ ((x.socket.mbufs ≡ ms)
          × (e : Err) × (x.calls ≡ sent_call m.sent_cb e (length x.wire) m.arg ∷ []))
unfolding handle_send Reports
handle_send_reports t m ms o x q e =
    let r : send_top t m ms o ≡ ok x = ground (arith, q, e) in
    subst (Holds (Reports m ms)) r (send_top-Reports t m ms o)
