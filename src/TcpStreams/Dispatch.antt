-- ===== src/TcpStreams/Dispatch.antt =====
-- The callbacks of HAPPlatformTCPStreamManager.c that the run loop calls for the file handles of the
-- streams and of the listener.
use mathlib.Core.Path.{subst}
use mathlib.Core.Option.{some-injective}
use homekit_bridge.Base.{
  ℕ, ◌≡◌, refl, ap, sym, ◌∙◌, Bool, true, false, ◌&&◌, ◌||◌, some, ◌==◌, arith,
}
use homekit_bridge.Base.Outcome.{ok}
use homekit_bridge.RunLoop.Handles.{Events, Handle, Ready, find, events, any_event}
use homekit_bridge.TcpStreams.{Tcp, listener_cb, stream_cb, for_reading}
use homekit_bridge.TcpStreams.Traffic.{handle_stream, handle_listener}
use homekit_bridge.TcpStreams.Valid.{wanted, Valid, room}
use homekit_bridge.TcpStreams.Calls.{Listening-found}
use homekit_bridge.TcpStreams.Closes.{Open-found}

passes : (i b r : Bool) → i ≡ b → (b && (i && r)) ≡ (i && r)
passes true b r e = rw⁻¹ e refl
passes false true r e = refl
passes false false r e = refl

-- When the run loop finds events of a file handle with the streams' callback, that callback calls
-- back the stream of the handle's context, which has a callback, with exactly these events and with
-- the context that was given for it; no assertion fails.
pub handle_stream_calls :
    (p d : ℕ) (h : Handle) (r : Ready) (t : Tcp)
    → Valid t
    → find p t.handles.list ≡ some h
    → h.callback ≡ stream_cb
    → any_event (events r d h) ≡ true
    → (((t.manager.streams h.context).callback == 0) ≡ false)
      × (handle_stream p (events r d h) h.context t
          ≡ ok (
              some (record {
                callback = (t.manager.streams h.context).callback;
                stream = h.context;
                has_bytes_available = (events r d h).reading;
                has_space_available = (events r d h).writing;
                context = (t.manager.streams h.context).context;
              })))
unfolding handle_stream
handle_stream_calls p d h r t v f c a =
    let i = h.context in
    let s = t.manager.streams i in
    let (q, m) = v.streams.owned p h f c in
    let (k, g, x) = Open-found t.manager.max t.manager.streams t.handles.list i v.streams m in
    let e : k ≡ h = some-injective k h (sym g ∙ ap (λ j. find j t.handles.list) q ∙ f) in
    let w : h.interests ≡ wanted s = ap (λ (y : Handle). y.interests) (sym e) ∙ x.interests in
    let wr : h.interests.reading ≡ s.has_bytes_available = ap (λ (y : Events). y.reading) w in
    let ww : h.interests.writing ≡ s.has_space_available = ap (λ (y : Events). y.writing) w in
    let we : h.interests.error ≡ false = ap (λ (y : Events). y.error) w in
    let o : ((events r d h).reading || (events r d h).writing) ≡ true = ground (arith, a, we) in
    let b : (s.has_bytes_available && (events r d h).reading) ≡ (events r d h).reading =
      passes h.interests.reading s.has_bytes_available (r.reading d) wr in
    let y : (s.has_space_available && (events r d h).writing) ≡ (events r d h).writing =
      passes h.interests.writing s.has_space_available (r.writing d) ww in
    let n : (s.callback == 0) ≡ false = ground (arith, x.answers, o, wr, ww) in
    let z : (s.handle == p) ≡ true = ground (arith, q) in
    (n, rw (handle_stream, m, x.held, z, o, b, y, o, n) refl)

-- When the run loop finds events of a file handle with the listener's callback, that callback calls
-- back the listener, with the context that was given for it; no assertion fails.
handle_listener_calls :
    (p d : ℕ) (h : Handle) (r : Ready) (t : Tcp)
    → Valid t
    → find p t.handles.list ≡ some h
    → h.callback ≡ listener_cb
    → any_event (events r d h) ≡ true
    → ((t.manager.listener.callback == 0) ≡ false)
      × (handle_listener p (events r d h) t
          ≡ ok (t.manager.listener.callback, t.manager.listener.context))
unfolding handle_listener
handle_listener_calls p d h r t v f c a =
    let l = t.manager.listener in
    let (q, m) = v.listener.owned p h f c in
    let (k, g, x) = Listening-found (room t.manager) l t.handles.list v.listener m in
    let e : k ≡ h = some-injective k h (sym g ∙ ap (λ j. find j t.handles.list) q ∙ f) in
    let w : h.interests ≡ for_reading h.interests.reading =
      subst (λ (y : Handle). y.interests ≡ for_reading y.interests.reading) e x.interests in
    let ww : h.interests.writing ≡ false = ap (λ (y : Events). y.writing) w in
    let we : h.interests.error ≡ false = ap (λ (y : Events). y.error) w in
    let n : (h.interests.reading && r.reading d) ≡ true = ground (arith, a, ww, we) in
    let q' : (l.handle == p) ≡ true = ground (arith, q) in
    (x.answers, rw (handle_listener, m, x.held, q', x.answers, n) refl)
