-- ===== src/Mq/Wait.antt =====
-- Coroutines that wait in `recv` on a queue of bridge/src/lmqlib.c.
use homekit_bridge.Base.{
  Bool, false, ◌≡◌, refl, sym, ap, ◌∙◌, none, some, List, [], ◌∷◌, ◌++◌, map, append_assoc,
  append-nil, arith,
}
use homekit_bridge.Mq.{Queue, yielded, sent, recv, send, wake}

module _ {V T : Type 0} where
  -- The coroutines `ts` call `recv` one after the other.
  pub recv_each : List T → Queue V T → Queue V T
  recv_each [] q = q
  recv_each (t ∷ ts) q = recv_each ts (recv 1 t q).0

  -- A `recv` on an empty queue yields, and registers the coroutine behind those that wait.
  pub recv_waits :
      (t : T) (q : Queue V T) (ts : List T)
      → q.last ≡ q.first
      → (q.wait ≡ some ts → recv 1 t q ≡ (record q { wait = some (ts ++ t ∷ []) }, yielded))
        × (q.wait ≡ none → recv 1 t q ≡ (record q { wait = some (t ∷ []) }, yielded))
  unfolding recv
  recv_waits t q ts e = (λ h. ground arith, λ h. ground arith)

  recv_each-some :
      (us : List T) (q : Queue V T) (ts : List T)
      → q.last ≡ q.first
      → q.wait ≡ some ts
      → recv_each us q ≡ record q { wait = some (ts ++ us) }
  unfolding recv_each
  recv_each-some [] q ts e h = ground (arith, append-nil ts)
  recv_each-some (u ∷ us) q ts e h = rw ((recv_waits u q ts e).0 h) (
      recv_each-some us (record q { wait = some (ts ++ u ∷ []) }) (ts ++ u ∷ []) e refl
      ∙ ap (λ l. record q { wait = some l }) (append_assoc ts (u ∷ []) us))

-- What is recorded of a coroutine that is resumed, does not use the queue and leaves nothing.
abbrev pub note :
    {V T : Type 0}
    → T
    → List V
    → Queue V T × List (T × List V)
    → (Queue V T × List (T × List V)) × Bool
note t m (q, log) = ((q, log ++ (t, m) ∷ []), false)

wake-note :
    {V T : Type 0} (m : List V) (ts : List T) (q : Queue V T) (log : List (T × List V))
    → wake note m ts (q, log) ≡ ((q, log ++ map (λ t. (t, m)) ts), sent)
unfolding wake
wake-note m [] q log = rw append-nil
wake-note m (t ∷ ts) q log =
    wake-note m ts q (log ++ (t, m) ∷ [])
    ∙ ap (λ l. ((q, l), sent)) (append_assoc log ((t, m) ∷ []) (map (λ u. (u, m)) ts))

-- When the coroutines `t`, `ts` have called `recv` on an empty queue where nobody waited, the next
-- `send` resumes each of them once, in the order of the calls, with the message, and stores
-- nothing: the queue is as it was before the calls. (The coroutines do not use the queue meanwhile, and
-- leave nothing on the stack.)
send_wakes :
    {V T : Type 0} (t : T) (ts : List T) (m : List V) (q : Queue V T) (log : List (T × List V))
    → q.last ≡ q.first
    → q.wait ≡ none
    → send note m (recv_each (t ∷ ts) q, log) ≡ ((q, log ++ map (λ u. (u, m)) (t ∷ ts)), sent)
unfolding send recv_each
send_wakes t ts m q log e h =
    ap (λ p. send note m (recv_each ts p.0, log)) ((recv_waits t q ts e).1 h)
    ∙ ap (λ p. send note m (p, log))
        (recv_each-some ts (record q { wait = some (t ∷ []) }) (t ∷ []) e refl)
    ∙ wake-note m (t ∷ ts) (record q { wait = none }) log
    ∙ ap (λ o. ((record q { wait = o }, log ++ map (λ u. (u, m)) (t ∷ ts)), sent)) (sym h)
