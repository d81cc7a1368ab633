-- ===== src/Mq/Overrun.antt =====
-- What `send` does at the capacity of a queue of bridge/src/lmqlib.c.
use homekit_bridge.Base.{Bool, suc, ◌≤◌, ◌<◌, ◌≡◌, refl, ap, ◌∙◌, none, List, [], length, arith}
use homekit_bridge.Mq.{Queue, sent, full, advance, send}
use homekit_bridge.Mq.Ring.{Represents, at, advance-at, lmq_size_lem}
use homekit_bridge.Mq.Fifo.{pushed, send-stored}

module _ {V T : Type 0} where
  -- One message more than the capacity brings `last` back to `first`.
  last-wraps :
      (q : Queue V T) (xs : List (List V))
      → Represents q xs
      → length xs ≡ q.size
      → advance q.size q.last ≡ q.first
  last-wraps q xs r e =
      ap (advance q.size) r.last_at
      ∙ advance-at q.size q.first r.fits r.first_low r.first_high (length xs) r.within
      ∙ back
    where
      back : at q.size q.first (suc (length xs)) ≡ q.first
      back = ground arith

  pushed-empty :
      (m : List V) (q : Queue V T) (xs : List (List V))
      → Represents q xs
      → length xs ≡ q.size
      → Represents (pushed m q) []
  pushed-empty m q xs r e = record {
    first_low = r.first_low;
    first_high = r.first_high;
    last_at = ground (arith, last-wraps q xs r e);
    held = tt;
    within = omega arith;
    nonzero = r.nonzero;
    fits = r.fits;
  }

module _ {V T W : Type 0} (resume : T → List V → Queue V T × W → (Queue V T × W) × Bool) where
  -- `send` with nobody waiting, on a queue at its capacity whose messages lie in one run
  -- (`first ≤ last`), is refused and changes nothing.
  send_refused :
      (m : List V) (q : Queue V T) (w : W) (xs : List (List V))
      → Represents q xs
      → q.wait ≡ none
      → length xs ≡ q.size
      → q.first ≤ q.last
      → send resume m (q, w) ≡ ((q, w), full)
  unfolding send
  send_refused m q w xs r e h run = ground (arith, lmq_size_lem q xs r)

  -- `send` with nobody waiting, on a queue at its capacity whose messages wrap round the end of
  -- the table (`last < first`), is accepted, and leaves a queue that represents no message: those
  -- that it held and the new one are lost to `recv`.
  pub send_overruns :
      (m : List V) (q : Queue V T) (w : W) (xs : List (List V))
      → Represents q xs
      → q.wait ≡ none
      → length xs ≡ q.size
      → q.last < q.first
      → ((send resume m (q, w)).1 ≡ sent) × Represents (send resume m (q, w)).0.0 []
  send_overruns m q w xs r e h wrapped =
      rw (send-stored resume m q w e (ground (arith, lmq_size_lem q xs r)))
        (refl, pushed-empty m q xs r h)
