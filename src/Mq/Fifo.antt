-- ===== src/Mq/Fifo.antt =====
-- Single calls on a queue of bridge/src/lmqlib.c that is not over its capacity.
use homekit_bridge.Base.{
  Bool, ℕ, ◌+◌, ◌^◌, ◌≤◌, ◌<◌, ◌≡◌, ◌≢◌, refl, sym, ap, ◌∙◌, none, some, List, [], ◌∷◌, ◌++◌,
  length, length-append, arith,
}
use homekit_bridge.Mq.{Queue, sent, got, advance, put, lmq_size, create, recv, send}
use homekit_bridge.Mq.Ring.{
  Represents, at, Occupies-put, Occupies-clear, advance_bounds, advance-at, advance-eq-at,
  at-advance, at-ne, lmq_size_lem,
}

-- `send` does not take a queue with room for full.
pub room :
    {V T : Type 0} (q : Queue V T) (xs : List (List V))
    → Represents q xs
    → length xs < q.size
    → lmq_size q ≢ q.size
room q xs r h = ground (arith, lmq_size_lem q xs r)

module _ {V T : Type 0} where
  -- A queue that `create` accepts is empty.
  pub create-Represents :
      (size : ℕ) {q : Queue V T}
      → size + 2 < 2 ^ 64
      → create size ≡ some q
      → Represents q [] × (q.wait ≡ none)
  unfolding create
  create-Represents size h e = ground arith

  -- The state that `recv` leaves when it returns a message.
  abbrev popped : Queue V T → Queue V T
  popped q = record q { slots = put q.slots q.first none; first = advance q.size q.first }

  recv-got :
      (t : T) (q : Queue V T) (x : List V) (xs : List (List V))
      → Represents q (x ∷ xs)
      → recv 1 t q ≡ (popped q, got x)
  unfolding recv
  recv-got t q x xs r = ground (arith, r, at-ne q.size q.first (length xs))

  popped-Represents :
      (q : Queue V T) (x : List V) (xs : List (List V))
      → Represents q (x ∷ xs)
      → Represents (popped q) xs
  popped-Represents q x xs r =
      let b : (1 ≤ advance q.size q.first) × (advance q.size q.first ≤ q.size + 1) =
        advance_bounds q.size q.first r.fits r.first_low r.first_high in
      record {
        first_low = b.0;
        first_high = b.1;
        last_at =
            r.last_at
            ∙ sym (
                at-advance q.size q.first r.fits r.first_low r.first_high (length xs)
                  (omega arith));
        held =
            Occupies-clear q.size xs q.slots (advance q.size q.first) 0 q.first r.fits r.first_low
              r.first_high (omega arith)
              (advance-eq-at q.size q.first r.fits r.first_low r.first_high) r.held.1;
        within = omega arith;
        nonzero = r.nonzero;
        fits = r.fits;
      }

  -- `recv` on a queue that holds messages returns the oldest one, and leaves the others.
  pub recv_oldest :
      (t : T) (q : Queue V T) (x : List V) (xs : List (List V))
      → Represents q (x ∷ xs)
      → let (q', r) = recv 1 t q in
        (r ≡ got x) × Represents q' xs × (q'.wait ≡ q.wait) × (q'.size ≡ q.size)
  recv_oldest t q x xs r = rw (recv-got t q x xs r) (refl, popped-Represents q x xs r, refl, refl)

  -- The state that `send` leaves when it stores a message.
  abbrev pub pushed : List V → Queue V T → Queue V T
  pushed m q = record q { slots = put q.slots q.last (some m); last = advance q.size q.last }

  pushed-Represents :
      (m : List V) (q : Queue V T) (xs : List (List V))
      → Represents q xs
      → length xs < q.size
      → Represents (pushed m q) (xs ++ m ∷ [])
  pushed-Represents m q xs r h = record {
    first_low = r.first_low;
    first_high = r.first_high;
    last_at =
        ap (advance q.size) r.last_at
        ∙ advance-at q.size q.first r.fits r.first_low r.first_high (length xs) r.within
        ∙ ap (at q.size q.first) (omega (arith, length-append {0} xs (m ∷ [])));
    held =
        Occupies-put q.size xs q.slots q.first q.last m r.fits r.first_low r.first_high
          (omega arith) r.last_at r.held;
    within = omega (arith, length-append {0} xs (m ∷ []));
    nonzero = r.nonzero;
    fits = r.fits;
  }

module _ {V T W : Type 0} (resume : T → List V → Queue V T × W → (Queue V T × W) × Bool) where
  pub send-stored :
      (m : List V) (q : Queue V T) (w : W)
      → q.wait ≡ none
      → lmq_size q ≢ q.size
      → send resume m (q, w) ≡ ((pushed m q, w), sent)
  unfolding send
  send-stored m q w e h = ground arith

  -- `send` with nobody waiting and room left stores the message behind the others.
  pub send_appends :
      (m : List V) (q : Queue V T) (w : W) (xs : List (List V))
      → Represents q xs
      → q.wait ≡ none
      → length xs < q.size
      → let (s, code) = send resume m (q, w) in
        (code ≡ sent)
        × Represents s.0 (xs ++ m ∷ [])
        × (s.0.wait ≡ none)
        × (s.0.size ≡ q.size)
        × (s.1 ≡ w)
  send_appends m q w xs r e h =
      rw (send-stored m q w e (room q xs r h)) (refl, pushed-Represents m q xs r h, e, refl, refl)
