-- ===== src/Mq/Runs.antt =====
-- Sequences of calls on a queue, against a first-in first-out list.
use homekit_bridge.Base.{
  Bool, ◌<◌, ◌≡◌, refl, ap₂, ◌∙◌, none, List, [], ◌∷◌, ◌++◌, length, arith, ℕ,
}
use homekit_bridge.Mq.{Queue, Received, got, recv, send}
use homekit_bridge.Mq.Ring.{Represents}
use homekit_bridge.Mq.Fifo.{recv_oldest, send_appends}

pub data Call (V : Type 0) : Type 0 where
  sending : List V → Call V
  receiving : Call V

-- What a list of messages returns to the receivers, oldest first.
unfoldable pub outputs : {V : Type 0} → List (List V) → List (Call V) → List (Received V)
outputs xs [] = []
outputs xs (sending m ∷ cs) = outputs (xs ++ m ∷ []) cs
outputs [] (receiving ∷ cs) = []
outputs (x ∷ xs) (receiving ∷ cs) = got x ∷ outputs xs cs

-- Nobody receives from an empty list, and nobody sends to one that has `size` messages.
abbrev pub Fits : {V : Type 0} → ℕ → List (List V) → List (Call V) → Type 0
Fits size xs [] = Unit
Fits size xs (sending m ∷ cs) = (length xs < size) × Fits size (xs ++ m ∷ []) cs
Fits size [] (receiving ∷ cs) = ⊥
Fits size (x ∷ xs) (receiving ∷ cs) = Fits size xs cs

module _ {V T W : Type 0} (resume : T → List V → Queue V T × W → (Queue V T × W) × Bool)
    (t : T) where
  -- The calls on the queue in order, with what the receivers get.
  unfoldable pub run : Queue V T × W → List (Call V) → List (Received V)
  run s [] = []
  run s (sending m ∷ cs) = run (send resume m s).0 cs
  run (q, w) (receiving ∷ cs) = let (q', r) = recv 1 t q in r ∷ run (q', w) cs

  run-outputs :
      (cs : List (Call V)) (q : Queue V T) (w : W) (xs : List (List V)) (n : ℕ)
      → Represents q xs
      → q.wait ≡ none
      → q.size ≡ n
      → Fits n xs cs
      → run (q, w) cs ≡ outputs xs cs
  unfolding run outputs
  run-outputs [] q w xs n r e h f = refl
  run-outputs (sending m ∷ cs) q w xs n r e h f =
      let (code, r', e', h', w') = send_appends resume m q w xs r e (omega arith) in
      run-outputs cs (send resume m (q, w)).0.0 (send resume m (q, w)).0.1 (xs ++ m ∷ []) n r' e'
        (h' ∙ h) f.1
  run-outputs (receiving ∷ cs) q w [] n r e h f = absurd f
  run-outputs (receiving ∷ cs) q w (x ∷ xs) n r e h f =
      let (g, r', e', h') = recv_oldest t q x xs r in
      ap₂ (λ a b. a ∷ b) g (run-outputs cs (recv 1 t q).0 w xs n r' (e' ∙ e) (h' ∙ h) f)

  -- Any sequence of `send` and `recv` on a queue where nobody waits, in which nobody receives from
  -- the empty queue or sends to one at its capacity, gives the receivers what a first-in first-out
  -- list of the same messages gives.
  pub run_refines :
      (cs : List (Call V)) (q : Queue V T) (w : W) (xs : List (List V))
      → Represents q xs
      → q.wait ≡ none
      → Fits q.size xs cs
      → run (q, w) cs ≡ outputs xs cs
  run_refines cs q w xs r e f = run-outputs cs q w xs q.size r e refl f
