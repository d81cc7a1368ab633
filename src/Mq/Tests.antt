-- ===== src/Mq/Tests.antt =====
-- Runs of the message queue on small inputs, and the theorems at them.
use homekit_bridge.Base.{Bool, true, false, ℕ, Option, ◌≡◌, refl, none, some, List, [], ◌∷◌, arith}
use homekit_bridge.Mq.{Queue, put, sent, misread, got, send, wake, create, lmq_size, advance}
use homekit_bridge.Mq.Ring.{Represents}
use homekit_bridge.Mq.Fifo.{create-Represents}
use homekit_bridge.Mq.Overrun.{send_overruns}
use homekit_bridge.Mq.Runs.{Call, sending, receiving, run, outputs, run_refines}

-- A coroutine is a number; one that is resumed does nothing.
abbrev idle : ℕ → List ℕ → Queue ℕ ℕ × Unit {0} → (Queue ℕ ℕ × Unit {0}) × Bool
idle t m s = (s, false)

abbrev no_slots : ℕ → Option (List ℕ)
no_slots i = none

-- A new queue of two messages.
abbrev fresh : Queue ℕ ℕ
fresh = record { first = 1; last = 1; size = 2; slots = no_slots; wait = none }

-- One message in slot 1.
abbrev one : Queue ℕ ℕ
one = record { first = 1; last = 2; size = 2; slots = put no_slots 1 (some (7 ∷ [])); wait = none }

-- Two messages in slots 1 and 2.
abbrev straight : Queue ℕ ℕ
straight = record {
  first = 1;
  last = 3;
  size = 2;
  slots = put (put no_slots 1 (some (7 ∷ []))) 2 (some (8 ∷ []));
  wait = none;
}

-- Two messages in slots 3 and 1.
abbrev wrapped : Queue ℕ ℕ
wrapped = record {
  first = 3;
  last = 2;
  size = 2;
  slots = put (put no_slots 3 (some (7 ∷ []))) 1 (some (8 ∷ []));
  wait = none;
}

fresh-Represents : Represents fresh []
fresh-Represents = (create-Represents 2 (omega arith) created).0
  where
    created : create 2 ≡ some fresh
    created = unfold create in refl

one-Represents : Represents one ((7 ∷ []) ∷ [])
one-Represents = record {
  first_low = omega arith;
  first_high = omega arith;
  last_at = refl;
  held = (refl, tt);
  within = omega arith;
  nonzero = omega arith;
  fits = omega arith;
}

straight-Represents : Represents straight ((7 ∷ []) ∷ (8 ∷ []) ∷ [])
unfolding advance
straight-Represents = record {
  first_low = omega arith;
  first_high = omega arith;
  last_at = refl;
  held = (refl, (refl, tt));
  within = omega arith;
  nonzero = omega arith;
  fits = omega arith;
}

wrapped-Represents : Represents wrapped ((7 ∷ []) ∷ (8 ∷ []) ∷ [])
unfolding advance
wrapped-Represents = record {
  first_low = omega arith;
  first_high = omega arith;
  last_at = refl;
  held = (refl, (refl, tt));
  within = omega arith;
  nonzero = omega arith;
  fits = omega arith;
}

lmq_size-wrapped : lmq_size wrapped ≡ 1
unfolding lmq_size
lmq_size-wrapped = refl

-- A coroutine that ends with a result, while another one waits.
misread_wait :
    (send (λ t m s. (s, true)) (9 ∷ []) (record fresh { wait = some (5 ∷ 6 ∷ []) }, tt)).1 ≡ misread
unfolding send wake
misread_wait = refl

create_zero : create {V = ℕ} {T = ℕ} 0 ≡ none
unfolding create
create_zero = refl

send_overruns_example :
    ((send idle (9 ∷ []) (wrapped, tt)).1 ≡ sent)
    × Represents (send idle (9 ∷ []) (wrapped, tt)).0.0 []
send_overruns_example =
    send_overruns idle (9 ∷ []) wrapped tt ((7 ∷ []) ∷ (8 ∷ []) ∷ []) wrapped-Represents refl refl
      (omega arith)

abbrev calls : List (Call ℕ)
calls = sending (8 ∷ []) ∷ receiving ∷ sending (9 ∷ []) ∷ receiving ∷ receiving ∷ []

run_refines_example : run idle 5 (one, tt) calls ≡ got (7 ∷ []) ∷ got (8 ∷ []) ∷ got (9 ∷ []) ∷ []
unfolding outputs
run_refines_example =
    run_refines idle 5 calls one tt ((7 ∷ []) ∷ []) one-Represents refl (omega arith)
