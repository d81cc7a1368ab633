-- ===== src/Mq.antt =====
-- The message queue of Lua coroutines, bridge/src/lmqlib.c. The functions are sealed; the child
-- modules are about what they do.
--
-- A queue is the C object (`first`, `last`, `size`) with its Lua user value: a table that holds
-- the messages at integer keys, and under "wait" the array of the coroutines that wait in `recv`.
-- A message is the list of the values given to `send`; they are taken to be other than nil, since
-- the length of a table with holes is not determined. What a resumed coroutine does is Lua code,
-- so it is a parameter: it maps the queue and the rest of the world to their next states, and says whether
-- the coroutine has left values on the stack of the one that sends: results, or the text of an error.
pub mod Ring
pub mod Fifo
pub mod Overrun
pub mod Wait
pub mod Runs
mod Tests
use homekit_bridge.Base.{
  ℕ, ◌+◌, ◌-◌, ◌%◌, ◌^◌, Bool, true, false, is_empty, Option, none, some, List, [], ◌∷◌, ◌++◌, ltb,
  ◌==◌, if◌then◌else◌,
}

-- `lmq_obj` and its user value.
pub record Queue (V T : Type 0) : Type 0 where
  pub first : ℕ  -- size_t
  pub last : ℕ  -- size_t
  pub size : ℕ  -- size_t
  pub slots : ℕ → Option (List V)
  pub wait : Option (List T)

-- size_t arithmetic wraps.
abbrev pub size_t : ℕ → ℕ
size_t n = n % 2 ^ 64

-- How `send` ends. `misread`: a further coroutine is looked for in what another has left on the stack,
-- in place of the array of those that wait; what comes of it is left out.
pub data Sent : Type 0 where
  sent full misread : Sent

pub data Received (V : Type 0) : Type 0 where
  got : List V → Received V
  yielded invalid_arguments no_message : Received V

-- The table with `m` at key `i`.
abbrev pub put : {A : Type 0} → (ℕ → Option A) → ℕ → Option A → ℕ → Option A
put slots i m j = if i == j then m else slots j

-- `i++; if (i > size + 1) i = 1;`
unfoldable pub advance : ℕ → ℕ → ℕ
advance size i = if ltb (size_t (size + 1)) (size_t (i + 1)) then 1 else size_t (i + 1)

module _ {V T : Type 0} where
  -- `lmq_size`
  unfoldable pub lmq_size : Queue V T → ℕ
  lmq_size q =
      if ltb q.last q.first then size_t (q.size + 2 ^ 64 - q.first + q.last) else q.last - q.first

  -- `lmq_create`, of the integer argument as a size_t
  unfoldable pub create : ℕ → Option (Queue V T)
  create size =
      if size == 0
      then none
      else some (record { first = 1; last = 1; size = size; slots = λ i. none; wait = none })

  -- `lmq_obj_recv` in the coroutine `t`, called with `top` arguments
  unfoldable pub recv : ℕ → T → Queue V T → Queue V T × Received V
  recv top t q =
      if top == 1
      then (if q.last == q.first
          then (
            record q { wait = some (elim q.wait [ none ↦ t ∷ [] | some ts ↦ ts ++ t ∷ [] ]) },
            yielded,
          )
          else (
            record q { slots = put q.slots q.first none; first = advance q.size q.first },
            elim (q.slots q.first) [ none ↦ no_message | some m ↦ got m ],
          ))
      else (q, invalid_arguments)

-- The loop of `lmq_obj_send` over the coroutines that waited.
module _ {V T W : Type 0} (resume : T → List V → Queue V T × W → (Queue V T × W) × Bool) where
  unfoldable pub wake : List V → List T → Queue V T × W → (Queue V T × W) × Sent
  wake m [] s = (s, sent)
  wake m (t ∷ ts) s =
      let (s', leaves) = resume t m s in
      elim leaves [ false ↦ wake m ts s' | true ↦ (s', if is_empty ts then sent else misread) ]

  -- `lmq_obj_send`
  unfoldable pub send : List V → Queue V T × W → (Queue V T × W) × Sent
  send m (q, w) = elim q.wait [
    | some ts ↦ wake m ts (record q { wait = none }, w)
    | none ↦ if lmq_size q == q.size then ((q, w), full) else (
      (record q { slots = put q.slots q.last (some m); last = advance q.size q.last }, w),
      sent,
    )
  ]
