-- ===== src/Mq/Ring.antt =====
-- How the slots `first`, ..., `last` of a queue hold its messages, oldest first.
use homekit_bridge.Base.{
  ℕ, suc, ◌+◌, ◌-◌, ◌^◌, ◌≤◌, ◌<◌, ◌≡◌, ◌≢◌, sym, ◌∙◌, Option, none, some, List, [], ◌∷◌, ◌++◌,
  length, arith, leb, if◌then◌else◌,
}
use homekit_bridge.Mq.{Queue, advance, put, lmq_size}

-- The slot that lies `k` places behind `i`, round the `size + 1` slots 1, ..., size + 1.
abbrev pub at : ℕ → ℕ → ℕ → ℕ
at size i k = if leb (i + k) (size + 1) then i + k else i + k - (size + 1)

module _ {A : Type 0} (size : ℕ) where
  -- The slots from `i` on hold the messages.
  abbrev pub Occupies : (ℕ → Option A) → ℕ → List A → Type 0
  Occupies slots i [] = Unit
  Occupies slots i (x ∷ xs) = (slots i ≡ some x) × Occupies slots (advance size i) xs

module _ (size i : ℕ) (fits : size + 2 < 2 ^ 64) (low : 1 ≤ i) (high : i ≤ size + 1) where
  pub advance_bounds : (1 ≤ advance size i) × (advance size i ≤ size + 1)
  unfolding advance
  advance_bounds = ground arith

  pub advance-eq-at : advance size i ≡ at size i 1
  unfolding advance
  advance-eq-at = ground arith

  pub advance-at : (k : ℕ) → k ≤ size → advance size (at size i k) ≡ at size i (suc k)
  unfolding advance
  advance-at k h = ground arith

  pub at-advance : (k : ℕ) → k ≤ size → at size (advance size i) k ≡ at size i (suc k)
  unfolding advance
  at-advance k h = ground arith

pub at-ne : (size i k : ℕ) → i ≤ size + 1 → k < size → at size i (suc k) ≢ i
at-ne size i k high h = ground arith

-- A write behind the messages adds one to them.
pub Occupies-put :
    {A : Type 0} (size : ℕ) (xs : List A) (slots : ℕ → Option A) (i j : ℕ) (x : A)
    → size + 2 < 2 ^ 64
    → 1 ≤ i
    → i ≤ size + 1
    → length xs ≤ size
    → j ≡ at size i (length xs)
    → Occupies size slots i xs
    → Occupies size (put slots j (some x)) i (xs ++ x ∷ [])
Occupies-put size [] slots i j x f l h n e o = (ground arith, tt)
Occupies-put size (y ∷ xs) slots i j x f l h n e o = (
  ground (arith, at-ne size i (length xs)),
  Occupies-put size xs slots (advance size i) j x f (advance_bounds size i f l h).0
      (advance_bounds size i f l h).1 (omega arith)
      (e ∙ sym (at-advance size i f l h (length xs) (omega arith))) o.1,
)

-- Emptying a slot that holds no message leaves them in place.
pub Occupies-clear :
    {A : Type 0} (size : ℕ) (xs : List A) (slots : ℕ → Option A) (i k j : ℕ)
    → size + 2 < 2 ^ 64
    → 1 ≤ j
    → j ≤ size + 1
    → k + length xs ≤ size
    → i ≡ at size j (suc k)
    → Occupies size slots i xs
    → Occupies size (put slots j none) i xs
Occupies-clear size [] slots i k j f l h n e o = tt
Occupies-clear size (x ∷ xs) slots i k j f l h n e o = (
  ground (arith, at-ne size j k),
  Occupies-clear size xs slots (advance size i) (suc k) j f l h (omega arith)
      (rw e (advance-at size j f l h (suc k) (omega arith))) o.1,
)

module _ {V T : Type 0} where
  -- The queue holds the messages `xs`, oldest first. The last field excludes only the capacities
  -- 2^64 - 2 and 2^64 - 1, where a key leaves the range of size_t.
  pub record Represents (q : Queue V T) (xs : List (List V)) : Type 0 where
    pub first_low : 1 ≤ q.first
    pub first_high : q.first ≤ q.size + 1
    pub last_at : q.last ≡ at q.size q.first (length xs)
    pub held : Occupies q.size q.slots q.first xs
    pub within : length xs ≤ q.size
    pub nonzero : 1 ≤ q.size
    pub fits : q.size + 2 < 2 ^ 64

  -- `lmq_size` is the number of messages while they lie in one run, and one less than that when
  -- they wrap round the end of the table.
  pub lmq_size_lem :
      (q : Queue V T) (xs : List (List V))
      → Represents q xs
      → (q.first ≤ q.last → lmq_size q ≡ length xs)
        × (q.last < q.first → lmq_size q + 1 ≡ length xs)
  unfolding lmq_size
  lmq_size_lem q xs r = (λ h. ground arith, λ h. ground arith)
