-- ===== src/Nvs/Io.antt =====
-- `read_all` and `write_all` of platform/posix/src/nvs.c, over the answers of the system calls.
--
-- A list of answers says what `read` or `write` does, call by call: it is interrupted (EINTR), it
-- fails with another error, or it transfers at most so many bytes. Behind the list's end each call
-- transfers all that it is asked for, up to the end of the file.
use homekit_bridge.Base.{
  ℕ, zero, suc, ◌+◌, ◌-◌, ◌≤◌, ◌≡◌, refl, ap, Option, none, some, List, [], ◌∷◌, ◌++◌, length, take,
  drop, length-append, arith,
}
use homekit_bridge.Base.Bytes.{Bytes}

pub data Answer : Type 0 where
  interrupted failed : Answer
  chunk : ℕ → Answer

-- The remaining answers, the bytes that remain to read, and the bytes got, if no call failed.
abbrev pub Read : Type 0
Read = List Answer × Bytes × Option Bytes

abbrev pub got_before : Bytes → Read → Read
got_before xs (p, rest, o) = (p, rest, elim o [ none ↦ none | some ys ↦ some (xs ++ ys) ])

-- What `read_all` does with the bytes `got` of one call of `read`, and the result `more` of going on.
abbrev pub after_read : List Answer → Bytes → Bytes → Read → Read
after_read p rest [] more = (p, rest, some [])
after_read p rest (x ∷ got) more = got_before (x ∷ got) more

-- `read_all(fd, buf, n)`
unfoldable pub read_all : List Answer → Bytes → ℕ → Read
read_all [] rest n = ([], drop n rest, some (take n rest))
read_all (a ∷ p) rest zero = (a ∷ p, rest, some [])
read_all (interrupted ∷ p) rest (suc n) = read_all p rest (suc n)
read_all (failed ∷ p) rest (suc n) = (p, rest, none)
read_all (chunk k ∷ p) rest (suc n) =
    let got = take k (take (suc n) rest) in
    after_read p rest got (read_all p (drop (length got) rest) (suc n - length got))

-- The remaining answers, the bytes written, and the count returned, if no call failed.
abbrev pub Written : Type 0
Written = List Answer × Bytes × Option ℕ

abbrev pub put_before : Bytes → Written → Written
put_before xs (p, ys, o) = (p, xs ++ ys, elim o [ none ↦ none | some n ↦ some (length xs + n) ])

abbrev pub after_write : List Answer → Bytes → Written → Written
after_write p [] more = (p, [], some 0)
after_write p (x ∷ xs) more = put_before (x ∷ xs) more

-- `write_all(fd, buf, len)`
unfoldable pub write_all : List Answer → Bytes → Written
write_all [] buf = ([], buf, some (length buf))
write_all (a ∷ p) [] = (a ∷ p, [], some 0)
write_all (interrupted ∷ p) (x ∷ buf) = write_all p (x ∷ buf)
write_all (failed ∷ p) (x ∷ buf) = (p, [], none)
write_all (chunk k ∷ p) (x ∷ buf) =
    after_write p (take k (x ∷ buf)) (write_all p (drop k (x ∷ buf)))

-- No call fails or transfers nothing.
abbrev pub IsHonest : List Answer → Type 0
IsHonest [] = Unit
IsHonest (interrupted ∷ p) = IsHonest p
IsHonest (failed ∷ p) = ⊥
IsHonest (chunk k ∷ p) = (1 ≤ k) × IsHonest p

-- The answers that `read_all` leaves.
abbrev pub left_by : List Answer → Bytes → ℕ → List Answer
left_by p rest n = (read_all p rest n).0

take-nil : (n : ℕ) → take {A = ℕ} n [] ≡ []
take-nil zero = refl
take-nil (suc n) = refl

drop-nil : (n : ℕ) → drop {A = ℕ} n [] ≡ []
drop-nil zero = refl
drop-nil (suc n) = refl

suc-sub-suc : (m n : ℕ) → suc m - suc n ≡ m - n
suc-sub-suc m n = omega arith

-- A short read and a read of what is missing make up the whole read.
take-in_two :
    (k n : ℕ) (xs : Bytes)
    → let got = take k (take n xs) in
      (got ++ take (n - length got) (drop (length got) xs) ≡ take n xs)
      × (drop (n - length got) (drop (length got) xs) ≡ drop n xs)
take-in_two zero n xs = (ap (λ m. take m xs) (omega arith), ap (λ m. drop m xs) (omega arith))
take-in_two (suc k) zero xs = (refl, refl)
take-in_two (suc k) (suc n) [] = (take-nil _, drop-nil _)
take-in_two (suc k) (suc n) (x ∷ xs) =
    rw suc-sub-suc (ap (λ t. x ∷ t) (take-in_two k n xs).0, (take-in_two k n xs).1)

take-append-drop : (k : ℕ) (xs : Bytes) → take k xs ++ drop k xs ≡ xs
take-append-drop zero xs = refl
take-append-drop (suc k) [] = refl
take-append-drop (suc k) (x ∷ xs) = ap (λ t. x ∷ t) (take-append-drop k xs)

-- Whatever short reads and interruptions there are, `read_all` gets the bytes asked for, or all
-- that remain, and goes on behind them.
pub read_all_lem :
    (p : List Answer) (rest : Bytes) (n : ℕ)
    → IsHonest p
    → (read_all p rest n ≡ (left_by p rest n, drop n rest, some (take n rest)))
      × IsHonest (left_by p rest n)
unfolding read_all
read_all_lem [] rest n h = (refl, tt)
read_all_lem (interrupted ∷ p) rest zero h = (refl, h)
read_all_lem (failed ∷ p) rest zero h = absurd h
read_all_lem (chunk k ∷ p) rest zero h = (refl, h)
read_all_lem (interrupted ∷ p) rest (suc n) h = read_all_lem p rest (suc n) h
read_all_lem (failed ∷ p) rest (suc n) h = absurd h
read_all_lem (chunk zero ∷ p) rest (suc n) h = absurd (omega arith)
read_all_lem (chunk (suc k) ∷ p) [] (suc n) h = (refl, h.1)
read_all_lem (chunk (suc k) ∷ p) (x ∷ rest) (suc n) h =
    let got = take k (take n rest) in
    ground (
      arith,
      suc-sub-suc n (length got),
      read_all_lem p (drop (length got) rest) (n - length got) h.1,
      take-in_two k n rest,
    )

-- Whatever short writes and interruptions there are, `write_all` writes the whole buffer.
pub write_all_lem :
    (p : List Answer) (buf : Bytes)
    → IsHonest p
    → ((write_all p buf).1 ≡ buf)
      × ((write_all p buf).2 ≡ some (length buf))
      × IsHonest (write_all p buf).0
unfolding write_all
write_all_lem [] buf h = (refl, refl, tt)
write_all_lem (interrupted ∷ p) [] h = (refl, refl, h)
write_all_lem (failed ∷ p) [] h = absurd h
write_all_lem (chunk k ∷ p) [] h = (refl, refl, h)
write_all_lem (interrupted ∷ p) (x ∷ buf) h = write_all_lem p (x ∷ buf) h
write_all_lem (failed ∷ p) (x ∷ buf) h = absurd h
write_all_lem (chunk zero ∷ p) (x ∷ buf) h = absurd (omega arith)
write_all_lem (chunk (suc k) ∷ p) (x ∷ buf) h = ground (
  arith,
  write_all_lem p (drop k buf) h.1,
  take-append-drop k buf,
  length-append {0} (take k buf) (drop k buf),
)

-- A buffer that `write_all` reports as written whole is written whole.
pub write_all-whole :
    (p : List Answer) (buf : Bytes)
    → (write_all p buf).2 ≡ some (length buf)
    → (write_all p buf).1 ≡ buf
unfolding write_all
write_all-whole [] buf e = refl
write_all-whole (interrupted ∷ p) [] e = refl
write_all-whole (failed ∷ p) [] e = refl
write_all-whole (chunk k ∷ p) [] e = refl
write_all-whole (interrupted ∷ p) (x ∷ buf) e = write_all-whole p (x ∷ buf) e
write_all-whole (failed ∷ p) (x ∷ buf) e = cc
write_all-whole (chunk zero ∷ p) (x ∷ buf) e = ground arith
write_all-whole (chunk (suc k) ∷ p) (x ∷ buf) e = ground (
  arith,
  write_all-whole p (drop k buf),
  take-append-drop k buf,
  length-append {0} (take k buf) (drop k buf),
)
