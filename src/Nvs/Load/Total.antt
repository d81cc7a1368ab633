-- ===== src/Nvs/Load/Total.antt =====
-- The rounds of the loop of `pal_nvs_open`, lines 176 to 244 of platform/posix/src/nvs.c.
use homekit_bridge.Base.{
  is_empty, ℕ, zero, suc, ◌+◌, ◌-◌, ◌≤◌, ◌<◌, ◌≡◌, ◌≢◌, refl, Bool, true, false, none, some, List,
  [], ◌∷◌, ◌++◌, ◌^◌, ltb, length, take, drop, length-take, length-drop, length-append, arith, leb,
  ◌==◌, not, ◌&&◌, if◌then◌else◌, Option-cases, inl, inr,
}
use homekit_bridge.Base.Bytes.{Bytes, same}
use homekit_bridge.Nvs.{Item, key_max_len}
use homekit_bridge.Base.Endian.{le_bytes, of_le}
use homekit_bridge.Nvs.Codec.{magic}
use homekit_bridge.Nvs.Io.{Answer, interrupted, failed, chunk, read_all, Read, after_read}
use homekit_bridge.Nvs.Load.{
  Stop, finished, rejected, aborted, overran, item_size, File, Reading, got, stop, read,
  read_key_of, read_key, read_value, read_item, Reader, ◌>>=◌, ◌>>◌, unless, pure, loaded,
  unreadable, crashed, overrun, out_of_fuel, load_items, load,
}

after_read-length :
    (p : List Answer) (rest x : Bytes) (more : Read) (bs : Bytes)
    → ((cs : Bytes) → more.2 ≡ some cs → length x + (length cs + length more.1) ≡ length rest)
    → (after_read p rest x more).2 ≡ some bs
    → length bs + length (after_read p rest x more).1 ≡ length rest
after_read-length p rest [] more bs h e = ground arith
after_read-length p rest (b ∷ x) (q, left, none) bs h e = cc
after_read-length p rest (b ∷ x) (q, left, some cs) bs h e =
    ground (arith, h cs refl, length-append {0} x cs)

-- The bytes got and the bytes left are the bytes there were.
read_all-length :
    (p : List Answer) (rest : Bytes) (n : ℕ) (bs : Bytes)
    → (read_all p rest n).2 ≡ some bs
    → length bs + length (read_all p rest n).1 ≡ length rest
unfolding read_all
read_all-length [] rest n bs e = ground (arith, length-take n rest, length-drop n rest)
read_all-length (interrupted ∷ p) rest zero bs e = ground arith
read_all-length (failed ∷ p) rest zero bs e = ground arith
read_all-length (chunk k ∷ p) rest zero bs e = ground arith
read_all-length (interrupted ∷ p) rest (suc n) bs e = read_all-length p rest (suc n) bs e
read_all-length (failed ∷ p) rest (suc n) bs e = cc
read_all-length (chunk k ∷ p) rest (suc n) bs e =
    let x = take k (take (suc n) rest) in
    after_read-length p rest x (read_all p (drop (length x) rest) (suc n - length x)) bs
      (λ cs q. omega (
        arith,
        read_all-length p (drop (length x) rest) (suc n - length x) cs q,
        length-take k (take (suc n) rest),
        length-take (suc n) rest,
        length-drop (length x) rest,
      ))
      e

-- A reader that goes on does not go back in the file.
abbrev Advances : {A : Type 0} → Reader A → Type 0
Advances {A} m = (s s' : File) (a : A) → m s ≡ got a s' → length s'.1 ≤ length s.1

bind-got :
    {A B : Type 0} (m : Reader A) (f : A → Reader B) (s t : File) (b : B)
    → (m >>= f) s ≡ got b t
    → (a : A) × (s' : File) × (m s ≡ got a s') × (f a s' ≡ got b t)
bind-got m f s t b e = go (m s) refl e
  where
    go :
        (r : Reading _)
        → m s ≡ r
        → (elim r [ got a s' ↦ f a s' | stop x ↦ stop x ]) ≡ got b t
        → (a : _) × (s' : File) × (m s ≡ got a s') × (f a s' ≡ got b t)
    go (got a s') q e = (a, s', q, e)
    go (stop x) q e = cc

Advances-bind :
    {A B : Type 0} (m : Reader A) (f : A → Reader B)
    → Advances m
    → ((a : A) → Advances (f a))
    → Advances (m >>= f)
Advances-bind m f h k s t b e =
    let (a, s', e1, e2) = bind-got m f s t b e in omega (arith, h s s' a e1, k a s' t b e2)

Advances-check :
    {B : Type 0} (c : Bool) (r : Stop) (k : Reader B) → Advances k → Advances (unless c r >> k)
Advances-check true r k h s s' b e = h s s' b e
Advances-check false r k h s s' b e = cc

Advances-pure : {A : Type 0} (x : A) → Advances (pure x)
Advances-pure x s s' a e = ground arith

read-length :
    (n : ℕ) (s s' : File) (bs : Bytes) → read n s ≡ got bs s' → length bs + length s'.1 ≡ length s.1
unfolding read
read-length n (p, rest) s' bs e = elim (Option-cases (read_all p rest n).2) [
  | inl x ↦ ground (arith, x)
  | inr (cs, x) ↦ ground (arith, x, read_all-length p rest n cs x)
]

Advances-read : (n : ℕ) → Advances (read n)
Advances-read n s s' bs e = omega (arith, read-length n s s' bs e)

Advances-read_value : (memory : Bool) (old : ℕ) → Advances (read_value memory old)
unfolding read_value
Advances-read_value memory old = Advances-bind (read 8) _ (Advances-read 8) λ b.
    let len = of_le (b ++ drop (length b) (le_bytes 8 old)) in
    Advances-check (not (is_empty b)) rejected _ (
      Advances-check (not (len == 0)) rejected _ (
        Advances-check memory rejected _ (
          Advances-check (ltb (item_size + len) (2 ^ 64)) overran _ (
            Advances-bind (read len) _ (Advances-read len) λ value.
              Advances-check (not (is_empty value)) aborted _
                (Advances-check (length value == len) rejected _ (Advances-pure value))))))

Advances-read_key_of : (b : Bytes) → Advances (read_key_of b)
unfolding read_key_of
Advances-read_key_of b =
    let len = of_le b in
    Advances-check ((length b == 8) && not (len == 0) && leb len key_max_len) rejected _ (
      Advances-bind (read len) _ (Advances-read len) λ key.
        Advances-check (not (is_empty key)) aborted _
          (Advances-check (length key == len) rejected _ (Advances-pure key)))

-- The length of a key takes at least one byte.
read_key-length : (s s' : File) (key : Bytes) → read_key s ≡ got key s' → length s'.1 < length s.1
unfolding read_key
read_key-length s s' key e =
    let (b, s1, e1, e2) = bind-got (read 8) _ s s' key e in go b s1 (read-length 8 s s1 b e1) e2
  where
    go :
        (b : Bytes) (s1 : File)
        → length b + length s1.1 ≡ length s.1
        → (unless (not (is_empty b)) finished >> read_key_of b) s1 ≡ got key s'
        → length s'.1 < length s.1
    go [] s1 l q = cc
    go (x ∷ b) s1 l q = omega (arith, Advances-read_key_of (x ∷ b) s1 s' key q)

-- Each round that goes on has read something.
read_item-length :
    (memory : Bool) (s s' : File) (i : Item)
    → read_item memory s ≡ got i s'
    → length s'.1 < length s.1
unfolding read_item
read_item-length memory s s' i e =
    let (key, s1, e1, e2) = bind-got read_key _ s s' i e in
    let (value, s2, e3, e4) = bind-got (read_value memory (length key)) _ s1 s' i e2 in
    ground (
      arith,
      read_key-length s s1 key e1,
      Advances-read_value memory (length key) s1 s2 value e3,
      e4,
    )

-- With more rounds than bytes the loop does not run out of them.
load_items-ends :
    (f : ℕ) (memory : ℕ → Bool) (k : ℕ) (is : List Item) (s : File)
    → length s.1 < f
    → load_items f memory k is s ≢ out_of_fuel
unfolding load_items
load_items-ends zero memory k is s h e = omega arith
load_items-ends (suc f) memory k is s h e =
    go (read_item (memory k) s) (read_item-length (memory k) s)
      (λ i s' l. load_items-ends f memory (k + 1) (i ∷ is) s' (omega arith)) e
  where
    go :
        (r : Reading Item)
        → ((s' : File) (i : Item) → r ≡ got i s' → length s'.1 < length s.1)
        → ((i : Item) (s' : File)
            → length s'.1 < length s.1
            → load_items f memory (k + 1) (i ∷ is) s' ≢ out_of_fuel)
        → (elim r [
          | got i s' ↦ load_items f memory (k + 1) (i ∷ is) s'
          | stop finished ↦ loaded is
          | stop rejected ↦ unreadable
          | stop aborted ↦ crashed
          | stop overran ↦ overrun
        ])
          ≡ out_of_fuel
        → ⊥
    go (got i s') l ih q = ih i s' (l s' i refl) q
    go (stop finished) l ih q = cc
    go (stop rejected) l ih q = cc
    go (stop aborted) l ih q = cc
    go (stop overran) l ih q = cc

-- The loop of `pal_nvs_open` never goes on for ever, whatever the file holds and the reads and the
-- allocator answer: as many rounds as the file has bytes, and one more, are not used up. It comes to
-- the items, to an error, to a failed assertion, or to a value whose length is so near to 2 ^ 64
-- that the size of its block wraps around; what the process does after the latter is not said.
pub load-ends :
    (memory : ℕ → Bool) (p : List Answer) (content : Bytes) → load memory p content ≢ out_of_fuel
unfolding load
load-ends memory p content e =
    go (read 3 (p, content)) (λ b s q. read-length 3 (p, content) s b q) e
  where
    go :
        (r : Reading Bytes)
        → ((b : Bytes) (s : File) → r ≡ got b s → length b + length s.1 ≡ length content)
        → (elim r [
          | stop x ↦ unreadable
          | got b s ↦
              if (length b == 3) && same b magic
              then load_items (suc (length content)) memory 0 [] s
              else unreadable
        ])
          ≡ out_of_fuel
        → ⊥
    go (stop x) l q = cc
    go (got b s) l q =
        ground
          (arith, load_items-ends (suc (length content)) memory 0 [] s (omega (arith, l b s refl)))
