-- ===== src/Nvs/Load/RoundTrip.antt =====
-- The reading by `pal_nvs_open` of what `pal_nvs_commit` writes (platform/posix/src/nvs.c).
use homekit_bridge.Base.{
  is_empty, ℕ, zero, suc, ◌+◌, ◌^◌, ◌≤◌, ◌<◌, ◌≡◌, refl, ap, sym, ◌∙◌, Bool, true, false, List, [],
  ◌∷◌, ◌++◌, length, drop, length-append, take-length_append, drop-length_append, append_assoc,
  append-nil, arith, ◌==◌,
}
use mathlib.Core.List.{reverse, reverse_aux}
use homekit_bridge.Base.Bytes.{Bytes, same_self}
use homekit_bridge.Nvs.{Item, key_max_len}
use homekit_bridge.Nvs.Io.{Answer, IsHonest, left_by, read_all_lem}
use homekit_bridge.Base.Endian.{le_bytes, length-le_bytes, of_le-le_bytes}
use homekit_bridge.Nvs.Codec.{magic, item_parts, all_parts, joined, encode}
use homekit_bridge.Nvs.Load.{
  Stop, finished, rejected, aborted, overran, item_size, got, stop, read, read_key, read_key_of,
  read_value, read_item, c_str, Loaded, loaded, unreadable, crashed, overrun, load_items, load,
}

-- The bytes of a C string.
abbrev pub NoNul : Bytes → Type 0
NoNul [] = Unit
NoNul (c ∷ s) = ((c == 0) ≡ false) × NoNul s

-- An item that the format can hold: the key is a text of 1 to 31 bytes, and the value is not empty and
-- no longer than what fits behind the header of an item in 2 ^ 64 bytes.
pub record Storable (i : Item) : Type 0 where
  pub key_some : 1 ≤ length i.key
  pub key_short : length i.key ≤ key_max_len
  pub key_text : NoNul i.key
  pub value_some : 1 ≤ length i.value
  pub value_short : item_size + length i.value < 2 ^ 64

abbrev pub AllStorable : List Item → Type 0
AllStorable [] = Unit
AllStorable (i ∷ is) = Storable i × AllStorable is

pub c_str-NoNul : (s : Bytes) → NoNul s → c_str s ≡ s
unfolding c_str
c_str-NoNul [] h = refl
c_str-NoNul (c ∷ s) h = ground (arith, h.0, c_str-NoNul s h.1)

-- Reading what stands at the front.
pub read-append :
    (p : List Answer) (n : ℕ) (xs ys : Bytes)
    → IsHonest p
    → length xs ≡ n
    → (p' : List Answer) × IsHonest p' × (read n (p, xs ++ ys) ≡ got xs (p', ys))
unfolding read
read-append p n xs ys h e =
    let (q, h') = read_all_lem p (xs ++ ys) n h in
    (
      left_by p (xs ++ ys) n,
      h',
      ground (arith, q, e, take-length_append xs ys, drop-length_append xs ys),
    )

pub read-end :
    (p : List Answer) (n : ℕ)
    → IsHonest p
    → (p' : List Answer) × IsHonest p' × (read (suc n) (p, []) ≡ got [] (p', []))
unfolding read
read-end p n h =
    let (q, h') = read_all_lem p [] (suc n) h in (left_by p [] (suc n), h', ground (arith, q))

pub is_empty-false {ℓ} : {A : Type ℓ} (xs : List A) → 1 ≤ length xs → is_empty xs ≡ false
is_empty-false [] h = absurd (omega arith)
is_empty-false (x ∷ xs) h = refl

pub read_key-encoded :
    (p : List Answer) (key rest : Bytes)
    → IsHonest p
    → 1 ≤ length key
    → length key ≤ key_max_len
    → (p' : List Answer) × IsHonest p'
      × (read_key (p, le_bytes 8 (length key) ++ (key ++ rest)) ≡ got key (p', rest))
unfolding read_key read_key_of
read_key-encoded p key rest h l u =
    let b = le_bytes 8 (length key) in
    let (p1, h1, e1) = read-append p 8 b (key ++ rest) h (length-le_bytes 8 (length key)) in
    let (p2, h2, e2) = read-append p1 (length key) key rest h1 refl in
    let n = of_le-le_bytes 8 (length key) (omega arith) in
    (
      p2,
      h2,
      ground (
        arith,
        e1,
        e2,
        n,
        length-le_bytes 8 (length key),
        is_empty-false b (omega (arith, length-le_bytes 8 (length key))),
        is_empty-false key l,
      ),
    )

drop-whole {ℓ} :
    {A : Type ℓ} (n : ℕ) (xs ys : List A) → length xs ≡ n → length ys ≡ n → xs ++ drop n ys ≡ xs
drop-whole zero [] [] e h = refl
drop-whole zero (x ∷ xs) ys e h = absurd (omega arith)
drop-whole zero [] (y ∷ ys) e h = absurd (omega arith)
drop-whole (suc n) [] ys e h = absurd (omega arith)
drop-whole (suc n) (x ∷ xs) [] e h = absurd (omega arith)
drop-whole (suc n) (x ∷ xs) (y ∷ ys) e h =
    ap (λ t. x ∷ t) (drop-whole n xs ys (omega arith) (omega arith))

pub read_value-encoded :
    (p : List Answer) (old : ℕ) (value rest : Bytes)
    → IsHonest p
    → 1 ≤ length value
    → item_size + length value < 2 ^ 64
    → (p' : List Answer) × IsHonest p'
      × (read_value true old (p, le_bytes 8 (length value) ++ (value ++ rest))
          ≡ got value (p', rest))
unfolding read_value
read_value-encoded p old value rest h l u =
    let n = length value in
    let b = le_bytes 8 n in
    let (p1, h1, e1) = read-append p 8 b (value ++ rest) h (length-le_bytes 8 n) in
    let (p2, h2, e2) = read-append p1 n value rest h1 refl in
    (
      p2,
      h2,
      ground (
        arith,
        e1,
        e2,
        of_le-le_bytes 8 n (omega arith),
        length-le_bytes 8 n,
        drop-whole 8 b (le_bytes 8 old) (length-le_bytes 8 n) (length-le_bytes 8 old),
        is_empty-false b (omega (arith, length-le_bytes 8 n)),
        is_empty-false value l,
        u,
      ),
    )

pub read_item-encoded :
    (p : List Answer) (i : Item) (bs : List Bytes)
    → IsHonest p
    → Storable i
    → (p' : List Answer) × IsHonest p'
      × (read_item true (p, joined (item_parts i ++ bs)) ≡ got i (p', joined bs))
unfolding read_item item_parts
read_item-encoded p i bs h s =
    let behind = le_bytes 8 (length i.value) ++ (i.value ++ joined bs) in
    let (p1, h1, e1) = read_key-encoded p i.key behind h s.key_some s.key_short in
    let (p2, h2, e2) =
      read_value-encoded p1 (length i.key) i.value (joined bs) h1 s.value_some s.value_short in
    (p2, h2, ground (arith, e1, e2, c_str-NoNul i.key s.key_text))

pub read_item-end :
    (memory : Bool) (p : List Answer) → IsHonest p → read_item memory (p, []) ≡ stop finished
unfolding read_item read_key
read_item-end memory p h = let (p1, h1, e1) = read-end p 7 h in ground (arith, e1)

-- Every allocation succeeds.
abbrev pub plenty : ℕ → Bool
plenty k = true

-- The result of the loop that stops with the items `is`.
abbrev pub result : Stop → List Item → Loaded
result finished is = loaded is
result rejected is = unreadable
result aborted is = crashed
result overran is = overrun

-- The loop reads the items that stand at the front, and ends as it does behind them.
load_items-stops :
    (is : List Item) (bs : List Bytes) (x : Stop) (f k : ℕ) (js : List Item) (p : List Answer)
    → ((q : List Answer) → IsHonest q → read_item true (q, joined bs) ≡ stop x)
    → IsHonest p
    → AllStorable is
    → length is < f
    → load_items f plenty k js (p, joined (all_parts is ++ bs)) ≡ result x (reverse_aux is js)
unfolding load_items all_parts
load_items-stops is bs x zero k js p e h s l = absurd (omega arith)
load_items-stops [] bs x (suc f) k js p e h s l = ground (arith, e p h)
load_items-stops (i ∷ is) bs x (suc f) k js p e h s l =
    let (p1, h1, e1) = read_item-encoded p i (all_parts is ++ bs) h s.0 in
    ground (
      arith,
      e1,
      append_assoc (item_parts i) (all_parts is) bs,
      load_items-stops is bs x f (k + 1) (i ∷ js) p1 e h1 s.1 (omega arith),
    )

length-joined : (is : List Item) → length is ≤ length (joined (all_parts is))
unfolding all_parts item_parts
length-joined [] = omega arith
length-joined (i ∷ is) = omega (
  arith,
  length-joined is,
  length-le_bytes 8 (length i.key),
  length-append {0} (le_bytes 8 (length i.key))
      (i.key ++ (le_bytes 8 (length i.value) ++ (i.value ++ joined (all_parts is)))),
  length-append {0} i.key (le_bytes 8 (length i.value) ++ (i.value ++ joined (all_parts is))),
  length-append {0} (le_bytes 8 (length i.value)) (i.value ++ joined (all_parts is)),
  length-append {0} i.value (joined (all_parts is)),
)

length-joined_append : (xs bs : List Bytes) → length (joined xs) ≤ length (joined (xs ++ bs))
length-joined_append [] bs = omega arith
length-joined_append (a ∷ xs) bs = omega (
  arith,
  length-joined_append xs bs,
  length-append {0} a (joined xs),
  length-append {0} a (joined (xs ++ bs)),
)

-- `pal_nvs_open` on a file that begins with the encoding of items.
pub load-stops :
    (is : List Item) (bs : List Bytes) (x : Stop) (p : List Answer)
    → ((q : List Answer) → IsHonest q → read_item true (q, joined bs) ≡ stop x)
    → IsHonest p
    → AllStorable is
    → load plenty p (joined (magic ∷ (all_parts is ++ bs))) ≡ result x (reverse is)
unfolding load
load-stops is bs x p e h s =
    let rest = joined (all_parts is ++ bs) in
    let (p1, h1, e1) = read-append p 3 magic rest h refl in
    ground (
      arith,
      e1,
      same_self magic,
      load_items-stops is bs x (suc (length (magic ++ rest))) 0 [] p1 e h1 s
          (omega (arith, length-joined is, length-joined_append (all_parts is) bs)),
    )

-- A file that holds the encoding of items is read back as those items, in the reverse order,
-- whatever short reads and interruptions there are. The items must be such as the format can hold:
-- keys of 1 to 31 bytes without a zero byte, and values of 1 to 2 ^ 64 - 49 bytes.
pub load-encode :
    (is : List Item) (p : List Answer)
    → IsHonest p
    → AllStorable is
    → load plenty p (encode is) ≡ loaded (reverse is)
unfolding encode
load-encode is p h s =
    ap (λ parts. load plenty p (joined (magic ∷ parts))) (sym (append-nil (all_parts is)))
    ∙ (load-stops is [] finished p (λ q k. read_item-end true q k) h s)
