-- ===== src/Nvs/Load/Damage.antt =====
-- Files that `pal_nvs_open` of platform/posix/src/nvs.c does not read.
use homekit_bridge.Base.{
  ℕ, suc, ◌-◌, ◌≤◌, ◌≡◌, refl, true, List, [], ◌∷◌, ◌++◌, length, append_assoc, ap, sym, ◌∙◌, arith,
}
use homekit_bridge.Base.Bytes.{Bytes}
use homekit_bridge.Nvs.{Item, key_max_len}
use homekit_bridge.Nvs.Io.{Answer, IsHonest}
use homekit_bridge.Base.Endian.{le_bytes, length-le_bytes, of_le-le_bytes}
use homekit_bridge.Nvs.Codec.{magic, item_parts, all_parts, joined, encode}
use homekit_bridge.Nvs.Load.{
  stop, rejected, aborted, read_key, read_key_of, read_item, load, unreadable, crashed,
}
use homekit_bridge.Nvs.Load.RoundTrip.{
  AllStorable, plenty, read-append, read-end, is_empty-false, load-stops,
}

suc-pred : (n : ℕ) → 1 ≤ n → suc (n - 1) ≡ n
suc-pred n h = omega arith

-- A file cut behind the length of a key: the item's key is missing.
read_item-cut :
    (p : List Answer) (n : ℕ)
    → IsHonest p
    → 1 ≤ n
    → n ≤ key_max_len
    → read_item true (p, joined (le_bytes 8 n ∷ [])) ≡ stop aborted
unfolding read_item read_key read_key_of
read_item-cut p n h l u =
    let (p1, h1, e1) = read-append p 8 (le_bytes 8 n) [] h (length-le_bytes 8 n) in
    let (p2, h2, e2) = read-end p1 (n - 1) h1 in
    ground (
      arith,
      e1,
      e2,
      suc-pred n l,
      of_le-le_bytes 8 n (omega arith),
      length-le_bytes 8 n,
      is_empty-false (le_bytes 8 n) (omega (arith, length-le_bytes 8 n)),
    )

-- An item with the empty key, as `pal_nvs_commit` writes it.
read_item-empty :
    (p : List Answer) (value : Bytes) (bs : List Bytes)
    → IsHonest p
    → read_item true (p, joined (item_parts (record { key = []; value = value }) ++ bs))
      ≡ stop rejected
unfolding read_item read_key read_key_of item_parts
read_item-empty p value bs h =
    let (p1, h1, e1) =
      read-append p 8 (le_bytes 8 0) (le_bytes 8 (length value) ++ (value ++ joined bs)) h
        (length-le_bytes 8 0) in
    ground (
      arith,
      e1,
      of_le-le_bytes 8 0 (omega arith),
      length-le_bytes 8 0,
      is_empty-false (le_bytes 8 0) (omega (arith, length-le_bytes 8 0)),
    )

-- A file that ends behind the length of a key, from 1 to 31, makes `pal_nvs_open` abort at its
-- assertion that the read failed: the end of the file is not reported as an invalid format.
pub load_cut :
    (is : List Item) (n : ℕ) (p : List Answer)
    → IsHonest p
    → AllStorable is
    → 1 ≤ n
    → n ≤ key_max_len
    → load plenty p (joined (magic ∷ (all_parts is ++ le_bytes 8 n ∷ []))) ≡ crashed
load_cut is n p h s l u =
    load-stops is (le_bytes 8 n ∷ []) aborted p (λ q k. read_item-cut q n k l u) h s

all_parts-append : (is js : List Item) → all_parts (is ++ js) ≡ all_parts is ++ all_parts js
unfolding all_parts
all_parts-append [] js = refl
all_parts-append (i ∷ is) js =
    rw (all_parts-append is js) (sym (append_assoc (item_parts i) (all_parts is) (all_parts js)))

-- A file with an item of the empty key, which `pal_nvs_set` accepts and `pal_nvs_commit` writes,
-- cannot be opened again, whatever stands before and behind the item.
load_empty_key :
    (is js : List Item) (value : Bytes) (p : List Answer)
    → IsHonest p
    → AllStorable is
    → load plenty p (encode (is ++ record { key = []; value = value } ∷ js)) ≡ unreadable
unfolding encode all_parts
load_empty_key is js value p h s =
    let bad : Item = record { key = []; value = value } in
    ap (λ parts. load plenty p (joined (magic ∷ parts))) (all_parts-append is (bad ∷ js))
    ∙ load-stops is (all_parts (bad ∷ js)) rejected p
        (λ q k. read_item-empty q value (all_parts js) k) h s
