-- ===== src/Nvs/Load.antt =====
-- How `pal_nvs_open` reads a store file back, lines 160 to 244 of platform/posix/src/nvs.c.
pub mod Total
pub mod RoundTrip
pub mod Damage
use homekit_bridge.Base.{
  is_empty, ℕ, zero, suc, ◌+◌, Bool, true, false, not, ◌&&◌, Option, none, some, List, [], ◌∷◌,
  ◌++◌, ◌^◌, leb, ltb, ◌==◌, if◌then◌else◌, length, drop,
}
use homekit_bridge.Base.Bytes.{Bytes, same}
use homekit_bridge.Nvs.{Item, key_max_len}
use homekit_bridge.Nvs.Io.{Answer, read_all}
use homekit_bridge.Base.Endian.{le_bytes, of_le}
use homekit_bridge.Nvs.Codec.{magic}

-- Why reading stops: the end of the file, an error that is returned (`goto err3`), or a failed
-- assertion, or a block of memory that is smaller than what is read into it.
pub data Stop : Type 0 where
  finished rejected aborted overran : Stop

-- The rest of the file, with the answers of `read` to come.
abbrev pub File : Type 0
File = List Answer × Bytes

pub data Reading (A : Type 0) : Type 0 where
  got : A → File → Reading A
  stop : Stop → Reading A

abbrev pub Reader : Type 0 → Type 0
Reader A = File → Reading A

infixl 5 ◌>>=◌ ◌>>◌
abbrev pub ◌>>=◌ : {A B : Type 0} → Reader A → (A → Reader B) → Reader B
◌>>=◌ m f s = elim (m s) [ got a s' ↦ f a s' | stop r ↦ stop r ]

abbrev pub ◌>>◌ : {B : Type 0} → Reader (Unit {0}) → Reader B → Reader B
m >> k = m >>= λ _. k

abbrev pub pure : {A : Type 0} → A → Reader A
pure a s = got a s

abbrev pub unless : Bool → Stop → Reader (Unit {0})
unless true r s = got tt s
unless false r s = stop r

-- `read_all`, and the return of its error.
unfoldable pub read : ℕ → Reader Bytes
read n (p, rest) =
    let (p', rest', o) = read_all p rest n in
    elim o [ none ↦ stop rejected | some bs ↦ got bs (p', rest') ]

-- The text in a buffer: `snprintf(item->key, sizeof(item->key), "%s", key)`.
unfoldable pub c_str : Bytes → Bytes
c_str [] = []
c_str (c ∷ s) = if c == 0 then [] else c ∷ c_str s

-- The bytes of a key, behind the bytes `b` that were read for its length.
unfoldable pub read_key_of : Bytes → Reader Bytes
read_key_of b = do
  let len = of_le b
  unless ((length b == 8) && not (len == 0) && leb len key_max_len) rejected
  key ← read len
  unless (not (is_empty key)) aborted
  unless (length key == len) rejected
  pure key

-- The length and the bytes of a key, or the end of the file.
unfoldable pub read_key : Reader Bytes
read_key = do b ← read 8; unless (not (is_empty b)) finished; read_key_of b

-- `sizeof(struct pal_nvs_item)`, with pointers of 64 bits: the key of 32 bytes, the length and the link.
abbrev pub item_size : ℕ
item_size = 48

-- The length and the bytes of a value. A length that is cut short overwrites only as many bytes of
-- the variable, which held the length `old` of the key. `memory` answers `pal_mem_alloc`.
-- From a length of 2 ^ 64 - 48 on, `sizeof(*item) + len` wraps around, and the bytes that are asked for
-- do not fit in the block.
unfoldable pub read_value : Bool → ℕ → Reader Bytes
read_value memory old = do
  b ← read 8
  unless (not (is_empty b)) rejected
  let len = of_le (b ++ drop (length b) (le_bytes 8 old))
  unless (not (len == 0)) rejected
  unless memory rejected
  unless (ltb (item_size + len) (2 ^ 64)) overran
  value ← read len
  unless (not (is_empty value)) aborted
  unless (length value == len) rejected
  pure value

-- One round of the loop.
unfoldable pub read_item : Bool → Reader Item
read_item memory = do
  key ← read_key
  value ← read_value memory (length key)
  pure (record { key = c_str key; value = value })

-- The result of the loop: the items, an error, an abort, a read into too small a block, or no more
-- rounds.
pub data Loaded : Type 0 where
  loaded : List Item → Loaded
  unreadable crashed overrun out_of_fuel : Loaded

-- The loop; `memory k` answers the allocation of round `k`. Items are put in front of the list.
unfoldable pub load_items : ℕ → (ℕ → Bool) → ℕ → List Item → File → Loaded
load_items zero memory k is s = out_of_fuel
load_items (suc f) memory k is s = elim (read_item (memory k) s) [
  | got i s' ↦ load_items f memory (k + 1) (i ∷ is) s'
  | stop finished ↦ loaded is
  | stop rejected ↦ unreadable
  | stop aborted ↦ crashed
  | stop overran ↦ overrun
]

-- The magic bytes, then the items. The rounds allowed are one more than the bytes of the file.
unfoldable pub load : (ℕ → Bool) → List Answer → Bytes → Loaded
load memory p content = elim (read 3 (p, content)) [
  | stop r ↦ unreadable
  | got b s ↦
      if (length b == 3) && same b magic
      then load_items (suc (length content)) memory 0 [] s
      else unreadable
]
