-- ===== src/Nvs.antt =====
-- The key-value store of platform/posix/src/nvs.c: what a handle holds and the calls that read and
-- change it. The file format is in Nvs/Codec, the files and the open handles are in Nvs/Store.
--
-- A buffer and its length are one list of bytes. A key is a C string. A memory allocation is
-- answered by an argument.
pub mod Items
pub mod Io
pub mod Codec
pub mod Load
pub mod Store
mod Tests
use homekit_bridge.Base.{
  is_empty, ℕ, Bool, true, false, not, Option, none, some, List, [], ◌∷◌, ◌++◌, leb, ◌==◌,
  if◌then◌else◌, length,
}
use homekit_bridge.Base.Bytes.{Bytes, same}
use homekit_bridge.Base.Outcome.{Outcome, ok, abort, ◌>>=◌, ◌>>◌, require}

-- `PAL_NVS_KEY_MAX_LEN`
abbrev pub key_max_len : ℕ
key_max_len = 31

-- `pal_nvs_mode`
pub data Mode : Type 0 where
  readonly readwrite : Mode

-- `struct pal_nvs_item`; `len` is the length of `value`.
pub record Item : Type 0 where
  pub key : Bytes
  pub value : Bytes

-- `struct pal_nvs_handle`
pub record Handle : Type 0 where
  pub using_count : ℕ
  pub mode : Mode
  pub changed : Bool
  pub name : Bytes
  pub items : List Item

abbrev pub is_readonly : Mode → Bool
is_readonly readonly = true
is_readonly readwrite = false

-- `pal_nvs_find_key`
unfoldable pub find_key : Bytes → List Item → Option Item
find_key key [] = none
find_key key (i ∷ is) = if same i.key key then some i else find_key key is

-- `pal_nvs_get` with a buffer of `len` bytes: what it copies to the buffer, if it returns true.
unfoldable pub get : Handle → Bytes → ℕ → Outcome (Option Bytes)
get h key len = do
  require (not (len == 0))
  elim (find_key key h.items) [
    | none ↦ ok none
    | some i ↦ require (len == length i.value) >> ok (some i.value)
  ]

-- `pal_nvs_get_len`
unfoldable pub get_len : Handle → Bytes → ℕ
get_len h key = elim (find_key key h.items) [ none ↦ 0 | some i ↦ length i.value ]

-- What the loop of `pal_nvs_set` finds: no such key, no memory for the new value, the same value
-- already, or a list with the value replaced.
pub data Edit : Type 0 where
  absent no_memory kept : Edit
  edited : List Item → Edit

abbrev pub behind : Item → Edit → Edit
behind i absent = absent
behind i no_memory = no_memory
behind i kept = kept
behind i (edited is) = edited (i ∷ is)

-- The loop of `pal_nvs_set`; `memory` is the answer of `pal_mem_realloc`.
unfoldable pub replace : Bool → Bytes → Bytes → List Item → Edit
replace memory key value [] = absent
replace memory key value (i ∷ is) =
    if same i.key key
    then (if length i.value == length value
        then (if same i.value value then kept else edited (record i { value = value } ∷ is))
        else (if memory then edited (record i { value = value } ∷ is) else no_memory))
    else behind i (replace memory key value is)

-- What `pal_nvs_set` does with what its loop found; `memory` is the answer of `pal_mem_alloc`.
unfoldable pub apply_edit : Bool → Handle → Bytes → Bytes → Edit → Handle × Bool
apply_edit memory h key value (edited is) = (record h { items = is; changed = true }, true)
apply_edit memory h key value kept = (h, true)
apply_edit memory h key value no_memory = (h, false)
apply_edit memory h key value absent =
    if memory
    then (record h { items = record { key = key; value = value } ∷ h.items; changed = true }, true)
    else (h, false)

-- `pal_nvs_set`; `memory` is the answer of its one call of `pal_mem_realloc` or `pal_mem_alloc`.
unfoldable pub set : Bool → Handle → Bytes → Bytes → Outcome (Handle × Bool)
set memory h key value = do
  require (not (is_empty value))
  if is_readonly h.mode
      then ok (h, false)
      else require (leb (length key) key_max_len)
        >> ok (apply_edit memory h key value (replace memory key value h.items))

-- The loop of `pal_nvs_remove`: the list without the item, if there is one of that key.
unfoldable pub unlink : Bytes → List Item → Option (List Item)
unlink key [] = none
unlink key (i ∷ is) =
    if same i.key key
    then some is
    else elim (unlink key is) [ none ↦ none | some js ↦ some (i ∷ js) ]

-- `pal_nvs_remove`
unfoldable pub remove : Handle → Bytes → Handle × Bool
remove h key = if is_readonly h.mode then (h, false) else elim (unlink key h.items) [
  | none ↦ (h, false)
  | some is ↦ (record h { items = is; changed = true }, true)
]

-- `pal_nvs_erase`
unfoldable pub erase : Handle → Handle × Bool
erase h =
    if is_readonly h.mode
    then (h, false)
    else (record h { changed = if is_empty h.items then h.changed else true; items = [] }, true)
