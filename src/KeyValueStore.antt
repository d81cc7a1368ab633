-- ===== src/KeyValueStore.antt =====
-- The HomeKit key-value store of the ESP port,
-- platform/esp/components/homekit_adk/port/src/HAPPlatformKeyValueStore.c.
--
-- The storage library of ESP-IDF (`nvs_...`) is a parameter: its state `S`, its handles `H` and its
-- calls. The entries that its iterator yields are the list of their keys. Domains and keys are
-- bytes (uint8_t). The callback of the enumeration is a function on the rest of the program's state.
pub mod Names
pub mod Documented
pub mod Ops
pub mod Keep
pub mod Enumeration
mod Tests
use homekit_bridge.Base.{
  ℕ, ◌+◌, ◌-◌, ◌*◌, ◌/◌, ◌%◌, Bool, true, false, not, ◌&&◌, ◌||◌, Option, none, some, List, [], ◌∷◌,
  ◌++◌, ltb, leb, if◌then◌else◌, take, length,
}
use homekit_bridge.Base.Bytes.{Bytes, same}
use homekit_bridge.Base.Outcome.{Outcome, ok, abort, ◌>>=◌, ◌>>◌, require}

-- `HAPPlatformKeyValueStore`
pub record Kvs : Type 0 where
  pub part_name : Bytes
  pub namespace_prefix : Bytes
  pub read_only : Bool

-- What `nvs_erase_key` answers.
pub data Erased : Type 0 where
  erased not_found failed : Erased

-- The calls of the library. A blob is read to a buffer of so many bytes, or to none, which asks for
-- its length.
pub record Library (S H : Type 0) : Type 0 where
  pub open_from_partition : Bytes → Bytes → S → S × Option H
  pub get_blob : H → Bytes → Option ℕ → S → Option Bytes
  pub set_blob : H → Bytes → Bytes → S → S × Bool
  pub erase_key : H → Bytes → S → S × Erased
  pub erase_all : H → S → S × Bool
  pub commit : H → S → S × Bool
  pub close : H → S → S
  pub entry_keys : Bytes → Bytes → S → List Bytes

-- A digit of "%02X".
abbrev pub hex_digit : ℕ → ℕ
hex_digit n = if ltb n 10 then b'0' + n else b'A' + (n - 10)

-- "%02X" of a byte
unfoldable pub hex2 : ℕ → Bytes
hex2 n = hex_digit (n / 16) ∷ hex_digit (n % 16) ∷ []

-- "%s.%02X" in a buffer of 15 bytes
unfoldable pub name_space : Kvs → ℕ → Bytes
name_space kvs domain = take 14 (kvs.namespace_prefix ++ b'.' ∷ hex2 domain)

-- `atoi`, of a text that begins with no space and no sign: its value so far is `n`.
unfoldable pub atoi : ℕ → Bytes → ℕ
atoi n [] = n
atoi n (c ∷ s) = elim (leb b'0' c && leb c b'9') [ true ↦ atoi (n * 10 + (c - b'0')) s | false ↦ n ]

module _ {S H : Type 0} (lib : Library S H) (kvs : Kvs) where
  -- `HAPPlatformKeyValueStoreGetHandle`
  abbrev pub get_handle : ℕ → S → S × Option H
  get_handle domain s = lib.open_from_partition kvs.part_name (name_space kvs domain) s

  -- `HAPPlatformKeyValueStoreGet`: the value that is found, or an error; with no buffer it says only
  -- whether there is a value, by a value that the caller does not get.
  unfoldable pub get : ℕ → ℕ → Option ℕ → S → S × Option (Option Bytes)
  get domain key buffer s =
      let (s1, handle) = get_handle domain s in
      elim handle [
        | none ↦ (s1, none)
        | some h ↦ (lib.close h s1, some (lib.get_blob h (hex2 key) buffer s1))
      ]

  -- `nvs_commit` and `nvs_close` at the end of a call: whether it returns no error.
  abbrev pub finish : H → S → S × Bool
  finish h s = let (s1, committed) = lib.commit h s in (lib.close h s1, committed)

  -- `HAPPlatformKeyValueStoreSet`: whether it returns no error.
  unfoldable pub set : ℕ → ℕ → Bytes → S → S × Bool
  set domain key bytes s =
      if kvs.read_only
      then (s, false)
      else let (s1, handle) = get_handle domain s in
        elim handle [
          | none ↦ (s1, false)
          | some h ↦
              let (s2, done) = lib.set_blob h (hex2 key) bytes s1 in
              if done then finish h s2 else (lib.close h s2, false)
        ]

  -- `HAPPlatformKeyValueStoreRemove`
  unfoldable pub remove : ℕ → ℕ → S → S × Bool
  remove domain key s =
      if kvs.read_only
      then (s, false)
      else let (s1, handle) = get_handle domain s in
        elim handle [
          | none ↦ (s1, false)
          | some h ↦
              let (s2, done) = lib.erase_key h (hex2 key) s1 in
              elim done [
                | erased ↦ finish h s2
                | not_found ↦ finish h s2
                | failed ↦ (lib.close h s2, false)
              ]
        ]

  -- `HAPPlatformKeyValueStorePurgeDomain`
  unfoldable pub purge_domain : ℕ → S → S × Bool
  purge_domain domain s =
      if kvs.read_only
      then (s, false)
      else let (s1, handle) = get_handle domain s in
        elim handle [
          | none ↦ (s1, false)
          | some h ↦
              let (s2, done) = lib.erase_all h s1 in
              if done then finish h s2 else (lib.close h s2, false)
        ]

-- The callback of an enumeration, for a key: the next state, whether it returns no error, and
-- whether to continue.
abbrev pub Visitor : Type 0 → Type 0
Visitor W = ℕ → W → W × Bool × Bool

-- The loop of `HAPPlatformKeyValueStoreEnumerate`. The key is converted to a byte.
unfoldable pub visit : {W : Type 0} → Visitor W → List Bytes → W → W × Bool
visit callback [] w = (w, true)
visit callback (name ∷ names) w =
    let (w1, fine, continues) = callback (atoi 0 name % 256) w in
    elim fine [
      | false ↦ (w1, false)
      | true ↦ elim continues [ false ↦ (w1, true) | true ↦ visit callback names w1 ]
    ]

-- `HAPPlatformKeyValueStoreEnumerate`
unfoldable pub enumerate : {S H W : Type 0} → Library S H → Kvs → ℕ → Visitor W → S → W → W × Bool
enumerate lib kvs domain callback s w =
    visit callback (lib.entry_keys kvs.part_name (name_space kvs domain) s) w

-- What `nvs_flash_init_partition` answers.
pub data Init : Type 0 where
  initialized no_free_pages new_version_found other_error : Init

abbrev pub check : Init → Outcome (Unit {0})
check initialized = ok tt
check no_free_pages = abort
check new_version_found = abort
check other_error = abort

-- The initialization of a partition for writing: the answers of `nvs_flash_init_partition`, of
-- `nvs_flash_erase_partition`, and of `nvs_flash_init_partition` behind it. ESP_ERROR_CHECK ends
-- the process.
unfoldable pub init_partition : Init → Bool → Init → Outcome (Unit {0})
init_partition no_free_pages erases second = require erases >> check second
init_partition new_version_found erases second = require erases >> check second
init_partition initialized erases second = ok tt
init_partition other_error erases second = abort

-- `HAPPlatformKeyValueStoreCreate` with the options `o`; `default_part` is NVS_DEFAULT_PART_NAME.
unfoldable pub create : Bytes → Init → Bool → Init → Kvs → Outcome Kvs
create default_part first erases second o =
    if not (same o.part_name default_part)
    then ok o
    else if o.read_only
    then ok o
    else init_partition first erases second >> ok o
