-- ===== src/KeyValueStore/Documented.antt =====
-- What HAPPlatformKeyValueStore.c relies on of the storage library of ESP-IDF.
use homekit_bridge.Base.{ℕ, ◌≡◌, true, ◌&&◌, Option, none, some, leb, if◌then◌else◌, length}
use homekit_bridge.Base.Bytes.{Bytes, same}
use homekit_bridge.KeyValueStore.{Library, erased, not_found}

-- The contents of the library's store: the blob of a partition, a namespace and a key.
abbrev pub Contents : Type 0
Contents = Bytes → Bytes → Bytes → Option Bytes

-- The contents with one blob changed, and those without a namespace.
abbrev pub with_blob : Bytes → Bytes → Bytes → Option Bytes → Contents → Contents
with_blob part name key blob m p n k =
    if same part p && (same name n && same key k) then blob else m p n k

abbrev pub without_namespace : Bytes → Bytes → Contents → Contents
without_namespace part name m p n k = if same part p && same name n then none else m p n k

-- A blob that is read to a buffer; one that is too long is an error.
abbrev pub fitted : Option ℕ → Option Bytes → Option Bytes
fitted buffer none = none
fitted none (some blob) = some blob
fitted (some max) (some blob) = if leb (length blob) max then some blob else none

-- The documented behaviour of the calls, on the contents `view`; `part` and `name` are the partition
-- and the namespace of a handle.
pub record Documented {S H : Type 0} (lib : Library S H) (view : S → Contents)
    (part name : H → Bytes) : Type 0 where
  pub opened :
      (p n : Bytes) (s s' : S) (h : H)
      → lib.open_from_partition p n s ≡ (s', some h)
      → (part h ≡ p) × (name h ≡ n) × (view s' ≡ view s)
  pub got :
      (h : H) (k : Bytes) (buffer : Option ℕ) (s : S)
      → lib.get_blob h k buffer s ≡ fitted buffer (view s (part h) (name h) k)
  pub put :
      (h : H) (k blob : Bytes) (s s' : S)
      → lib.set_blob h k blob s ≡ (s', true)
      → view s' ≡ with_blob (part h) (name h) k (some blob) (view s)
  pub erases :
      (h : H) (k : Bytes) (s s' : S)
      → lib.erase_key h k s ≡ (s', erased)
      → view s' ≡ with_blob (part h) (name h) k none (view s)
  pub misses :
      (h : H) (k : Bytes) (s s' : S)
      → lib.erase_key h k s ≡ (s', not_found)
      → (view s' ≡ view s) × (view s (part h) (name h) k ≡ none)
  pub erases_all :
      (h : H) (s s' : S)
      → lib.erase_all h s ≡ (s', true)
      → view s' ≡ without_namespace (part h) (name h) (view s)
  pub commits : (h : H) (s : S) → view (lib.commit h s).0 ≡ view s
  pub closes : (h : H) (s : S) → view (lib.close h s) ≡ view s
