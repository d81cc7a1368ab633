-- ===== src/KeyValueStore/Ops.antt =====
-- The calls that change the store of HAPPlatformKeyValueStore.c, and a map from domains and keys to
-- values with the same changes.
use homekit_bridge.Base.{
  ℕ, ◌<◌, Bool, true, false, ◌&&◌, Option, none, some, List, [], ◌∷◌, ◌==◌, if◌then◌else◌,
}
use homekit_bridge.Base.Bytes.{Bytes}
use homekit_bridge.KeyValueStore.{Kvs, Library, set, remove, purge_domain}

-- The calls that change the store.
pub data Op : Type 0 where
  setting : ℕ → ℕ → Bytes → Op
  removing : ℕ → ℕ → Op
  purging : ℕ → Op

-- A map from domains and keys to values, and what a call does to it.
abbrev pub Values : Type 0
Values = ℕ → ℕ → Option Bytes

abbrev pub change : Op → Values → Values
change (setting d k bytes) m c j = if (d == c) && (k == j) then some bytes else m c j
change (removing d k) m c j = if (d == c) && (k == j) then none else m c j
change (purging d) m c j = if d == c then none else m c j

abbrev pub changes : List Op → Values → Values
changes [] m = m
changes (op ∷ ops) m = changes ops (change op m)

-- Domains and keys are bytes.
abbrev pub IsByteOp : Op → Type 0
IsByteOp (setting d k bytes) = (d < 256) × (k < 256)
IsByteOp (removing d k) = (d < 256) × (k < 256)
IsByteOp (purging d) = d < 256

abbrev pub AllByteOps : List Op → Type 0
AllByteOps [] = Unit
AllByteOps (op ∷ ops) = IsByteOp op × AllByteOps ops

module _ {S H : Type 0} (lib : Library S H) (kvs : Kvs) where
  abbrev pub perform : Op → S → S × Bool
  perform (setting d k bytes) s = set lib kvs d k bytes s
  perform (removing d k) s = remove lib kvs d k s
  perform (purging d) s = purge_domain lib kvs d s

  -- Calls in turn, as long as they return no error.
  unfoldable pub performs : List Op → S → S × Bool
  performs [] s = (s, true)
  performs (op ∷ ops) s =
      let (s1, fine) = perform op s in elim fine [ false ↦ (s1, false) | true ↦ performs ops s1 ]
