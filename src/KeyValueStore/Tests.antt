-- ===== src/KeyValueStore/Tests.antt =====
-- The key-value store over a library that keeps its contents in a function, and the theorems there.
use homekit_bridge.Base.{
  ◌≡◌, ◌↔◌, refl, ap, sym, Bool, true, false, Option, none, some, List, [], ◌∷◌, map, arith,
}
use homekit_bridge.Base.Bytes.{Bytes, same, strcmp}
use homekit_bridge.KeyValueStore.{
  Kvs, Library, Erased, erased, not_found, hex2, name_space, atoi, get, set, remove, visit,
  purge_domain, enumerate,
}
use homekit_bridge.KeyValueStore.Documented.{
  Contents, with_blob, without_namespace, fitted, Documented,
}
use homekit_bridge.KeyValueStore.Ops.{Op, setting, removing, purging, changes, performs}
use homekit_bridge.KeyValueStore.Keep.{get_reads}
use homekit_bridge.KeyValueStore.Enumeration.{note, AllDecimal, enumerate_iff}

abbrev Handle : Type 0
Handle = Bytes × Bytes

-- `nvs_erase_key` for a key that may be there.
abbrev erase : Option Bytes → Handle → Bytes → Contents → Contents × Erased
erase none h k s = (s, not_found)
erase (some blob) h k s = (with_blob h.0 h.1 k none s, erased)

abbrev memory : Library Contents Handle
memory = record {
  open_from_partition = λ p n s. (s, some (p, n));
  get_blob = λ h k buffer s. fitted buffer (s h.0 h.1 k);
  set_blob = λ h k blob s. (with_blob h.0 h.1 k (some blob) s, true);
  erase_key = λ h k s. erase (s h.0 h.1 k) h k s;
  erase_all = λ h s. (without_namespace h.0 h.1 s, true);
  commit = λ h s. (s, true);
  close = λ h s. s;
  entry_keys = λ p n s. map hex2 (1 ∷ 16 ∷ []);
}

abbrev unwrap : Handle → Option Handle → Handle
unwrap d none = d
unwrap d (some h) = h

erase-erased :
    (o : Option Bytes) (h : Handle) (k : Bytes) (s s' : Contents)
    → erase o h k s ≡ (s', erased)
    → s' ≡ with_blob h.0 h.1 k none s
erase-erased none h k s s' e = absurd (ground arith)
erase-erased (some blob) h k s s' e = sym (ap (λ (x : Contents × Erased). x.0) e)

erase-missed :
    (o : Option Bytes) (h : Handle) (k : Bytes) (s s' : Contents)
    → erase o h k s ≡ (s', not_found)
    → (s' ≡ s) × (o ≡ none)
erase-missed none h k s s' e = (sym (ap (λ (x : Contents × Erased). x.0) e), refl)
erase-missed (some blob) h k s s' e = absurd (ground arith)

memory-Documented : Documented memory (λ s. s) (λ h. h.0) (λ h. h.1)
memory-Documented = record {
  opened = λ p n s s' h e.
      let q : h ≡ (p, n) = sym (ap (λ (x : Contents × Option Handle). unwrap h x.1) e) in
      (
        ap (λ (x : Handle). x.0) q,
        ap (λ (x : Handle). x.1) q,
        sym (ap (λ (x : Contents × Option Handle). x.0) e),
      );
  got = λ h k buffer s. refl;
  put = λ h k blob s s' e. sym (ap (λ (x : Contents × Bool). x.0) e);
  erases = λ h k s s' e. erase-erased (s h.0 h.1 k) h k s s' e;
  misses = λ h k s s' e. erase-missed (s h.0 h.1 k) h k s s' e;
  erases_all = λ h s s' e. sym (ap (λ (x : Contents × Bool). x.0) e);
  commits = λ h s. refl;
  closes = λ h s. refl;
}

abbrev kvs : Kvs
kvs = record {
  part_name = b'n' ∷ [];
  namespace_prefix = b'h' ∷ b'a' ∷ b'p' ∷ [];
  read_only = false;
}

abbrev empty : Contents
empty p n k = none

abbrev ops : List Op
ops = setting 1 2 (7 ∷ []) ∷ setting 1 3 (8 ∷ []) ∷ removing 1 3 ∷ purging 2 ∷ []

abbrev last : Contents
last = (performs memory kvs ops empty).0

performed : performs memory kvs ops empty ≡ (last, true)
unfolding performs set remove purge_domain name_space hex2 same strcmp
performed = refl

abbrev seven : Option Bytes
seven = some (7 ∷ [])

got_seven : get memory kvs 1 2 (some 4) last ≡ (last, some seven)
unfolding get performs set remove purge_domain name_space hex2 same strcmp
got_seven = refl

get_reads_example : (seven ≡ fitted (some 4) (changes ops (λ c j. none) 1 2)) × (last ≡ last)
get_reads_example =
    get_reads memory kvs (λ s. s) (λ h. h.0) (λ h. h.1) memory-Documented (omega arith) ops 1 2
      (some 4) empty last last seven (ground arith) (omega arith) (omega arith) performed got_seven

enumerate_iff_example :
    (enumerate memory kvs 1 note empty [] ≡ (1 ∷ 16 ∷ [], true)) ↔ AllDecimal (1 ∷ 16 ∷ [])
enumerate_iff_example = enumerate_iff memory kvs 1 empty (1 ∷ 16 ∷ []) (ground arith) refl

-- A key of 16 is passed on as 10.
enumerate_sixteen : enumerate memory kvs 1 note empty [] ≡ (1 ∷ 10 ∷ [], true)
unfolding enumerate visit atoi hex2
enumerate_sixteen = refl
