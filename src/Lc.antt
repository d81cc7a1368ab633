-- ===== src/Lc.antt =====
-- The helpers of bridge/src/lc.c for tables and coroutines of Lua.
--
-- A table is the list of its pairs, in the order in which `lua_next` yields them. A Lua value is of
-- the type `V`, and what callbacks change is of the type `A`. Of a key there is the text that
-- `lua_tostring` gives, and its value where it is an integer from 0 on. Texts hold no NUL.
pub mod Arrays
mod Tests
use homekit_bridge.Base.{
  ℕ, suc, ◌+◌, ◌/◌, ◌%◌, ◌^◌, Bool, true, false, Option, none, some, List, [], ◌∷◌, ◌==◌,
  if◌then◌else◌,
}
use homekit_bridge.Base.Bytes.{Bytes, same}
use homekit_bridge.Base.Outcome.{Outcome, ok, abort, ◌>>=◌}

-- `lc_table_kv`
pub record Kv (V A : Type 0) : Type 0 where
  pub key : Bytes
  pub type : ℕ
  pub cb : Option (V → A → A × Bool)

-- A key of a table.
pub record Key : Type 0 where
  pub text : Option Bytes
  pub integer : Option ℕ

-- `(1 << lua_type(L, -1)) & kv->type`
abbrev pub allows : ℕ → ℕ → Bool
allows type t = (type / 2 ^ t) % 2 == 1

module _ {V A : Type 0} where
  -- `lc_lookup_kv_by_name`; there is no text of a key that is neither a string nor a number, and
  -- `strcmp` takes no null pointer.
  unfoldable pub lookup_kv_by_name : List (Kv V A) → Option Bytes → Outcome (Option (Kv V A))
  lookup_kv_by_name [] key = ok none
  lookup_kv_by_name (kv ∷ kvs) none = abort
  lookup_kv_by_name (kv ∷ kvs) (some key) = elim (same kv.key key) [
    | true ↦ ok (some kv)
    | false ↦ lookup_kv_by_name kvs (some key)
  ]

  -- What a pair does in `lc_traverse_table`; `lua_type` is the type of a value.
  unfoldable pub take_pair : (V → ℕ) → Option (Kv V A) → V → A → A × Bool
  take_pair lua_type none v a = (a, false)
  take_pair lua_type (some kv) v a =
      if allows kv.type (lua_type v)
      then elim kv.cb [ none ↦ (a, true) | some cb ↦ cb v a ]
      else (a, false)

  -- `lc_traverse_table`
  unfoldable pub traverse_table : (V → ℕ) → List (Kv V A) → List (Key × V) → A → Outcome (A × Bool)
  traverse_table lua_type kvs [] a = ok (a, true)
  traverse_table lua_type kvs ((k, v) ∷ pairs) a = elim (lookup_kv_by_name kvs k.text) [
    | abort ↦ abort
    | ok kv ↦
        let (a', fine) = take_pair lua_type kv v a in
        elim fine [ true ↦ traverse_table lua_type kvs pairs a' | false ↦ ok (a', false) ]
  ]

  -- The loop of `lc_traverse_array`, from the index `i` on.
  unfoldable pub traverse_from : ℕ → (ℕ → V → A → A × Bool) → List (Key × V) → A → A × Bool
  traverse_from i cb [] a = (a, true)
  traverse_from i cb ((k, v) ∷ pairs) a = elim k.integer [
    | none ↦ (a, false)
    | some n ↦ elim (n == i + 1) [
      | false ↦ (a, false)
      | true ↦
          let (a', fine) = cb i v a in
          elim fine [ true ↦ traverse_from (suc i) cb pairs a' | false ↦ (a', false) ]
    ]
  ]

  -- `lc_traverse_array`
  unfoldable pub traverse_array : Option (ℕ → V → A → A × Bool) → List (Key × V) → A → A × Bool
  traverse_array none pairs a = (a, false)
  traverse_array (some cb) pairs a = traverse_from 0 cb pairs a

-- The entries that `lc_create_enum_table` sets, from the index `i` on.
unfoldable pub enum_from : ℕ → List (Option Bytes) → List (Bytes × ℕ)
enum_from i [] = []
enum_from i (none ∷ names) = enum_from (suc i) names
enum_from i (some name ∷ names) = (name, i) ∷ enum_from (suc i) names

-- What `lua_resume` answers.
pub data Status : Type 0 where
  finished yielded failed : Status

-- Whether the registry holds a coroutine: after `lc_startthread`, and after `lc_resumethread`.
unfoldable pub startthread : Status → Bool → Bool
startthread finished held = held
startthread yielded held = true
startthread failed held = held

unfoldable pub resumethread : Status → Bool → Bool
resumethread finished held = false
resumethread yielded held = held
resumethread failed held = false
