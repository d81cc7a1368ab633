-- ===== src/Lc/Tests.antt =====
-- The helpers of bridge/src/lc.c on concrete tables, and the theorem there.
use homekit_bridge.Base.{ℕ, ◌≡◌, ◌↔◌, refl, Bool, true, false, none, some, List, [], ◌∷◌}
use homekit_bridge.Base.Bytes.{Bytes, same, strcmp}
use homekit_bridge.Base.Outcome.{ok, abort}
use homekit_bridge.Lc.{
  Kv, Key, finished, yielded, lookup_kv_by_name, take_pair, traverse_table, traverse_from,
  traverse_array, enum_from, startthread, resumethread,
}
use homekit_bridge.Lc.Arrays.{Counts, indexed, note, traverse_array_iff}

abbrev at : ℕ → Key
at n = record { text = some (b'0' ∷ []); integer = some n }

abbrev two : List (Key × ℕ)
two = (at 1, 7) ∷ (at 2, 9) ∷ []

traverse_array_iff_example :
    (((traverse_array (some note) two []).1 ≡ true) ↔ Counts 1 two)
    × (Counts 1 two → traverse_array (some note) two [] ≡ (indexed 0 two, true))
traverse_array_iff_example = traverse_array_iff two

two_taken : traverse_array (some note) two [] ≡ ((0, 7) ∷ (1, 9) ∷ [], true)
unfolding traverse_array traverse_from
two_taken = refl

abbrev add : ℕ → ℕ → ℕ × Bool
add v a = (v, true)

abbrev kvs : List (Kv ℕ ℕ)
kvs = record { key = b'a' ∷ []; type = 8; cb = some add } ∷ []

abbrev named : Bytes → Key
named s = record { text = some s; integer = none }

-- The value 5 of the key a, of the type 3 (a number), is taken.
traverse_known : traverse_table (λ v. 3) kvs ((named (b'a' ∷ []), 5) ∷ []) 0 ≡ ok (5, true)
unfolding traverse_table lookup_kv_by_name take_pair same strcmp
traverse_known = refl

-- A value of the type 4 (a string) is refused.
traverse_typed : traverse_table (λ v. 4) kvs ((named (b'a' ∷ []), 5) ∷ []) 0 ≡ ok (0, false)
unfolding traverse_table lookup_kv_by_name take_pair same strcmp
traverse_typed = refl

-- A key without a text ends the process.
traverse_boolean :
    traverse_table (λ v. 3) kvs ((record { text = none; integer = none }, 5) ∷ []) 0 ≡ abort
unfolding traverse_table lookup_kv_by_name
traverse_boolean = refl

-- A coroutine is held while it is suspended.
held_and_dropped :
    (startthread yielded false ≡ true) × (resumethread finished (startthread yielded false) ≡ false)
unfolding startthread resumethread
held_and_dropped = (refl, refl)

enum_two :
    enum_from 0 (some (b'a' ∷ []) ∷ none ∷ some (b'b' ∷ []) ∷ [])
    ≡ (b'a' ∷ [], 0) ∷ (b'b' ∷ [], 2) ∷ []
unfolding enum_from
enum_two = refl
