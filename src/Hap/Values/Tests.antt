-- ===== src/Hap/Values/Tests.antt =====
-- Numbers of characteristics at concrete values, and the theorems there.
use homekit_bridge.Base.{
  ℕ, ◌≡◌, ◌≢◌, ◌↔◌, ◌-◌, ◌^◌, if◌then◌else◌, refl, true, false, none, some, ◌==◌, arith,
}
use homekit_bridge.Base.Outcome.{ok}
use homekit_bridge.Hap.Values.{
  ℤ, pos, negsuc, leb_int, uint8, int, float, whole, real, integer_value_range_tab, tointegerx,
  convert, constraint_val, no_error, unknown, in_progress, Lua, threw, returned, finished, yielded,
  replied, refused, char_value_is_valid, finish_read, base_handle_read, number_handle_read,
  finish_later,
}
use homekit_bridge.Hap.Values.Exact.{fits, constraint_val_exact}
use homekit_bridge.Hap.Values.Reads.{number_read_exact, as_reply, finish_later_lem}

-- All values are integers from 0 on, and 0 is no error.
abbrev numbers : Lua ℕ
numbers = record {
  is_boolean = λ v. false;
  is_number = λ v. true;
  is_string = λ v. true;
  is_integer = λ v. true;
  to_integer = pos;
  to_error = λ v. if v == 0 then no_error else unknown;
}

stores : constraint_val {F = ℕ} (some (pos 100)) none uint8 false ≡ ok (some (whole (pos 100)))
unfolding constraint_val tointegerx integer_value_range_tab convert
stores = refl

stores_not : constraint_val {F = ℕ} (some (pos 256)) none uint8 false ≡ ok none
unfolding constraint_val tointegerx integer_value_range_tab convert
stores_not = refl

-- A step is not negative.
step_negative : constraint_val {F = ℕ} (some (negsuc 4)) none int true ≡ ok none
unfolding constraint_val tointegerx integer_value_range_tab convert
step_negative = refl

-- A constraint of the format Float takes any number.
stores_real : constraint_val {F = ℕ} none (some 7) float false ≡ ok (some (real 7))
unfolding constraint_val integer_value_range_tab
stores_real = refl

constraint_val_exact_example :
    (some (pos 100) ≡ some (pos 100))
    × (fits uint8 (pos 100) ≡ true)
    × (false ≡ true → leb_int (pos 0) (pos 100) ≡ true)
constraint_val_exact_example =
    constraint_val_exact (some (pos 100)) none uint8 false (pos 100) stores

has_range : integer_value_range_tab uint8 ≢ none
unfolding integer_value_range_tab
has_range e = ground (arith, e)

number_read_exact_example :
    (m : ℤ) × (number_handle_read numbers uint8 (finished (returned 256 0)) ≡ ok (replied m))
    × ((m ≡ pos 256) ↔ (fits uint8 (pos 256) ≡ true))
number_read_exact_example = number_read_exact numbers uint8 256 0 has_range refl refl refl refl

-- A number that is out of range is answered as another one.
read_256 : number_handle_read numbers uint8 (finished (returned 256 0)) ≡ ok (replied (pos 0))
unfolding number_handle_read base_handle_read finish_read char_value_is_valid convert
read_256 = refl

read_failed : number_handle_read numbers uint8 (finished threw) ≡ ok (refused unknown)
unfolding number_handle_read base_handle_read finish_read
read_failed = refl

read_later : number_handle_read numbers uint8 yielded ≡ ok (refused in_progress)
unfolding number_handle_read base_handle_read
read_later = refl

signed : convert int (pos (2 ^ 31)) ≡ some (negsuc (2 ^ 31 - 1))
unfolding convert
signed = refl

finish_later_lem_example :
    number_handle_read numbers uint8 (finished (returned 200 0))
    ≡ as_reply (finish_later numbers uint8 (returned 200 0))
finish_later_lem_example = finish_later_lem numbers uint8 has_range (returned 200 0)

later_200 : finish_later numbers uint8 (returned 200 0) ≡ ok (no_error, pos 200)
unfolding finish_later finish_read char_value_is_valid convert
later_200 = refl
