-- ===== src/Hap/Values.antt =====
-- The numbers of characteristics in bridge/src/lhaplib.c: the constraints that are read from tables,
-- and the values that Lua functions give for read requests.
--
-- What Lua's library tells of a value is a parameter. The handlers' results are what HomeKit's server
-- gets.
pub mod Exact
pub mod Reads
mod Tests
use homekit_bridge.Base.{
  ℕ, ◌-◌, ◌%◌, ◌^◌, Bool, true, false, not, ◌&&◌, ◌||◌, Option, none, some, leb, ltb, if◌then◌else◌,
}
use homekit_bridge.Base.Outcome.{Outcome, ok, abort}

-- Integers: `pos n` is n, and `negsuc n` is - (n + 1).
pub data ℤ : Type 0 where
  pos negsuc : ℕ → ℤ

abbrev pub leb_int : ℤ → ℤ → Bool
leb_int (pos a) (pos b) = leb a b
leb_int (pos a) (negsuc b) = false
leb_int (negsuc a) (pos b) = true
leb_int (negsuc a) (negsuc b) = leb b a

-- `HAPCharacteristicFormat`
pub data Format : Type 0 where
  bytes_format bool_format uint8 uint16 uint32 uint64 int float string_format tlv8 : Format

-- A row of `lhap_char_integer_value_range_tab`.
pub record Range : Type 0 where
  pub min : ℤ
  pub max : ℤ

abbrev up_to : ℕ → Option Range
up_to w = some (record { min = pos 0; max = pos (2 ^ w - 1) })

-- `lhap_char_integer_value_range_tab`, for integers of Lua of 64 bits; it has no row for the other
-- formats.
unfoldable pub integer_value_range_tab : Format → Option Range
integer_value_range_tab bytes_format = none
integer_value_range_tab bool_format = none
integer_value_range_tab uint8 = up_to 8
integer_value_range_tab uint16 = up_to 16
integer_value_range_tab uint32 = up_to 32
integer_value_range_tab uint64 = up_to 63
integer_value_range_tab int = some (record { min = negsuc (2 ^ 31 - 1); max = pos (2 ^ 31 - 1) })
integer_value_range_tab float = none
integer_value_range_tab string_format = none
integer_value_range_tab tlv8 = none

abbrev pub is_in : ℤ → ℤ → ℤ → Bool
is_in min max n = not (not (leb_int min n) || not (leb_int n max))

-- `lhap_tointegerx`, where `lua_tointegerx` gives a number or not.
unfoldable pub tointegerx : Option ℤ → Format → Bool → Outcome (Option ℤ)
tointegerx none format is_unsigned = ok none
tointegerx (some n) format is_unsigned = elim (integer_value_range_tab format) [
  | none ↦ abort
  | some r ↦ if is_in (if is_unsigned then pos 0 else r.min) r.max n then ok (some n) else ok none
]

-- The conversions to unsigned integers of `w` bits and to signed ones of 32 bits.
abbrev pub to_unsigned : ℕ → ℤ → ℤ
to_unsigned w (pos n) = pos (n % 2 ^ w)
to_unsigned w (negsuc n) = pos (2 ^ w - 1 - n % 2 ^ w)

abbrev pub to_int32 : ℤ → ℤ
to_int32 (pos n) = let m = n % 2 ^ 32 in if ltb m (2 ^ 31) then pos m else negsuc (2 ^ 32 - 1 - m)
to_int32 (negsuc n) =
    let m = n % 2 ^ 32 in if ltb m (2 ^ 31) then negsuc m else pos (2 ^ 32 - 1 - m)

-- What a number becomes in the type of the format, where that is a type of integers.
unfoldable pub convert : Format → ℤ → Option ℤ
convert bytes_format n = none
convert bool_format n = none
convert uint8 n = some (to_unsigned 8 n)
convert uint16 n = some (to_unsigned 16 n)
convert uint32 n = some (to_unsigned 32 n)
convert uint64 n = some (to_unsigned 64 n)
convert int n = some (to_int32 n)
convert float n = none
convert string_format n = none
convert tlv8 n = none

-- What a constraint stores: an integer, or a number of the type `F` for the format Float.
pub data Stored (F : Type 0) : Type 0 where
  whole : ℤ → Stored F
  real : F → Stored F

abbrev stored_whole : {F : Type 0} → Option ℤ → Option (Stored F)
stored_whole none = none
stored_whole (some n) = some (whole n)

abbrev stored_real : {F : Type 0} → Option F → Option (Stored F)
stored_real none = none
stored_real (some x) = some (real x)

-- LHAP_CHAR_CONSTRAINTS_VAL_CB_CODE: what is stored for a number, if it is not refused. `real_number`
-- is the result of `lua_tonumberx` as a C float. The formats of integers are those with a row in the
-- table.
unfoldable pub constraint_val :
    {F : Type 0} → Option ℤ → Option F → Format → Bool → Outcome (Option (Stored F))
constraint_val number real_number format is_unsigned = elim (integer_value_range_tab format) [
  | none ↦ elim format [ float ↦ ok (stored_real real_number) | _ ↦ ok none ]
  | some r ↦ elim (tointegerx number format is_unsigned) [
    | abort ↦ abort
    | ok none ↦ ok none
    | ok (some n) ↦ ok (stored_whole (convert format n))
  ]
]

-- What is used of `HAPError`.
pub data HapError : Type 0 where
  no_error unknown invalid_data in_progress : HapError
  other : ℕ → HapError

-- What Lua's library tells of a value: `lua_isboolean`, `lua_isnumber`, `lua_isstring`,
-- `lua_isinteger`, `lua_tointeger`, and the latter as an error.
pub record Lua (V : Type 0) : Type 0 where
  pub is_boolean : V → Bool
  pub is_number : V → Bool
  pub is_string : V → Bool
  pub is_integer : V → Bool
  pub to_integer : V → ℤ
  pub to_error : V → HapError

-- The function of a program has failed, or returned a value and an error.
pub data Called (V : Type 0) : Type 0 where
  threw : Called V
  returned : V → V → Called V

-- How its coroutine has ended.
pub data Run (V : Type 0) : Type 0 where
  finished : Called V → Run V
  yielded broken : Run V

-- What a read request is answered with.
pub data Reply (V : Type 0) : Type 0 where
  replied : ℤ → Reply V
  replied_as : V → Reply V
  refused : HapError → Reply V

module _ {V : Type 0} (lua : Lua V) where
  -- `lhap_char_value_is_valid`
  unfoldable pub char_value_is_valid : V → Format → Bool
  char_value_is_valid v bool_format = lua.is_boolean v
  char_value_is_valid v uint8 = lua.is_number v
  char_value_is_valid v uint16 = lua.is_number v
  char_value_is_valid v uint32 = lua.is_number v
  char_value_is_valid v uint64 = lua.is_number v
  char_value_is_valid v int = lua.is_number v
  char_value_is_valid v float = lua.is_number v
  char_value_is_valid v bytes_format = lua.is_string v
  char_value_is_valid v string_format = lua.is_string v
  char_value_is_valid v tlv8 = lua.is_string v

  -- A value without an error has to be valid.
  abbrev checked : Format → V → HapError → HapError × Option V
  checked format v no_error =
      if char_value_is_valid v format then (no_error, some v) else (invalid_data, none)
  checked format v e = (e, none)

  -- `finsh_call_handle_read`: the error, and the value if there is none.
  unfoldable pub finish_read : Format → Called V → HapError × Option V
  finish_read format threw = (unknown, none)
  finish_read format (returned v e) =
      if lua.is_integer e then checked format v (lua.to_error e) else (unknown, none)

  -- `lhap_char_base_handleRead`
  unfoldable pub base_handle_read : Format → Run V → HapError × Option V
  base_handle_read format (finished c) = finish_read format c
  base_handle_read format yielded = (in_progress, none)
  base_handle_read format broken = (unknown, none)

  -- `lhap_char_number_handleRead`; a float is replied as the value.
  abbrev reply_number : Format → HapError × Option V → Outcome (Reply V)
  reply_number format (e, none) = ok (refused e)
  reply_number format (e, some v) = elim (convert format (lua.to_integer v)) [
    | some n ↦ ok (replied n)
    | none ↦ elim format [ float ↦ ok (replied_as v) | _ ↦ abort ]
  ]

  unfoldable pub number_handle_read : Format → Run V → Outcome (Reply V)
  number_handle_read format r = reply_number format (base_handle_read format r)

  -- The end of `finsh_call_handle_read` for the formats of integers, when the coroutine has yielded
  -- before: what HomeKit's server is told.
  abbrev respond_integer : Format → HapError × Option V → Outcome (HapError × ℤ)
  respond_integer format (e, none) = ok (e, pos 0)
  respond_integer format (e, some v) = elim (convert format (lua.to_integer v)) [
    | some n ↦ ok (e, n)
    | none ↦ abort
  ]

  unfoldable pub finish_later : Format → Called V → Outcome (HapError × ℤ)
  finish_later format c = respond_integer format (finish_read format c)
