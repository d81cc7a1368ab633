-- ===== src/Hap/Values/Reads.antt =====
-- Read requests for numbers in bridge/src/lhaplib.c.
use mathlib.Core.Option.{some-injective}
use homekit_bridge.Base.{inl, inr, Bool-cases, ◌≡◌, ◌≢◌, ◌↔◌, refl, ap, sym, ◌∙◌, true, none, some}
use homekit_bridge.Base.Outcome.{Outcome, ok, abort}
use homekit_bridge.Hap.Values.{
  ℤ, Format, bytes_format, bool_format, uint8, uint16, uint32, uint64, int, float, string_format,
  tlv8, integer_value_range_tab, to_unsigned, to_int32, convert, no_error, Lua, returned, finished,
  replied, char_value_is_valid, finish_read, base_handle_read, number_handle_read, reply_number,
  respond_integer, checked, HapError, Reply, refused, Called, threw, finish_later, unknown,
  invalid_data, in_progress, other,
}
use homekit_bridge.Hap.Values.Exact.{lua_integer, fits, convert_iff}

-- The formats with a range are those of integers.
converts :
    (format : Format) (n : ℤ)
    → integer_value_range_tab format ≢ none
    → (m : ℤ) × (convert format n ≡ some m)
unfolding convert integer_value_range_tab
converts bytes_format n h = absurd (h refl)
converts bool_format n h = absurd (h refl)
converts float n h = absurd (h refl)
converts string_format n h = absurd (h refl)
converts tlv8 n h = absurd (h refl)
converts uint8 n h = (to_unsigned 8 n, refl)
converts uint16 n h = (to_unsigned 16 n, refl)
converts uint32 n h = (to_unsigned 32 n, refl)
converts uint64 n h = (to_unsigned 64 n, refl)
converts int n h = (to_int32 n, refl)

number_valid :
    {V : Type 0} (lua : Lua V) (format : Format) (v : V)
    → integer_value_range_tab format ≢ none
    → lua.is_number v ≡ true
    → char_value_is_valid lua v format ≡ true
unfolding char_value_is_valid integer_value_range_tab
number_valid lua bytes_format v h n = absurd (h refl)
number_valid lua bool_format v h n = absurd (h refl)
number_valid lua float v h n = absurd (h refl)
number_valid lua string_format v h n = absurd (h refl)
number_valid lua tlv8 v h n = absurd (h refl)
number_valid lua uint8 v h n = n
number_valid lua uint16 v h n = n
number_valid lua uint32 v h n = n
number_valid lua uint64 v h n = n
number_valid lua int v h n = n

module _ {V : Type 0} (lua : Lua V) (format : Format) (v e : V) where
  replies :
      (m : ℤ)
      → convert format (lua.to_integer v) ≡ some m
      → char_value_is_valid lua v format ≡ true
      → lua.is_integer e ≡ true
      → lua.to_error e ≡ no_error
      → number_handle_read lua format (finished (returned v e)) ≡ ok (replied m)
  unfolding number_handle_read base_handle_read finish_read
  replies m c t i o =
      let b : base_handle_read lua format (finished (returned v e)) ≡ (no_error, some v) =
        rw (base_handle_read, i, o, t) refl in
      let r : reply_number lua format (no_error, some v) ≡ ok (replied m) =
        rw (reply_number, c) refl in
      ap (reply_number lua format) b ∙ r

  -- For a characteristic with a format of integers, what the function of a program returns without an
  -- error, if it is a number that Lua converts to an integer, is answered without an error; the
  -- number in the answer is the integer exactly if the integer is in the range of the format.
  pub number_read_exact :
      integer_value_range_tab format ≢ none
      → lua_integer (lua.to_integer v) ≡ true
      → lua.is_number v ≡ true
      → lua.is_integer e ≡ true
      → lua.to_error e ≡ no_error
      → (m : ℤ) × (number_handle_read lua format (finished (returned v e)) ≡ ok (replied m))
        × ((m ≡ lua.to_integer v) ↔ (fits format (lua.to_integer v) ≡ true))
  number_read_exact h l n i o =
      let (m, c) = converts format (lua.to_integer v) h in
      let (f, g) = convert_iff format (lua.to_integer v) l in
      (
        m,
        replies m c (number_valid lua format v h n) i o,
        (λ q. f (c ∙ ap some q), λ q. some-injective m (lua.to_integer v) (sym c ∙ g q)),
      )

-- What the server is told later, as a reply.
abbrev pub as_reply : {V : Type 0} → Outcome (HapError × ℤ) → Outcome (Reply V)
as_reply abort = abort
as_reply (ok (no_error, n)) = ok (replied n)
as_reply (ok (e, n)) = ok (refused e)

module _ {V : Type 0} (lua : Lua V) (format : Format)
    (ranged : integer_value_range_tab format ≢ none) where
  reply_some :
      (v : V)
      → reply_number lua format (no_error, some v)
        ≡ as_reply (respond_integer lua format (no_error, some v))
  reply_some v =
      let (m, c) = converts format (lua.to_integer v) ranged in
      rw (reply_number, respond_integer, c) refl

  checked_reply :
      (v : V) (e : HapError)
      → reply_number lua format (checked lua format v e)
        ≡ as_reply (respond_integer lua format (checked lua format v e))
  checked_reply v no_error = elim (Bool-cases (char_value_is_valid lua v format)) [
    | inl q ↦ rw (checked, q) (reply_some v)
    | inr q ↦ rw (checked, q) refl
  ]
  checked_reply v unknown = refl
  checked_reply v invalid_data = refl
  checked_reply v in_progress = refl
  checked_reply v (other n) = refl

  -- For a characteristic with a format of integers, HomeKit's server is told the same number, or the
  -- same error, when the function of a program has yielded before it ends as when it ends at once.
  pub finish_later_lem :
      (c : Called V)
      → number_handle_read lua format (finished c) ≡ as_reply (finish_later lua format c)
  unfolding number_handle_read base_handle_read finish_later finish_read
  finish_later_lem threw = refl
  finish_later_lem (returned v e) = elim (Bool-cases (lua.is_integer e)) [
    | inl i ↦ rw (number_handle_read, finish_later, i) (checked_reply v (lua.to_error e))
    | inr i ↦ rw (number_handle_read, finish_later, i) refl
  ]
