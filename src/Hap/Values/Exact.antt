-- ===== src/Hap/Values/Exact.antt =====
-- Where numbers of characteristics in bridge/src/lhaplib.c keep their value.
use mathlib.Core.Path.{subst}
use mathlib.Core.Option.{some-injective}
use homekit_bridge.Base.{
  ℕ, ◌-◌, ◌%◌, ◌^◌, ◌<◌, ◌≡◌, ◌↔◌, inl, inr, refl, ap, sym, ◌∙◌, Bool, true, false, Option, none,
  some, ltb, if◌then◌else◌, arith, Bool-cases, Option-cases,
}
use homekit_bridge.Base.Outcome.{Outcome, ok, abort}
use homekit_bridge.Hap.Values.{
  ℤ, pos, negsuc, leb_int, Format, bytes_format, bool_format, uint8, uint16, uint32, uint64, int,
  float, string_format, tlv8, Range, integer_value_range_tab, is_in, tointegerx, to_int32, convert,
  Stored, whole, real, stored_whole, stored_real, constraint_val,
}

-- The integers of Lua.
abbrev pub lua_integer : ℤ → Bool
lua_integer n = is_in (negsuc (2 ^ 63 - 1)) (pos (2 ^ 63 - 1)) n

-- The number in the integers of the range of a format.
abbrev pub fits : Format → ℤ → Bool
fits format n = elim (integer_value_range_tab format) [
  | none ↦ false
  | some r ↦ is_in r.min r.max n
]

abbrev magnitude : ℤ → ℕ
magnitude (pos n) = n
magnitude (negsuc n) = n

abbrev is_pos : ℤ → Bool
is_pos (pos n) = true
is_pos (negsuc n) = false

-- The conversion to the type of a format is exact for the numbers of its range.
convert_fits : (format : Format) (n : ℤ) → fits format n ≡ true → convert format n ≡ some n
unfolding convert integer_value_range_tab
convert_fits bytes_format n h = absurd (ground (arith, h))
convert_fits bool_format n h = absurd (ground (arith, h))
convert_fits float n h = absurd (ground (arith, h))
convert_fits string_format n h = absurd (ground (arith, h))
convert_fits tlv8 n h = absurd (ground (arith, h))
convert_fits uint8 (pos n) h = let e : n % 2 ^ 8 ≡ n = ground (arith, h) in ap (λ m. some (pos m)) e
convert_fits uint8 (negsuc n) h = absurd (ground (arith, h))
convert_fits uint16 (pos n) h =
    let e : n % 2 ^ 16 ≡ n = ground (arith, h) in ap (λ m. some (pos m)) e
convert_fits uint16 (negsuc n) h = absurd (ground (arith, h))
convert_fits uint32 (pos n) h =
    let e : n % 2 ^ 32 ≡ n = ground (arith, h) in ap (λ m. some (pos m)) e
convert_fits uint32 (negsuc n) h = absurd (ground (arith, h))
convert_fits uint64 (pos n) h =
    let e : n % 2 ^ 64 ≡ n = ground (arith, h) in ap (λ m. some (pos m)) e
convert_fits uint64 (negsuc n) h = absurd (ground (arith, h))
convert_fits int (pos n) h =
    let b : n < 2 ^ 31 = ground (arith, h) in
    let e : n % 2 ^ 32 ≡ n = omega (arith, b) in
    let l : ltb (n % 2 ^ 32) (2 ^ 31) ≡ true = ground (arith, e, b) in rw (l, e) refl
convert_fits int (negsuc n) h =
    let b : n < 2 ^ 31 = ground (arith, h) in
    let e : n % 2 ^ 32 ≡ n = omega (arith, b) in
    let l : ltb (n % 2 ^ 32) (2 ^ 31) ≡ true = ground (arith, e, b) in rw (l, e) refl

-- Only those keep their value, among the integers of Lua.
fits_convert :
    (format : Format) (n : ℤ)
    → lua_integer n ≡ true
    → convert format n ≡ some n
    → fits format n ≡ true
unfolding convert integer_value_range_tab
fits_convert bytes_format n l h = absurd (ground (arith, h))
fits_convert bool_format n l h = absurd (ground (arith, h))
fits_convert float n l h = absurd (ground (arith, h))
fits_convert string_format n l h = absurd (ground (arith, h))
fits_convert tlv8 n l h = absurd (ground (arith, h))
fits_convert uint8 (pos n) l h =
    let e : n % 2 ^ 8 ≡ n = ap magnitude (some-injective (pos (n % 2 ^ 8)) (pos n) h) in
    let b : n < 2 ^ 8 = omega (arith, e) in ground (arith, b)
fits_convert uint8 (negsuc n) l h =
    let e : true ≡ false = ap is_pos (some-injective (pos (2 ^ 8 - 1 - n % 2 ^ 8)) (negsuc n) h) in
    absurd (ground (arith, e))
fits_convert uint16 (pos n) l h =
    let e : n % 2 ^ 16 ≡ n = ap magnitude (some-injective (pos (n % 2 ^ 16)) (pos n) h) in
    let b : n < 2 ^ 16 = omega (arith, e) in ground (arith, b)
fits_convert uint16 (negsuc n) l h =
    let e : true ≡ false =
      ap is_pos (some-injective (pos (2 ^ 16 - 1 - n % 2 ^ 16)) (negsuc n) h) in
    absurd (ground (arith, e))
fits_convert uint32 (pos n) l h =
    let e : n % 2 ^ 32 ≡ n = ap magnitude (some-injective (pos (n % 2 ^ 32)) (pos n) h) in
    let b : n < 2 ^ 32 = omega (arith, e) in ground (arith, b)
fits_convert uint32 (negsuc n) l h =
    let e : true ≡ false =
      ap is_pos (some-injective (pos (2 ^ 32 - 1 - n % 2 ^ 32)) (negsuc n) h) in
    absurd (ground (arith, e))
fits_convert uint64 (pos n) l h = ground (arith, l)
fits_convert uint64 (negsuc n) l h =
    let e : true ≡ false =
      ap is_pos (some-injective (pos (2 ^ 64 - 1 - n % 2 ^ 64)) (negsuc n) h) in
    absurd (ground (arith, e))
fits_convert int (pos n) l h = elim (Bool-cases (ltb (n % 2 ^ 32) (2 ^ 31))) [
  | inl q ↦
      let c : to_int32 (pos n) ≡ pos (n % 2 ^ 32) = rw q refl in
      let e : n % 2 ^ 32 ≡ n = ap magnitude (sym c ∙ some-injective (to_int32 (pos n)) (pos n) h) in
      ground (arith, e, q)
  | inr q ↦
      let c : to_int32 (pos n) ≡ negsuc (2 ^ 32 - 1 - n % 2 ^ 32) = rw q refl in
      let e : false ≡ true = ap is_pos (sym c ∙ some-injective (to_int32 (pos n)) (pos n) h) in
      absurd (ground (arith, e))
]
fits_convert int (negsuc n) l h = elim (Bool-cases (ltb (n % 2 ^ 32) (2 ^ 31))) [
  | inl q ↦
      let c : to_int32 (negsuc n) ≡ negsuc (n % 2 ^ 32) = rw q refl in
      let e : n % 2 ^ 32 ≡ n =
        ap magnitude (sym c ∙ some-injective (to_int32 (negsuc n)) (negsuc n) h) in
      ground (arith, e, q)
  | inr q ↦
      let c : to_int32 (negsuc n) ≡ pos (2 ^ 32 - 1 - n % 2 ^ 32) = rw q refl in
      let e : true ≡ false =
        ap is_pos (sym c ∙ some-injective (to_int32 (negsuc n)) (negsuc n) h) in
      absurd (ground (arith, e))
]

pub convert_iff :
    (format : Format) (n : ℤ)
    → lua_integer n ≡ true
    → (convert format n ≡ some n) ↔ (fits format n ≡ true)
convert_iff format n l = (fits_convert format n l, convert_fits format n)

abbrev in_range : Range → Bool → ℤ → Bool
in_range r is_unsigned n = is_in (if is_unsigned then pos 0 else r.min) r.max n

least : (m : ℤ) (n : ℕ) → leb_int m (pos 0) ≡ true → leb_int m (pos n) ≡ true
least (pos m) n z = ground (arith, z)
least (negsuc m) n z = refl

-- A number without a sign in the range of a signed format.
in_range-fits :
    (r : Range) (is_unsigned : Bool) (n : ℤ)
    → leb_int r.min (pos 0) ≡ true
    → in_range r is_unsigned n ≡ true
    → is_in r.min r.max n ≡ true
in_range-fits r false n z h = h
in_range-fits r true (negsuc n) z h = absurd (ground (arith, h))
in_range-fits r true (pos n) z h =
    let m : leb_int r.min (pos n) ≡ true = least r.min n z in ground (arith, h, m)

-- Every range begins at 0 or below.
range_begins :
    (format : Format) (r : Range)
    → integer_value_range_tab format ≡ some r
    → leb_int r.min (pos 0) ≡ true
unfolding integer_value_range_tab
range_begins bytes_format r e = absurd (ground (arith, e))
range_begins bool_format r e = absurd (ground (arith, e))
range_begins float r e = absurd (ground (arith, e))
range_begins string_format r e = absurd (ground (arith, e))
range_begins tlv8 r e = absurd (ground (arith, e))
range_begins uint8 r e =
    subst (λ (x : Range). leb_int x.min (pos 0) ≡ true) (some-injective _ r e) refl
range_begins uint16 r e =
    subst (λ (x : Range). leb_int x.min (pos 0) ≡ true) (some-injective _ r e) refl
range_begins uint32 r e =
    subst (λ (x : Range). leb_int x.min (pos 0) ≡ true) (some-injective _ r e) refl
range_begins uint64 r e =
    subst (λ (x : Range). leb_int x.min (pos 0) ≡ true) (some-injective _ r e) refl
range_begins int r e =
    subst (λ (x : Range). leb_int x.min (pos 0) ≡ true) (some-injective _ r e) refl

tointegerx-some :
    (n : ℤ) (format : Format) (is_unsigned : Bool) (r : Range)
    → integer_value_range_tab format ≡ some r
    → in_range r is_unsigned n ≡ true
    → tointegerx (some n) format is_unsigned ≡ ok (some n)
unfolding tointegerx
tointegerx-some n format is_unsigned r e q = rw (tointegerx, e, q) refl

tointegerx-none :
    (n : ℤ) (format : Format) (is_unsigned : Bool) (r : Range)
    → integer_value_range_tab format ≡ some r
    → in_range r is_unsigned n ≡ false
    → tointegerx (some n) format is_unsigned ≡ ok none
unfolding tointegerx
tointegerx-none n format is_unsigned r e q = rw (tointegerx, e, q) refl

module _ {F : Type 0} (f : Option F) where
  constraint_some :
      (n : ℤ) (format : Format) (is_unsigned : Bool) (r : Range)
      → integer_value_range_tab format ≡ some r
      → in_range r is_unsigned n ≡ true
      → constraint_val (some n) f format is_unsigned ≡ ok (stored_whole (convert format n))
  unfolding constraint_val
  constraint_some n format is_unsigned r e q =
      rw (constraint_val, e, tointegerx-some n format is_unsigned r e q) refl

  constraint_none :
      (n : ℤ) (format : Format) (is_unsigned : Bool) (r : Range)
      → integer_value_range_tab format ≡ some r
      → in_range r is_unsigned n ≡ false
      → constraint_val (some n) f format is_unsigned ≡ ok none
  unfolding constraint_val
  constraint_none n format is_unsigned r e q =
      rw (constraint_val, e, tointegerx-none n format is_unsigned r e q) refl

  constraint_missing :
      (format : Format) (is_unsigned : Bool) (r : Range)
      → integer_value_range_tab format ≡ some r
      → constraint_val none f format is_unsigned ≡ ok none
  unfolding constraint_val tointegerx
  constraint_missing format is_unsigned r e = rw (constraint_val, e, tointegerx) refl

  -- Without a row there is no integer to store.
  constraint_rowless :
      (number : Option ℤ) (format : Format) (is_unsigned : Bool)
      → integer_value_range_tab format ≡ none
      → ((y : Option F) × (constraint_val number f format is_unsigned ≡ ok (stored_real y)))
  unfolding constraint_val integer_value_range_tab
  constraint_rowless number bytes_format is_unsigned e = (none, refl)
  constraint_rowless number bool_format is_unsigned e = (none, refl)
  constraint_rowless number float is_unsigned e = (f, refl)
  constraint_rowless number string_format is_unsigned e = (none, refl)
  constraint_rowless number tlv8 is_unsigned e = (none, refl)
  constraint_rowless number uint8 is_unsigned e = absurd (ground (arith, e))
  constraint_rowless number uint16 is_unsigned e = absurd (ground (arith, e))
  constraint_rowless number uint32 is_unsigned e = absurd (ground (arith, e))
  constraint_rowless number uint64 is_unsigned e = absurd (ground (arith, e))
  constraint_rowless number int is_unsigned e = absurd (ground (arith, e))

in_range_signless :
    (r : Range) (is_unsigned : Bool) (n : ℤ)
    → is_unsigned ≡ true
    → in_range r is_unsigned n ≡ true
    → leb_int (pos 0) n ≡ true
in_range_signless r false n u h = absurd (ground (arith, u))
in_range_signless r true (pos n) u h = ground arith
in_range_signless r true (negsuc n) u h = absurd (ground (arith, h))

abbrev value_of : {F : Type 0} → Outcome (Option (Stored F)) → ℤ
value_of abort = pos 0
value_of (ok none) = pos 0
value_of (ok (some (whole n))) = n
value_of (ok (some (real x))) = pos 0

abbrev is_whole : {F : Type 0} → Outcome (Option (Stored F)) → Bool
is_whole (ok (some (whole n))) = true
is_whole r = false

real_not_whole : {F : Type 0} (y : Option F) (x : ℤ) → ok (stored_real y) ≡ ok (some (whole x)) → ⊥
real_not_whole none x h = let e : false ≡ true = ap is_whole h in absurd (ground (arith, e))
real_not_whole (some z) x h = let e : false ≡ true = ap is_whole h in absurd (ground (arith, e))

-- What a constraint stores as an integer is the number itself: where a number is stored so, which is
-- only for the formats of integers, it is an integer in the range of the format, and not below 0 if
-- that is asked for. What is stored for the format Float is not such an integer.
pub constraint_val_exact :
    {F : Type 0} (number : Option ℤ) (f : Option F) (format : Format) (is_unsigned : Bool) (x : ℤ)
    → constraint_val number f format is_unsigned ≡ ok (some (whole x))
    → (number ≡ some x) × (fits format x ≡ true) × (is_unsigned ≡ true → leb_int (pos 0) x ≡ true)
constraint_val_exact number f format is_unsigned x h =
    elim (Option-cases (integer_value_range_tab format)) [
      | inl e ↦
          let (y, q) = constraint_rowless f number format is_unsigned e in
          absurd (real_not_whole y x (sym q ∙ h))
      | inr (r, e) ↦ exact_in r e number h
    ]
  where
    exact_in :
        (r : Range)
        → integer_value_range_tab format ≡ some r
        → (number : Option ℤ) → constraint_val number f format is_unsigned ≡ ok (some (whole x))
        → (number ≡ some x)
          × (fits format x ≡ true)
          × (is_unsigned ≡ true → leb_int (pos 0) x ≡ true)
    exact_in r e none h =
        absurd (real_not_whole none x (sym (constraint_missing f format is_unsigned r e) ∙ h))
    exact_in r e (some n) h = elim (Bool-cases (in_range r is_unsigned n)) [
      | inr q ↦
          absurd (real_not_whole none x (sym (constraint_none f n format is_unsigned r e q) ∙ h))
      | inl q ↦
          let i = in_range-fits r is_unsigned n (range_begins format r e) q in
          let k : fits format n ≡ true = rw (fits, e) i in
          let w : constraint_val (some n) f format is_unsigned ≡ ok (some (whole n)) =
            constraint_some f n format is_unsigned r e q
            ∙ ap (λ o. ok (stored_whole o)) (convert_fits format n k) in
          let d : n ≡ x = ap value_of (sym w ∙ h) in
          (
            ap some d,
            subst (λ m. fits format m ≡ true) d k,
            λ u. subst (λ m. leb_int (pos 0) m ≡ true) d (in_range_signless r is_unsigned n u q),
          )
    ]
