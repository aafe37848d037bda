-- ===== src/Machine/Arith.antt =====
-- crates/llmvm/src/vm.rs: the arithmetic and the comparisons of the interpreter. An `i64` is an
-- integer in its range, and every operation on two of them is checked.
use Prim.Native.Nat
use Prim.Native.Nat.{Ordering}
use Prim.Native.String
use boruna.Prelude.{
  ℕ, suc, ◌+◌, ◌-◌, ◌*◌, ◌/◌, ◌%◌, String, Bool, true, false, not, ◌||◌, Result, ok, err, ltb, leb,
  if◌then◌else◌,
}
use boruna.Prelude.Int.{ℤ, pos, negsuc}
use boruna.Bytecode.Value.{Value, bool, int, float, string, is_nonzero, is_nan, int_eq, type_name}
use boruna.Vm.Error.{VmError, type_error, division_by_zero, arithmetic_overflow}
use boruna.Machine.Text.{negated}
use boruna.Machine.Platform.{Platform}

abbrev pub pos_part : ℤ → ℕ
pos_part (pos n) = n
pos_part (negsuc n) = 0

abbrev pub neg_part : ℤ → ℕ
neg_part (pos n) = 0
neg_part (negsuc n) = suc n

-- a - b, as an integer
abbrev pub difference : ℕ → ℕ → ℤ
difference a b = if leb b a then pos (a - b) else negsuc (b - a - 1)

infixl 65 ◌+ℤ◌ ◌-ℤ◌
infixl 70 ◌*ℤ◌
unfoldable pub ◌+ℤ◌ : ℤ → ℤ → ℤ
a +ℤ b = difference (pos_part a + pos_part b) (neg_part a + neg_part b)

unfoldable pub ◌-ℤ◌ : ℤ → ℤ → ℤ
a -ℤ b = difference (pos_part a + neg_part b) (neg_part a + pos_part b)

-- the integer of a size and a sign
abbrev pub signed : Bool → ℕ → ℤ
signed true n = negated n
signed false n = pos n

abbrev pub is_negative : ℤ → Bool
is_negative (pos _) = false
is_negative (negsuc _) = true

abbrev pub magnitude : ℤ → ℕ
magnitude (pos n) = n
magnitude (negsuc n) = suc n

abbrev pub differ : Bool → Bool → Bool
differ true b = not b
differ false b = b

unfoldable pub ◌*ℤ◌ : ℤ → ℤ → ℤ
a *ℤ b = signed (differ (is_negative a) (is_negative b)) (magnitude a * magnitude b)

-- towards zero
unfoldable pub quotient : ℤ → ℤ → ℤ
quotient a b = signed (differ (is_negative a) (is_negative b)) (magnitude a / magnitude b)

-- of the sign of the dividend
unfoldable pub remainder : ℤ → ℤ → ℤ
remainder a b = signed (is_negative a) (magnitude a % magnitude b)

abbrev pub fits_i64 : ℤ → Bool
fits_i64 (pos n) = ltb n 9223372036854775808
fits_i64 (negsuc n) = ltb n 9223372036854775808

-- `checked_*`, with the overflow error
abbrev pub checked : String → ℤ → Result Value VmError
checked what n = if fits_i64 n then ok (int n) else err (arithmetic_overflow what)

abbrev pub is_numeric : Value → Bool
is_numeric (int _) = true
is_numeric (float _) = true
is_numeric _ = false

abbrev pub is_int : Value → Bool
is_int (int _) = true
is_int _ = false

abbrev pub is_string : Value → Bool
is_string (string _) = true
is_string _ = false

-- the type error of two operands: the second is blamed if the first is as expected
abbrev pub blame : (Value → Bool) → String → Value → Value → Result Value VmError
blame p expected a b = err (type_error expected (type_name (if p a then b else a)))

module _ (platform : Platform) where
  -- the four combinations of `i64` and `f64`
  abbrev pub numeric :
      (ℤ → ℤ → Result Value VmError) → (ℕ → ℕ → ℕ) → Value → Value → Result Value VmError
  numeric f g (int x) (int y) = f x y
  numeric f g (float x) (float y) = ok (float (g x y))
  numeric f g (int x) (float y) = ok (float (g (platform.of_int x) y))
  numeric f g (float x) (int y) = ok (float (g x (platform.of_int y)))
  numeric f g a b = blame is_numeric "numeric" a b

  unfoldable pub add_values : Value → Value → Result Value VmError
  add_values = numeric (λ x y. checked "addition" (x +ℤ y)) platform.add

  unfoldable pub sub_values : Value → Value → Result Value VmError
  sub_values = numeric (λ x y. checked "subtraction" (x -ℤ y)) platform.sub

  unfoldable pub mul_values : Value → Value → Result Value VmError
  mul_values = numeric (λ x y. checked "multiplication" (x *ℤ y)) platform.mul

  abbrev pub is_zero_value : Value → Bool
  is_zero_value (int n) = int_eq n (pos 0)
  is_zero_value (float f) = not (is_nonzero f)
  is_zero_value _ = false

  unfoldable pub div_values : Value → Value → Result Value VmError
  div_values a b =
      if is_zero_value b
      then err division_by_zero
      else numeric (λ x y. checked "division" (quotient x y)) platform.div a b

  -- `checked_rem` refuses the least integer by -1, where the quotient overflows
  unfoldable pub rem_values : Value → Value → Result Value VmError
  rem_values (int x) (int y) =
      if int_eq y (pos 0)
      then err division_by_zero
      else if fits_i64 (quotient x y)
      then ok (int (remainder x y))
      else err (arithmetic_overflow "remainder")
  rem_values a b = blame is_int "Int" a b

  -- the sign bit is flipped
  abbrev pub negate_bits : ℕ → ℕ
  negate_bits f =
      if ltb f 9223372036854775808 then f + 9223372036854775808 else f - 9223372036854775808

  unfoldable pub neg_value : Value → Result Value VmError
  neg_value (int n) = checked "negation" (pos 0 -ℤ n)
  neg_value (float f) = ok (float (negate_bits f))
  neg_value v = err (type_error "numeric" (type_name v))

unfoldable pub compare_int : ℤ → ℤ → Ordering
compare_int (pos a) (pos b) = Nat.compare a b
compare_int (pos a) (negsuc b) = Ordering.gt
compare_int (negsuc a) (pos b) = Ordering.lt
compare_int (negsuc a) (negsuc b) = Nat.compare b a

-- an integer in the order of the floats: the bits below the sign, signed
abbrev pub float_rank : ℕ → ℤ
float_rank f = signed (leb 9223372036854775808 f) (f % 9223372036854775808)

-- `partial_cmp`, or equal where one is no number
unfoldable pub compare_float : ℕ → ℕ → Ordering
compare_float a b =
    if is_nan a || is_nan b then Ordering.eq else compare_int (float_rank a) (float_rank b)

-- the operands of `compare_op`
unfoldable pub compare_values : Value → Value → Result Ordering VmError
compare_values (int x) (int y) = ok (compare_int x y)
compare_values (float x) (float y) = ok (compare_float x y)
compare_values (string x) (string y) = ok (String.compare x y)
compare_values a b = err (type_error "comparable" (type_name a))

abbrev pub is_lt : Ordering → Bool
is_lt Ordering.lt = true
is_lt _ = false

abbrev pub is_le : Ordering → Bool
is_le Ordering.gt = false
is_le _ = true

abbrev pub is_gt : Ordering → Bool
is_gt Ordering.gt = true
is_gt _ = false

abbrev pub is_ge : Ordering → Bool
is_ge Ordering.lt = false
is_ge _ = true

unfoldable pub compare_with : (Ordering → Bool) → Value → Value → Result Value VmError
compare_with f a b = elim (compare_values a b) [ ok o ↦ ok (bool (f o)) | err e ↦ err e ]
