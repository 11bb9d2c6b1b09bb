-- ===== src/Cpu/Arithmetic.antt =====
-- The arithmetic operations, the type check and the comparisons of cpu.cpp, as functions from the
-- operands' texts to the result's text. An operand with a point makes the operation one on floats.
pub mod Laws
pub mod Numeric
use kagu_os.Prelude.{
  Bool, true, false, ◌&&◌, ◌||◌, not, [], ◌∷◌, ◌==◌, if◌then◌else◌, ℤ, ltb_ℤ, leb_ℤ, pos,
}
use mathlib.Core.List.{reverse}
use kagu_os.Std.Text.{Bytes, codes, beq, contains_char, is_digit, is_empty}
use kagu_os.Std.Fault.{Result, ok, ◌>>=◌}
use kagu_os.Std.Number.{stoi, to_string, int_add, int_sub, int_mul, int_div, int_mod, drop_digits}
use kagu_os.Cpu.Float.{FloatOps}

-- `isFloat`
unfoldable pub is_float : Bytes → Bool
unfolding contains_char
is_float s = contains_char b'.' s

drop_zeros : Bytes → Bytes
drop_zeros [] = []
drop_zeros (c ∷ s) = if c == b'0' then drop_zeros s else c ∷ s

drop_point : Bytes → Bytes
drop_point [] = []
drop_point (c ∷ s) = if c == b'.' then s else c ∷ s

-- The zeros at the end of a text are dropped, and then a point at its end.
unfoldable pub strip_zeros : Bytes → Bytes
unfolding drop_zeros drop_point
strip_zeros s = reverse (drop_point (drop_zeros (reverse s)))

-- The result of an operation that may report an error in the error register.
pub data Outcome : Type 0 where
  value : Bytes → Outcome
  reported : Bytes → Outcome

unfoldable pub all_digits : Bytes → Bool
all_digits [] = true
all_digits (c ∷ s) = is_digit c && all_digits s

-- `-?\d*\.?\d+` behind the sign: the digits, and what stands behind them
unfoldable pub unsigned_number : Bytes → Bytes → Bool
unsigned_number s [] = not (is_empty s)
unsigned_number s (c ∷ rest) = c == b'.' && (not (is_empty rest) && all_digits rest)

-- `execIsNum`
unfoldable pub is_num : Bytes → Bool
unfolding unsigned_number all_digits drop_digits
is_num [] = false
is_num (c ∷ s) =
    if c == b'-'
    then unsigned_number s (drop_digits s)
    else unsigned_number (c ∷ s) (drop_digits (c ∷ s))

module _ (float : FloatOps) where
  open float use {Double, stod, one, less, less_or_equal, fixed}

  -- `formatNumber`
  unfoldable pub format_number : Double → Bytes
  unfolding strip_zeros
  format_number v = strip_zeros (fixed v)

  -- An operation on two operands, on floats or on `int`s.
  unfoldable pub binary :
      (Double → Double → Double) → (ℤ → ℤ → Result ℤ) → Bytes → Bytes → Result Bytes
  binary on_floats on_ints a b =
      if is_float a || is_float b
      then (do x ← stod a; y ← stod b; ok (format_number (on_floats x y)))
      else (do x ← stoi a; y ← stoi b; z ← on_ints x y; ok (to_string z))

  -- `execIncr` and `execDecr`: the second operand is 1
  unfoldable pub with_one : (Double → Double → Double) → (ℤ → ℤ → Result ℤ) → Bytes → Result Bytes
  with_one on_floats on_ints a =
      if is_float a
      then (do x ← stod a; ok (format_number (on_floats x one)))
      else (do x ← stoi a; z ← on_ints x (pos 1); ok (to_string z))

  unfoldable pub add_text : Bytes → Bytes → Result Bytes
  unfolding binary
  add_text = binary float.add int_add

  unfoldable pub sub_text : Bytes → Bytes → Result Bytes
  unfolding binary
  sub_text = binary float.sub int_sub

  unfoldable pub mul_text : Bytes → Bytes → Result Bytes
  unfolding binary
  mul_text = binary float.mul int_mul

  unfoldable pub incr_text : Bytes → Result Bytes
  unfolding with_one
  incr_text = with_one float.add int_add

  unfoldable pub decr_text : Bytes → Result Bytes
  unfolding with_one
  decr_text = with_one float.sub int_sub

  -- The two spellings of zero that are tested before a division.
  unfoldable pub div_text : Bytes → Bytes → Result Outcome
  unfolding binary
  div_text a b =
      if beq b (codes "0") || beq b (codes "0.0")
      then ok (reported (codes "Division by zero"))
      else (do v ← binary float.div int_div a b; ok (value v))

  -- A comparison of two operands, on floats or on `int`s.
  unfoldable pub compare_text :
      (Double → Double → Bool) → (ℤ → ℤ → Bool) → Bytes → Bytes → Result Bool
  compare_text on_floats on_ints a b =
      if is_float a || is_float b
      then (do x ← stod a; y ← stod b; ok (on_floats x y))
      else (do x ← stoi a; y ← stoi b; ok (on_ints x y))

  unfoldable pub cmp_lt_text : Bytes → Bytes → Result Bool
  unfolding compare_text
  cmp_lt_text = compare_text less ltb_ℤ

  unfoldable pub cmp_le_text : Bytes → Bytes → Result Bool
  unfolding compare_text
  cmp_le_text = compare_text less_or_equal leb_ℤ

-- `execMod`: on `int`s alone
unfoldable pub mod_text : Bytes → Bytes → Result Outcome
mod_text a b =
    if beq b (codes "0")
    then ok (reported (codes "Modulo by zero"))
    else (do x ← stoi a; y ← stoi b; z ← int_mod x y; ok (value (to_string z)))
