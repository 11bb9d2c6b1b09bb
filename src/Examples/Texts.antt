-- ===== src/Examples/Texts.antt =====
-- The theorems on the operations of the processor and on the names, at concrete texts.
use kagu_os.Prelude.{
  ◌≡◌, refl, ◌≢◌, true, ◌⊎◌, [], arith, ◌+ℤ◌, ◌-ℤ◌, ◌*ℤ◌, div_ℤ, mod_ℤ, pos, negsuc,
}
use kagu_os.Cpu.Arithmetic.Numeric.{is_num-stoi}
use kagu_os.Std.Fault.{fail, ok, invalid_argument, undefined}
use kagu_os.Cpu.Strings.Laws.{drop_empty, join-split, split-replace_column, get_column-split}
use kagu_os.Cpu.Arithmetic.Laws.{printed, division, unguarded_division, binary_arithmetic}
use kagu_os.Std.Text.{codes, beq}
use kagu_os.Std.Number.{stoi, to_string, int_result, fits_int}
use kagu_os.Cpu.Strings.{
  join, replace_column_text, split, set_column, get_column_text, text_or_empty, at_column,
}
use kagu_os.Cpu.Arithmetic.{
  add_text, div_text, mod_text, value, sub_text, is_num, mul_text, is_float,
}
use kagu_os.Cpu.Tests.{no_floats}

binary_arithmetic_example :
    (add_text no_floats (to_string (pos 40)) (to_string (pos 2)) ≡ printed (int_result (pos 42)))
    × (sub_text no_floats (to_string (pos 40)) (to_string (pos 2)) ≡ printed (int_result (pos 38)))
    × (mul_text no_floats (to_string (pos 40)) (to_string (pos 2)) ≡ printed (int_result (pos 80)))
unfolding ◌+ℤ◌ ◌-ℤ◌ ◌*ℤ◌
binary_arithmetic_example =
    binary_arithmetic no_floats (pos 40) (pos 2) (unfold fits_int in refl) (unfold fits_int in refl)

division_example :
    (div_text no_floats (to_string (negsuc 6)) (to_string (pos 2))
      ≡ ok (value (to_string (negsuc 2))))
    × (mod_text (to_string (negsuc 6)) (to_string (pos 2)) ≡ ok (value (to_string (negsuc 0))))
unfolding div_ℤ mod_ℤ
division_example =
    division no_floats (negsuc 6) (pos 2) (unfold fits_int in refl) (unfold fits_int in refl)
      (λ e. cc) (unfold fits_int in refl)

unguarded_division_example :
    (mod_text (codes "7") (codes "00") ≡ fail undefined)
    × ((is_float (codes "7") ≡ true)
        ⊎ (is_float (codes "00") ≡ true)
        ⊎ (div_text no_floats (codes "7") (codes "00") ≡ fail undefined))
unguarded_division_example =
    unguarded_division no_floats (codes "7") (codes "00") (pos 7) (unfold stoi in refl)
      (unfold stoi in refl) (unfold beq in refl)

is_num-stoi_example : stoi (codes "-12") ≢ fail invalid_argument
is_num-stoi_example = is_num-stoi (codes "-12") (unfold is_num in refl) (unfold is_float in refl)

split-replace_column_example :
    split (codes ":") [] (replace_column_text (codes "a::b") (pos 2) (codes ":") (codes "x"))
    ≡ set_column (pos 2) (codes "x") (split (codes ":") [] (codes "a::b"))
split-replace_column_example =
    split-replace_column b':' (codes "a::b") (codes "x") (pos 2) (λ e. omega (arith, e), tt)

get_column-split_example :
    get_column_text (codes "a::b") (pos 2) (codes ":")
    ≡ text_or_empty (at_column (pos 2) (drop_empty (split (codes ":") [] (codes "a::b"))))
get_column-split_example = get_column-split (codes "a::b") (codes ":") (pos 2) refl

join-split_example : join (codes ":") (split (codes ":") [] (codes "a::b")) ≡ codes "a::b"
join-split_example = join-split b':' (codes "a::b")
