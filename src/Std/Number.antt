-- ===== src/Std/Number.antt =====
-- `int`, `std::to_string(int)` and `std::stoi`.
pub mod RoundTrip
use kagu_os.Prelude.{
  ℕ, zero, suc, ◌+◌, ◌-◌, ◌*◌, ◌/◌, ◌%◌, ◌^◌, ◌≡◌, refl, Bool, true, false, Option, none, some, [],
  ◌∷◌, ltb, ◌==◌, if◌then◌else◌, ℤ, sub_ℕ, ◌+ℤ◌, ◌-ℤ◌, ◌*ℤ◌, eqb_ℤ, div_ℤ, mod_ℤ, pos, negsuc,
}
use kagu_os.Std.Text.{Bytes, codes, is_space, is_digit}
use kagu_os.Std.Fault.{Result, ok, fail, invalid_argument, out_of_range, undefined}

-- Whether a value fits an `int` of 32 bits.
unfoldable pub fits_int : ℤ → Bool
fits_int (pos n) = ltb n (2 ^ 31)
fits_int (negsuc n) = ltb n (2 ^ 31)

-- The result of `int` arithmetic: overflow is undefined.
unfoldable pub int_result : ℤ → Result ℤ
int_result z = if fits_int z then ok z else fail undefined

unfoldable pub int_add : ℤ → ℤ → Result ℤ
unfolding int_result
int_add a b = int_result (a +ℤ b)

unfoldable pub int_sub : ℤ → ℤ → Result ℤ
unfolding int_result
int_sub a b = int_result (a -ℤ b)

unfoldable pub int_mul : ℤ → ℤ → Result ℤ
unfolding int_result
int_mul a b = int_result (a *ℤ b)

-- A zero divisor is undefined, and so is a quotient that does not fit.
unfoldable pub int_div : ℤ → ℤ → Result ℤ
unfolding int_result
int_div a b = if eqb_ℤ b (pos 0) then fail undefined else int_result (div_ℤ a b)

unfoldable pub int_mod : ℤ → ℤ → Result ℤ
unfolding int_result
int_mod a b =
    if eqb_ℤ b (pos 0)
    then fail undefined
    else if fits_int (div_ℤ a b)
    then ok (mod_ℤ a b)
    else fail undefined

-- The decimal digits of `n` in front of `out`. `n + 1` rounds are enough: each divides by ten.
unfoldable pub decimal_loop : ℕ → ℕ → Bytes → Bytes
decimal_loop zero n out = out
decimal_loop (suc f) n out =
    let rest = decimal_loop f (n / 10) ((48 + n % 10) ∷ out) in
    if ltb n 10 then (48 + n) ∷ out else rest

unfoldable pub decimal : ℕ → Bytes
unfolding decimal_loop
decimal n = decimal_loop (suc n) n []

unfoldable pub to_string : ℤ → Bytes
unfolding decimal
to_string (pos n) = decimal n
to_string (negsuc n) = b'-' ∷ decimal (suc n)

-- The value of the digits at the head of a text, behind the value `acc`.
unfoldable pub digits_value : ℕ → Bytes → ℕ
digits_value acc [] = acc
digits_value acc (c ∷ s) =
    let rest = digits_value (acc * 10 + (c - 48)) s in if is_digit c then rest else acc

unfoldable pub drop_digits : Bytes → Bytes
drop_digits [] = []
drop_digits (c ∷ s) = if is_digit c then drop_digits s else c ∷ s

unfoldable pub drop_space : Bytes → Bytes
drop_space [] = []
drop_space (c ∷ s) = if is_space c then drop_space s else c ∷ s

abbrev pub starts_with_digit : Bytes → Bool
starts_with_digit [] = false
starts_with_digit (c ∷ s) = is_digit c

-- One or more digits: the value under the sign, and the text behind it.
unfoldable pub read_digits : Bool → Bytes → Option (ℤ × Bytes)
unfolding digits_value drop_digits
read_digits neg s =
    if starts_with_digit s
    then some (if neg then sub_ℕ 0 (digits_value 0 s) else pos (digits_value 0 s), drop_digits s)
    else none

unfoldable pub read_sign : Bytes → Option (ℤ × Bytes)
unfolding read_digits
read_sign [] = none
read_sign (c ∷ s) =
    if c == b'-'
    then read_digits true s
    else if c == b'+'
    then read_digits false s
    else read_digits false (c ∷ s)

-- White space, an optional sign and digits in base ten: what `stoi` and `>>` read of an `int`.
unfoldable pub read_int : Bytes → Option (ℤ × Bytes)
unfolding drop_space read_sign
read_int s = read_sign (drop_space s)

unfoldable pub stoi_of : Option (ℤ × Bytes) → Result ℤ
unfolding fits_int
stoi_of none = fail invalid_argument
stoi_of (some (z, rest)) = if fits_int z then ok z else fail out_of_range

unfoldable pub stoi : Bytes → Result ℤ
unfolding stoi_of read_int
stoi s = stoi_of (read_int s)

stoi_int_min : stoi (codes "-2147483648") ≡ ok (negsuc 2147483647)
unfolding stoi
stoi_int_min = refl

stoi_trailing : stoi (codes " +12 # jump") ≡ ok (pos 12)
unfolding stoi
stoi_trailing = refl

stoi_failures :
    (stoi (codes "2147483648") ≡ fail out_of_range) × (stoi (codes "x1") ≡ fail invalid_argument)
unfolding stoi
stoi_failures = (refl, refl)

to_string_min : to_string (negsuc 2147483647) ≡ codes "-2147483648"
unfolding to_string
to_string_min = refl
