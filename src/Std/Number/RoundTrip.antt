-- ===== src/Std/Number/RoundTrip.antt =====
-- Reading back what `std::to_string` prints.
use kagu_os.Prelude.{
  ℕ, zero, suc, ◌+◌, ◌/◌, ◌%◌, ◌<◌, ◌≡◌, refl, ◌∙◌, Bool, true, false, some, [], ◌∷◌, ◌++◌,
  append-nil, arith, if◌then◌else◌, ℤ, sub_ℕ, pos, negsuc,
}
use kagu_os.Std.Text.{Bytes, is_empty}
use kagu_os.Std.Fault.{ok}
use kagu_os.Std.Number.{
  fits_int, decimal_loop, decimal, to_string, digits_value, drop_digits, starts_with_digit,
  read_digits, read_sign, read_int, stoi_of, stoi,
}

decimal_loop-value :
    (f n : ℕ) (out : Bytes) → n < f → digits_value 0 (decimal_loop f n out) ≡ digits_value n out
unfolding decimal_loop digits_value
decimal_loop-value zero n out h = elim h [ ]
decimal_loop-value (suc f) n out h =
    ground (arith, decimal_loop-value f (n / 10) ((48 + n % 10) ∷ out))

decimal_loop-rest : (f n : ℕ) (out : Bytes) → drop_digits (decimal_loop f n out) ≡ drop_digits out
unfolding decimal_loop drop_digits
decimal_loop-rest zero n out = refl
decimal_loop-rest (suc f) n out = ground (arith, decimal_loop-rest f (n / 10) ((48 + n % 10) ∷ out))

decimal_loop-append :
    (f n : ℕ) (out rest : Bytes) → decimal_loop f n out ++ rest ≡ decimal_loop f n (out ++ rest)
unfolding decimal_loop
decimal_loop-append zero n out rest = refl
decimal_loop-append (suc f) n out rest =
    ground (arith, decimal_loop-append f (n / 10) ((48 + n % 10) ∷ out) rest)

decimal_loop-digit :
    (f n : ℕ) (out : Bytes) → n < f → starts_with_digit (decimal_loop f n out) ≡ true
unfolding decimal_loop
decimal_loop-digit zero n out h = elim h [ ]
decimal_loop-digit (suc f) n out h =
    ground (arith, decimal_loop-digit f (n / 10) ((48 + n % 10) ∷ out))

-- The text behind a number must not go on with a digit.
digits_value-rest :
    (n : ℕ) (rest : Bytes) → starts_with_digit rest ≡ false → digits_value n rest ≡ n
unfolding digits_value
digits_value-rest n [] h = refl
digits_value-rest n (c ∷ rest) h = ground arith

drop_digits-rest : (rest : Bytes) → starts_with_digit rest ≡ false → drop_digits rest ≡ rest
unfolding drop_digits
drop_digits-rest [] h = refl
drop_digits-rest (c ∷ rest) h = ground arith

module _ (n : ℕ) (rest : Bytes) where
  decimal-append : decimal n ++ rest ≡ decimal_loop (suc n) n rest
  unfolding decimal
  decimal-append = decimal_loop-append (suc n) n [] rest

  read_digits-decimal :
      (neg : Bool)
      → starts_with_digit rest ≡ false
      → read_digits neg (decimal n ++ rest) ≡ some (if neg then sub_ℕ 0 n else pos n, rest)
  unfolding read_digits
  read_digits-decimal neg h = rw (
    decimal-append,
    decimal_loop-digit (suc n) n rest (omega arith),
    decimal_loop-value (suc n) n rest (omega arith),
    decimal_loop-rest (suc n) n rest,
    digits_value-rest n rest h,
    drop_digits-rest rest h,
  )

-- A text that begins with a digit has no white space and no sign in front of its digits.
read_int-digit : (s : Bytes) → starts_with_digit s ≡ true → read_int s ≡ read_digits false s
unfolding read_int read_sign
read_int-digit [] h = cc
read_int-digit (c ∷ s) h = ground arith

read_int-minus : (s : Bytes) → read_int (b'-' ∷ s) ≡ read_digits true s
unfolding read_int read_sign
read_int-minus s = refl

-- An extraction reads back a printed number, and stops behind it.
pub read_int-to_string :
    (z : ℤ) (rest : Bytes)
    → starts_with_digit rest ≡ false
    → read_int (to_string z ++ rest) ≡ some (z, rest)
unfolding to_string
read_int-to_string (pos n) rest h =
    rw
      (read_int-digit (decimal n ++ rest)
        (rw (decimal-append n rest) (decimal_loop-digit (suc n) n rest (omega arith))))
      (read_digits-decimal n rest false h)
read_int-to_string (negsuc n) rest h =
    rw (read_int-minus (decimal (suc n) ++ rest))
      (read_digits-decimal (suc n) rest true h ∙ (ground arith))

pub stoi-to_string_rest :
    (z : ℤ) (rest : Bytes)
    → fits_int z ≡ true
    → starts_with_digit rest ≡ false
    → stoi (to_string z ++ rest) ≡ ok z
unfolding stoi
stoi-to_string_rest z rest f h = rw (read_int-to_string z rest h, f)

-- `stoi` reads back every `int` that `to_string` prints.
pub stoi-to_string : (z : ℤ) → fits_int z ≡ true → stoi (to_string z) ≡ ok z
stoi-to_string z f = rw (← append-nil (to_string z)) (stoi-to_string_rest z [] f refl)

-- A value that `stoi` returns fits an `int`.
pub stoi_fits : (s : Bytes) (z : ℤ) → stoi s ≡ ok z → fits_int z ≡ true
unfolding stoi stoi_of
stoi_fits s z h = ground arith

-- A printed number that is not negative begins with a digit.
pub to_string-digit : (n : ℕ) → starts_with_digit (to_string (pos n)) ≡ true
unfolding to_string decimal
to_string-digit n = decimal_loop-digit (suc n) n [] (omega arith)

digit-is_empty : (s : Bytes) → starts_with_digit s ≡ true → is_empty s ≡ false
digit-is_empty [] h = cc
digit-is_empty (c ∷ s) h = refl

pub is_empty-decimal : (n : ℕ) → is_empty (decimal n) ≡ false
unfolding decimal
is_empty-decimal n =
    digit-is_empty (decimal_loop (suc n) n []) (decimal_loop-digit (suc n) n [] (omega arith))

pub is_empty-to_string : (z : ℤ) → is_empty (to_string z) ≡ false
unfolding to_string
is_empty-to_string (pos n) = is_empty-decimal n
is_empty-to_string (negsuc n) = refl
