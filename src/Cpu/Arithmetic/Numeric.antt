-- ===== src/Cpu/Arithmetic/Numeric.antt =====
-- Division against multiplication, and the type check of a text against its reading.
use kagu_os.Prelude.{
  zero, suc, ◌+◌, ◌<◌, ◌≡◌, refl, ◌≢◌, true, false, [], ◌∷◌, arith, ℤ, pos_part, neg_part, ◌+ℤ◌,
  ◌*ℤ◌, div_ℤ, mod_ℤ, pos, negsuc,
}
use kagu_os.Std.Text.{Bytes, contains_char}
use kagu_os.Std.Fault.{fail, invalid_argument}
use kagu_os.Std.Number.{stoi, stoi_of, read_int, read_sign, drop_digits, starts_with_digit}
use kagu_os.Cpu.Arithmetic.{is_float, is_num, unsigned_number}

-- Quotient and remainder make up the dividend, and the remainder is smaller than the divisor and
-- has the dividend's sign.
pub division_algorithm :
    (x y : ℤ)
    → y ≢ pos 0
    → (y *ℤ div_ℤ x y +ℤ mod_ℤ x y ≡ x)
      × (pos_part (mod_ℤ x y) + neg_part (mod_ℤ x y) < pos_part y + neg_part y)
unfolding div_ℤ mod_ℤ ◌*ℤ◌ ◌+ℤ◌
division_algorithm x (pos zero) ne = absurd (ne refl)
division_algorithm (pos a) (pos (suc b)) ne = (grind arith, grind arith)
division_algorithm (pos a) (negsuc b) ne = (grind arith, grind arith)
division_algorithm (negsuc a) (pos (suc b)) ne = (grind arith, grind arith)
division_algorithm (negsuc a) (negsuc b) ne = (grind arith, grind arith)

-- Behind the digits of a text with no point there is nothing, if the type check accepts it.
unsigned-starts :
    (s : Bytes)
    → contains_char b'.' s ≡ false
    → unsigned_number s (drop_digits s) ≡ true
    → starts_with_digit s ≡ true
unfolding unsigned_number drop_digits contains_char
unsigned-starts [] np h = cc
unsigned-starts (c ∷ s) np h = ground arith

-- A text that IsNum accepts, by the expression in the code, and that has no point is read as an
-- integer: the operations on integers do not refuse it as no number, though it may be too large.
pub is_num-stoi :
    (s : Bytes) → is_num s ≡ true → is_float s ≡ false → stoi s ≢ fail invalid_argument
unfolding is_num is_float stoi stoi_of read_int read_sign contains_char
is_num-stoi [] h f = cc
is_num-stoi (c ∷ s) h f = ground arith
