-- ===== src/Cpu/Arithmetic/Laws.antt =====
-- The operations on integers of cpu.cpp against the integers.
use kagu_os.Prelude.{
  ℕ, zero, suc, ◌+◌, ◌/◌, ◌%◌, ◌≡◌, refl, sym, ap, ◌∙◌, ◌≢◌, ◌⊎◌, inl, inr, Bool-cases, Bool, true,
  false, [], ◌∷◌, arith, ℤ, ◌+ℤ◌, ◌-ℤ◌, ◌*ℤ◌, ltb_ℤ, leb_ℤ, eqb_ℤ, div_ℤ, mod_ℤ, int_laws, pos,
  negsuc,
}
use mathlib.Core.Bool.{false≢true}
use kagu_os.Std.Text.{Bytes, codes, beq, contains_char, beq-ne}
use kagu_os.Std.Fault.{Result, ok, fail, undefined, ◌>>=◌}
use kagu_os.Std.Number.{
  fits_int, int_result, int_add, int_sub, int_mul, stoi, to_string, decimal_loop, int_div, int_mod,
}
use kagu_os.Std.Number.RoundTrip.{stoi-to_string}
use kagu_os.Cpu.Float.{FloatOps}
use kagu_os.Cpu.Arithmetic.{
  is_float, value, binary, compare_text, add_text, sub_text, mul_text, incr_text, decr_text,
  div_text, mod_text, cmp_lt_text, cmp_le_text, int_div, int_mod,
}

decimal_loop-no_point :
    (f n : ℕ) (out : Bytes) → contains_char b'.' (decimal_loop f n out) ≡ contains_char b'.' out
unfolding decimal_loop contains_char
decimal_loop-no_point zero n out = refl
decimal_loop-no_point (suc f) n out =
    ground (arith, decimal_loop-no_point f (n / 10) ((48 + n % 10) ∷ out))

-- A printed integer has no point.
pub is_float-to_string : (z : ℤ) → is_float (to_string z) ≡ false
unfolding is_float to_string contains_char
is_float-to_string (pos n) = decimal_loop-no_point (suc n) n []
is_float-to_string (negsuc n) = decimal_loop-no_point (suc (suc n)) (suc n) []

-- What an integer result becomes.
abbrev pub printed : Result ℤ → Result Bytes
printed r = r >>= λ z. ok (to_string z)

module _ (float : FloatOps) (x y : ℤ) (fx : fits_int x ≡ true) (fy : fits_int y ≡ true) where
  binary_ints :
      (on_floats : float.Double → float.Double → float.Double) (on_ints : ℤ → ℤ → Result ℤ)
      → binary float on_floats on_ints (to_string x) (to_string y) ≡ printed (on_ints x y)
  unfolding binary
  binary_ints on_floats on_ints =
      rw (is_float-to_string x, is_float-to_string y, stoi-to_string x fx, stoi-to_string y fy)

  compare_ints :
      (on_floats : float.Double → float.Double → Bool) (on_ints : ℤ → ℤ → Bool)
      → compare_text float on_floats on_ints (to_string x) (to_string y) ≡ ok (on_ints x y)
  unfolding compare_text
  compare_ints on_floats on_ints =
      rw (is_float-to_string x, is_float-to_string y, stoi-to_string x fx, stoi-to_string y fy)

  -- Add, Sub and Mul of two printed `int`s are the printed sum, difference and product where these
  -- fit an `int`, and undefined where they do not.
  pub binary_arithmetic :
      (add_text float (to_string x) (to_string y) ≡ printed (int_result (x +ℤ y)))
      × (sub_text float (to_string x) (to_string y) ≡ printed (int_result (x -ℤ y)))
      × (mul_text float (to_string x) (to_string y) ≡ printed (int_result (x *ℤ y)))
  unfolding add_text sub_text mul_text int_add int_sub int_mul
  binary_arithmetic =
      (binary_ints float.add int_add, binary_ints float.sub int_sub, binary_ints float.mul int_mul)

  -- CmpLt and CmpLe of two printed `int`s decide the order of the integers.
  comparisons :
      (cmp_lt_text float (to_string x) (to_string y) ≡ ok (ltb_ℤ x y))
      × (cmp_le_text float (to_string x) (to_string y) ≡ ok (leb_ℤ x y))
  unfolding cmp_lt_text cmp_le_text
  comparisons = (compare_ints float.less ltb_ℤ, compare_ints float.less_or_equal leb_ℤ)

-- Incr and Decr of a printed `int` are the printed successor and predecessor where these fit, and
-- Decr undoes Incr.
incr_decr :
    (float : FloatOps) (x : ℤ)
    → fits_int x ≡ true
    → fits_int (x +ℤ pos 1) ≡ true
    → (incr_text float (to_string x) ≡ ok (to_string (x +ℤ pos 1)))
      × (decr_text float (to_string (x +ℤ pos 1)) ≡ ok (to_string x))
unfolding incr_text decr_text int_add int_sub
incr_decr float x fx fy =
    let back : x +ℤ pos 1 -ℤ pos 1 ≡ x = omega int_laws in
    (
      rw (is_float-to_string x, stoi-to_string x fx, fy),
      rw (is_float-to_string (x +ℤ pos 1), stoi-to_string (x +ℤ pos 1) fy, back, fx),
    )

ok-injective : (x y : ℤ) → ◌≡◌ {A = Result ℤ} (ok x) (ok y) → x ≡ y
ok-injective x y e = cc

-- A text that is read as a nonzero number is not the text of zero.
to_string-ne-zero : (y : ℤ) → fits_int y ≡ true → y ≢ pos 0 → beq (to_string y) (codes "0") ≡ false
to_string-ne-zero y fy ne = beq-ne (to_string y) (codes "0") (λ e.
    ne (ok-injective y (pos 0) (sym (stoi-to_string y fy) ∙ ap stoi e ∙ (unfold stoi in refl))))

to_string-ne-zero_point : (y : ℤ) → beq (to_string y) (codes "0.0") ≡ false
to_string-ne-zero_point y =
    beq-ne (to_string y) (codes "0.0")
      (λ e. false≢true (sym (is_float-to_string y) ∙ ap is_float e ∙ (unfold is_float in refl)))

eqb-ne-zero : (y : ℤ) → y ≢ pos 0 → eqb_ℤ y (pos 0) ≡ false
eqb-ne-zero (pos zero) ne = absurd (ne refl)
eqb-ne-zero (pos (suc n)) ne = ground arith
eqb-ne-zero (negsuc n) ne = ground arith

-- Div and Mod of printed `int`s with a divisor other than 0 are the printed quotient and remainder
-- of the division that rounds towards zero, where the quotient fits.
pub division :
    (float : FloatOps) (x y : ℤ)
    → fits_int x ≡ true
    → fits_int y ≡ true
    → y ≢ pos 0
    → fits_int (div_ℤ x y) ≡ true
    → (div_text float (to_string x) (to_string y) ≡ ok (value (to_string (div_ℤ x y))))
      × (mod_text (to_string x) (to_string y) ≡ ok (value (to_string (mod_ℤ x y))))
unfolding div_text mod_text int_div int_mod
division float x y fx fy ne fits = (
  rw (
    to_string-ne-zero y fy ne,
    to_string-ne-zero_point y,
    binary_ints float x y fx fy float.div int_div,
    eqb-ne-zero y ne,
    fits,
  ),
  rw (to_string-ne-zero y fy ne, stoi-to_string x fx, stoi-to_string y fy, eqb-ne-zero y ne, fits),
)

no_point : (b : Bytes) → is_float b ≡ false → b ≢ codes "0.0"
no_point b fb e = false≢true (sym fb ∙ ap is_float e ∙ (unfold is_float in refl))

undefined_division :
    (float : FloatOps) (a b : Bytes) (x : ℤ)
    → stoi a ≡ ok x
    → stoi b ≡ ok (pos 0)
    → beq b (codes "0") ≡ false
    → is_float a ≡ false
    → is_float b ≡ false
    → div_text float a b ≡ fail undefined
unfolding div_text int_div
undefined_division float a b x ra rb spelled fa fb =
    let pointed = beq-ne b (codes "0.0") (no_point b fb) in rw (spelled, pointed, fa, fb, ra, rb)

-- A divisor that is read as 0 but is not spelled "0" passes the test of the code, and the division
-- is undefined: Mod by any such text, with a point or without one, and Div by it where neither
-- operand has a point. The dividend must be a number that fits.
pub unguarded_division :
    (float : FloatOps) (a b : Bytes) (x : ℤ)
    → stoi a ≡ ok x
    → stoi b ≡ ok (pos 0)
    → beq b (codes "0") ≡ false
    → (mod_text a b ≡ fail undefined)
      × ((is_float a ≡ true) ⊎ (is_float b ≡ true) ⊎ (div_text float a b ≡ fail undefined))
unfolding mod_text int_mod
unguarded_division float a b x ra rb spelled = (
  rw (spelled, ra, rb),
  elim (Bool-cases (is_float a)) [
    | inl fa ↦ inl fa
    | inr fa ↦ elim (Bool-cases (is_float b)) [
      | inl fb ↦ inr (inl fb)
      | inr fb ↦ inr (inr (undefined_division float a b x ra rb spelled fa fb))
    ]
  ],
)
