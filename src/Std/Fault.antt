-- ===== src/Std/Fault.antt =====
-- What ends an operation early. The first two are the exceptions that the emulator declares, the
-- next three are `std::exception`s of the standard library; `undefined` stands for what C++ leaves
-- undefined, such as signed overflow or a subscript outside a vector.
use kagu_os.Prelude.{◌≡◌, refl, ℤ}
use kagu_os.Std.Text.{Bytes}

pub data Fault : Type 0 where
  ram_violation : Bytes → ℤ → Fault
  cpu_exception : Bytes → Fault
  invalid_argument : Fault
  out_of_range : Fault
  length_error : Fault
  undefined : Fault

-- A value, or the fault that took its place.
pub data Result {ℓ} (A : Type ℓ) : Type ℓ where
  fail : Fault → Result A
  ok : A → Result A

infixl 5 ◌>>=◌ ◌>>◌
-- What follows a part of a computation, unless the part has failed.
abbrev pub ◌>>=◌ {κ ℓ} : {X : Type κ} {Y : Type ℓ} → Result X → (X → Result Y) → Result Y
fail fault >>= next = fail fault
ok x >>= next = next x

-- The same, where the part has no value to pass on.
abbrev pub ◌>>◌ {κ} : {Y : Type κ} → Result (Unit {0}) → Result Y → Result Y
fail fault >> rest = fail fault
ok u >> rest = rest

module _ {ℓ κ} {X : Type ℓ} {Y : Type κ} (next : X → Result Y) where
  -- A computation that gave a value has a first part that gave one too.
  pub >>=-eq-ok :
      (part : Result X) {y : Y} → (part >>= next) ≡ ok y → (x : X) × (part ≡ ok x) × (next x ≡ ok y)
  >>=-eq-ok (fail fault) e = cc
  >>=-eq-ok (ok x) e = (x, refl, e)
