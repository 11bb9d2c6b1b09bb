-- ===== src/Cpu/Float.antt =====
-- The floating-point numbers of C++, of which the program uses the operations below and no law.
use kagu_os.Prelude.{Bool}
use kagu_os.Std.Text.{Bytes}
use kagu_os.Std.Fault.{Result}

pub record FloatOps : Type 1 where
  pub Double : Type 0
  pub stod : Bytes → Result Double
  pub one : Double
  pub add : Double → Double → Double
  pub sub : Double → Double → Double
  pub mul : Double → Double → Double
  pub div : Double → Double → Double
  pub less : Double → Double → Bool
  pub less_or_equal : Double → Double → Bool
  -- `std::fixed` with ten digits behind the point
  pub fixed : Double → Bytes
