-- ===== src/Cpu/Step/Unprivileged.antt =====
-- The operations that user mode may run in `executeCpuExec` of cpu.cpp, apart from the system call.
use kagu_os.Cpu.Execute.{execute_operation, add_energy}
use kagu_os.Prelude.{
  ℕ, zero, suc, ◌<◌, ◌≡◌, refl, sym, ap, ◌∙◌, ◌≢◌, inl, inr, Bool, true, false, ◌&&◌, not, some,
  List, [], ◌∷◌, arith, ltb, if◌then◌else◌, Bool-cases, take, get_elem?, ℤ, pos, negsuc,
}
use kagu_os.Std.Text.{Bytes}
use kagu_os.Std.Fault.{Result, Fault, Result}
use kagu_os.Kagu.Registers.{Address, reg_a, reg_b, reg_c, reg_d, reg_res, reg_error}
use kagu_os.Kagu.Opcodes.{operation_of, is_privileged, get_operation_cost, Operation, operations}
use kagu_os.Cpu.Float.{FloatOps}
use kagu_os.Cpu.Machine.{Machine, ◌>>=◌, ◌>>◌, read_reg, pure, raise, write_reg}
use kagu_os.Cpu.Execute.Confined.{
  Differs, Confined, Differs-refl, bind-Confined, add_energy-Confined, put_error-Confined,
  execute_operation-Confined, is_plain, Differs,
}
use kagu_os.Cpu.Step.{execute_code, privileged_operation, Result, execute_operation}
use kagu_os.Kagu.Opcodes

abbrev Action : Type 0
Action = Machine → Result (Unit {0}) × Machine

reads-Confined :
    (r q : Address) (f : Bytes → Bytes → Action)
    → ((v w : Bytes) → Confined (f v w))
    → Confined (read_reg r >>= λ v. read_reg q >>= f v)
reads-Confined r q f k =
    bind-Confined (read_reg r) (λ v. read_reg q >>= f v) Differs-refl
      (λ v. bind-Confined (read_reg q) (f v) Differs-refl (k v))

then-Confined : (p q : Action) → Confined p → Confined q → Confined (p >> q)
then-Confined p q h k = bind-Confined p (λ _. q) h (λ _. k)

guard-Confined : (b : Bool) (e : Fault) → Confined (if b then raise {A = Unit {0}} e else pure tt)
guard-Confined true e m = Differs-refl m
guard-Confined false e m = Differs-refl m

abbrev all_plain : List Operation → Bool
all_plain [] = true
all_plain (op ∷ ops) = is_plain (some op) && all_plain ops

plain_at : (ops : List Operation) (n : ℕ) → all_plain ops ≡ true → is_plain (get_elem? ops n) ≡ true
plain_at [] n h = unfold is_plain in refl
plain_at (op ∷ ops) zero h = ground (arith, h)
plain_at (op ∷ ops) (suc n) h = plain_at ops n (ground (arith, h))

take_get : (ops : List Operation) (k n : ℕ) → n < k → get_elem? (take k ops) n ≡ get_elem? ops n
take_get [] zero n h = refl
take_get [] (suc k) n h = refl
take_get (op ∷ ops) zero n h = absurd (omega (arith, h))
take_get (op ∷ ops) (suc k) zero h = refl
take_get (op ∷ ops) (suc k) (suc n) h = take_get ops k n (omega (arith, h))

plain_small : (n : ℕ) → n < 18 → is_plain (operation_of (pos n)) ≡ true
unfolding operation_of is_plain
plain_small n h =
    ap is_plain (sym (take_get operations 18 n h)) ∙ plain_at (take 18 operations) n refl

plain_code :
    (code : ℤ)
    → is_privileged code ≡ false
    → operation_of code ≢ some Opcodes.sys_call
    → is_plain (operation_of code) ≡ true
plain_code (negsuc n) h ne = unfold operation_of is_plain in refl
plain_code (pos n) h ne = elim (Bool-cases (ltb n 18)) [
  | inl e ↦ plain_small n (ground (arith, e))
  | inr e ↦
      absurd (ne (ap (λ k. operation_of (pos k)) (only_call n h e) ∙ (unfold operation_of in refl)))
]
  where
    only_call : (n : ℕ) → is_privileged (pos n) ≡ false → ltb n 18 ≡ false → n ≡ 25
    only_call n h e = unfold is_privileged in ground (arith, h, e)

module _ (float : FloatOps) where
  -- The operation with its operands.
  abbrev loaded : ℤ → Bytes → Bytes → Action
  loaded code res err = read_reg reg_a >>= λ a. read_reg reg_b >>= λ b. read_reg reg_c >>= λ c.
      read_reg reg_d >>= λ d.
      execute_operation float code (operation_of code)
        (record { a = a; b = b; c = c; d = d; saved_res = res; saved_err = err })

  loaded-Confined :
      (code : ℤ) (res err : Bytes)
      → is_plain (operation_of code) ≡ true
      → Confined (loaded code res err)
  loaded-Confined code res err h =
      let op : Bytes → Bytes → Bytes → Bytes → Action = λ a b c d.
        execute_operation float code (operation_of code)
          (record { a = a; b = b; c = c; d = d; saved_res = res; saved_err = err }) in
      reads-Confined reg_a reg_b (λ a b. read_reg reg_c >>= λ c. read_reg reg_d >>= op a b c)
        (λ a b.
          reads-Confined reg_c reg_d (op a b)
            (λ c d. execute_operation-Confined float code (operation_of code) _ h))

  -- The operations that are neither privileged nor the system call change three registers, those of
  -- the result, the truth value and the error, and the energy, and nothing else of the machine, also
  -- where they throw.
  pub unprivileged_confined :
      (code : ℤ) (m : Machine)
      → is_privileged code ≡ false
      → operation_of code ≢ some Opcodes.sys_call
      → Differs m (execute_code float code m).1
  unfolding execute_code
  unprivileged_confined code m h ne =
      let rest : Bytes → Bytes → Action =
        λ res err. write_reg reg_error [] >> loaded code res err in
      let reading : Action = read_reg reg_res >>= λ res. read_reg reg_error >>= rest res in
      let energy = add_energy (get_operation_cost (operation_of code)) in
      then-Confined
        (λ m.
          (if not m.ram.kernel_mode && is_privileged code
              then raise {A = Unit {0}} (privileged_operation code)
              else pure tt)
            m)
        (energy >> reading)
        (λ m.
          guard-Confined (not m.ram.kernel_mode && is_privileged code) (privileged_operation code)
            m)
        (then-Confined energy reading (add_energy-Confined (get_operation_cost (operation_of code)))
          (reads-Confined reg_res reg_error rest (λ res err.
            then-Confined (write_reg reg_error []) (loaded code res err) (put_error-Confined [])
              (loaded-Confined code res err (plain_code code h ne)))))
        m
