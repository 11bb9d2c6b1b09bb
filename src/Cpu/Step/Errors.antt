-- ===== src/Cpu/Step/Errors.antt =====
-- What becomes of the two exceptions of the emulator.
use kagu_os.Prelude.{◌≡◌, refl, ap, Bool, true, false, ◌++◌, arith, if◌then◌else◌, ℤ}
use kagu_os.Std.Fault.{fail, ram_violation, cpu_exception}
use kagu_os.Std.Text.{Bytes, codes}
use kagu_os.Kagu.Opcodes.{is_privileged}
use kagu_os.Cpu.Float.{FloatOps}
use kagu_os.Cpu.Machine.{dump, Machine}
use kagu_os.Cpu.Machine.Runs.{Runs}
use kagu_os.Cpu.Step.{
  fatal, recover, execute_code, privileged_operation, Bytes, is_privileged, fail, ram_violation,
  cpu_exception, codes, handle_memory_error, handle_cpu_error,
}

taken {ℓ} : {A : Type ℓ} {b : Bool} {x : A} (y : A) → b ≡ true → (if b then x else y) ≡ x
taken {x} y h = ap (λ c. if c then x else y) h

-- In user mode a privileged operation, which is one whose number `isPrivileged` answers, is refused
-- before it reads an operand, costs energy or changes anything.
pub privileged_refused :
    (float : FloatOps) (code : ℤ) (m : Machine)
    → m.ram.kernel_mode ≡ false
    → is_privileged code ≡ true
    → execute_code float code m ≡ (fail (privileged_operation code), m)
unfolding execute_code
privileged_refused float code m user h = ground arith

-- In kernel mode both exceptions of the emulator stop the processor and leave the memory as it was.
kernel_error_stops :
    (float : FloatOps) (m : Machine) (what : Bytes) (addr : ℤ)
    → m.ram.kernel_mode ≡ true
    → ((n : Machine) × Runs (λ m'. recover float (fail (ram_violation what addr), m')) m tt n
        × (n.running ≡ false)
        × (n.ram ≡ m.ram))
      × ((n : Machine) × Runs (λ m'. recover float (fail (cpu_exception what), m')) m tt n
          × (n.running ≡ false)
          × (n.ram ≡ m.ram))
unfolding recover handle_memory_error handle_cpu_error fatal dump
kernel_error_stops float m what addr k = (
  ((fatal float (codes "[FATAL] Kernel mode memory error: " ++ what) m).1, taken (_) k, refl, refl),
  ((fatal float (codes "[FATAL] Kernel mode CPU error: " ++ what) m).1, taken (_) k, refl, refl),
)
