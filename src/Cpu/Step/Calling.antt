-- ===== src/Cpu/Step/Calling.antt =====
-- A system call that a process makes through `executeCpuExec` of cpu.cpp.
use kagu_os.Prelude.{
  ℕ, suc, ◌+◌, ◌^◌, ◌≤◌, ◌<◌, ◌≡◌, refl, ap, ◌∙◌, ◌≢◌, Bool, true, false, ◌&&◌, not, [], arith,
  update_ne, if◌then◌else◌, pos,
}
use kagu_os.Cpu.System.Calls.{entered, Runs-exec_sys_call}
use kagu_os.Std.Number.RoundTrip.{is_empty-to_string, stoi-to_string}
use kagu_os.Std.Fault.{Fault, Result, ok}
use kagu_os.Kagu.Opcodes.{operation_of, get_operation_cost, is_privileged}
use kagu_os.Interrupt.{handler_address}
use kagu_os.Cpu.System.{exec_sys_call}
use kagu_os.Cpu.Step.{
  privileged_operation, execute_code, operation_of, get_operation_cost, ok, is_privileged, reg_res,
  reg_a, reg_b, reg_c, reg_d,
}
use kagu_os.Std.Number.{to_string, stoi, fits_int}
use kagu_os.Cpu.Float.{FloatOps}
use kagu_os.Cpu.Execute.{execute_operation, add_energy}
use kagu_os.Std.Text.{Bytes}
use kagu_os.Kagu.Registers.{
  Address, address, user_space_end, reg_error, sys_energy, program_counter, sys_call_handler,
  reg_res, reg_a, reg_b, reg_c, reg_d,
}
use kagu_os.Ram.{Ram, store, read_register, write_register, get_process_start, get_process_end}
use kagu_os.Ram.Locate.{IsProcess, int_add_pos}
use kagu_os.Cpu.Machine.{raise, pure, ◌>>=◌, ◌>>◌, Machine, read_reg, write_reg, should_debug_print}
use kagu_os.Cpu.Machine.Runs.{Runs, with_ram, Runs-read_direct, Runs-write_direct, Runs-bind}

-- A cell that holds no bound of the process may change.
store-IsProcess :
    (i start end : ℕ) (v : Bytes) (ram : Ram)
    → i ≢ 21
    → i ≢ 22
    → IsProcess start end ram
    → IsProcess start end (store i v ram)
unfolding get_process_start get_process_end
store-IsProcess i start end v ram a b p = record {
  user = p.user;
  start_is = cc (p.start_is, update_ne ram.cells i 21 v a);
  end_is = cc (p.end_is, update_ne ram.cells i 22 v b);
  above = p.above;
  ordered = p.ordered;
  inside = p.inside;
  small = p.small;
}

module _ (r : Address) (own : address r ≤ user_space_end) (m : Machine) where
  pub Runs-read_reg : Runs (read_reg r) m (m.ram.cells (address r)) m
  unfolding read_register
  Runs-read_reg = ground (arith, own)

  pub Runs-write_reg :
      (v : Bytes) → Runs (write_reg r v) m tt (with_ram m (store (address r) v m.ram))
  unfolding write_register
  Runs-write_reg v = ground (arith, own)

abbrev pub Action : Type 0
Action = Machine → Result (Unit {0}) × Machine

pub Runs-then :
    (p q : Action) (m m' m'' : Machine) → Runs p m tt m' → Runs q m' tt m'' → Runs (p >> q) m tt m''
Runs-then p q m m' m'' h k = Runs-bind p (λ _. q) tt tt m m' m'' h k

pub Runs-reads :
    (r : Address) (own : address r ≤ user_space_end) (f : Bytes → Action) (m m' : Machine)
    → Runs (f (m.ram.cells (address r))) m tt m'
    → Runs (read_reg r >>= f) m tt m'
Runs-reads r own f m m' h =
    Runs-bind (read_reg r) f (m.ram.cells (address r)) tt m m m' (Runs-read_reg r own m) h

abbrev guarded : Bool → Fault → Action
guarded b e = if b then raise e else pure tt

Runs-guard : (b : Bool) (e : Fault) (m : Machine) → b ≡ false → Runs (guarded b e) m tt m
Runs-guard true e m h = cc
Runs-guard false e m h = refl

-- A machine without debug output that runs a process, whose program counter, system call handler and
-- energy are numbers.
pub record IsCaller (start end pc h energy : ℕ) (m : Machine) : Type 0 where
  pub process : IsProcess start end m.ram
  pub quiet : should_debug_print m ≡ false
  pub counter : stoi (m.ram.cells (address program_counter)) ≡ ok (pos pc)
  pub handler : handler_address (m.ram.cells (address sys_call_handler)) ≡ ok (pos (suc h))
  pub small : h < 2 ^ 31
  pub used : m.ram.cells (address sys_energy) ≡ to_string (pos energy)
  pub cheap : energy + 5 < 2 ^ 31

-- The memory when the operation of the system call runs.
abbrev pub charged : ℕ → Ram → Ram
charged energy ram =
    store (address reg_error) [] (store (address sys_energy) (to_string (pos (energy + 5))) ram)

module _ (start end pc h energy : ℕ) where
  -- A register of the process may change.
  pub store-IsCaller :
      (i : ℕ) (v : Bytes) (m : Machine)
      → i ≤ user_space_end
      → IsCaller start end pc h energy m
      → IsCaller start end pc h energy (with_ram m (store i v m.ram))
  unfolding should_debug_print
  store-IsCaller i v m own c = record {
    process =
        store-IsProcess i start end v m.ram (λ e. absurd (omega (arith, own, e)))
          (λ e. absurd (omega (arith, own, e))) c.process;
    quiet = c.quiet;
    counter =
        ap stoi (update_ne m.ram.cells i 16 v (λ e. absurd (omega (arith, own, e)))) ∙ c.counter;
    handler =
        ap handler_address (update_ne m.ram.cells i 23 v (λ e. absurd (omega (arith, own, e))))
        ∙ c.handler;
    small = c.small;
    used = update_ne m.ram.cells i 17 v (λ e. absurd (omega (arith, own, e))) ∙ c.used;
    cheap = c.cheap;
  }

  Runs-add_energy :
      (m : Machine)
      → IsCaller start end pc h energy m
      → Runs
          (add_energy 5)
          m
          tt
          (with_ram m (store (address sys_energy) (to_string (pos (energy + 5))) m.ram))
  unfolding add_energy
  Runs-add_energy m c =
      let large : address sys_energy ≤ m.ram.size =
        omega (arith, c.process.above, c.process.ordered, c.process.inside) in
      rw
        (
          Runs-read_direct sys_energy m large,
          c.used,
          is_empty-to_string (pos energy),
          stoi-to_string (pos energy) (unfold fits_int in ground (arith, c.cheap)),
          int_add_pos energy 5 c.cheap,
        )
        (Runs-write_direct sys_energy m large (to_string (pos (energy + 5))))

  charged-IsProcess :
      (m : Machine) → IsCaller start end pc h energy m → IsProcess start end (charged energy m.ram)
  charged-IsProcess m c =
      store-IsProcess 10 start end [] _ (λ e. absurd (omega (arith, e)))
        (λ e. absurd (omega (arith, e)))
        (store-IsProcess 17 start end (to_string (pos (energy + 5))) m.ram
          (λ e. absurd (omega (arith, e))) (λ e. absurd (omega (arith, e))) c.process)

  called :
      (m : Machine)
      → IsCaller start end pc h energy m
      → Runs exec_sys_call
          (with_ram m (charged energy m.ram))
          tt
          (with_ram m (entered start pc h (charged energy m.ram)))
  unfolding should_debug_print
  called m c =
      Runs-exec_sys_call (with_ram m (charged energy m.ram)) start end pc h (charged-IsProcess m c)
        c.quiet c.counter c.handler c.small

  module _ (float : FloatOps) where
    pub Runs-call :
        (m : Machine)
        → IsCaller start end pc h energy m
        → Runs
            (execute_code float (pos 25))
            m
            tt
            (with_ram m (entered start pc h (charged energy m.ram)))
    unfolding execute_code operation_of get_operation_cost is_privileged execute_operation
    Runs-call m c =
        let m1 = with_ram m (store (address sys_energy) (to_string (pos (energy + 5))) m.ram) in
        let m2 = with_ram m (charged energy m.ram) in
        let done = with_ram m (entered start pc h (charged energy m.ram)) in
        let load3 : Bytes → Action = λ c. read_reg reg_d >>= λ d. exec_sys_call in
        let load2 : Bytes → Action = λ b. read_reg reg_c >>= load3 in
        let load1 : Bytes → Action = λ a. read_reg reg_b >>= load2 in
        let load : Action = read_reg reg_a >>= load1 in
        let clear : Action = write_reg reg_error [] >> load in
        let save : Action = read_reg reg_res >>= λ res. read_reg reg_error >>= λ err. clear in
        let guard : Action = λ m.
          (if not m.ram.kernel_mode && is_privileged (pos 25)
              then raise (privileged_operation (pos 25))
              else pure tt)
            m in
        Runs-then guard (add_energy 5 >> save) m m done
          (Runs-guard (not m.ram.kernel_mode && is_privileged (pos 25))
            (privileged_operation (pos 25)) m (ground arith))
          (Runs-then (add_energy 5) save m m1 done (Runs-add_energy m c) (
            Runs-reads reg_res (omega arith) (λ res. read_reg reg_error >>= λ err. clear) m1 done
              (Runs-reads reg_error (omega arith) (λ err. clear) m1 done
                (Runs-then (write_reg reg_error []) load m1 m2 done
                  (Runs-write_reg reg_error (omega arith) m1 [])
                  (Runs-reads reg_a (omega arith) load1 m2 done (
                    Runs-reads reg_b (omega arith) load2 m2 done (
                      Runs-reads reg_c (omega arith) load3 m2 done (
                        Runs-reads reg_d (omega arith) (λ d. exec_sys_call) m2 done
                          (called m c)))))))))
