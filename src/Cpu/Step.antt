-- ===== src/Cpu/Step.antt =====
-- `executeCpuExec`, `executeInstruction`, the handlers of errors, `step` and the loop of
-- `resetVector` of cpu.cpp. The processor may run for ever, so the loop is given a number of steps.
-- The diagnosis that `step` prints before it passes an unexpected exception on is not modelled.
pub mod Errors
pub mod Fetch
pub mod Debugged
pub mod Unprivileged
pub mod Calling
pub mod Crash
use kagu_os.Prelude.{
  ℕ, zero, suc, Bool, true, false, ◌&&◌, ◌||◌, not, Option, none, some, [], ◌∷◌, ◌++◌, ◌==◌,
  if◌then◌else◌, ℤ, pos,
}
use kagu_os.Std.Text.{Bytes, codes, beq, is_empty, strip_prefix, is_some}
use kagu_os.Std.Fault.{Fault, Result, ok, fail, ram_violation, cpu_exception}
use kagu_os.Std.Number.{stoi, to_string}
use kagu_os.Std.Stream.{read_word, read_stream_int}
use kagu_os.Kagu.Registers.{
  reg_a, reg_b, reg_c, reg_d, reg_e, reg_op, reg_res, reg_error, reg_last_key,
}
use kagu_os.Kagu.Opcodes.{
  Instruction, operation_of, instruction_of, is_privileged, get_operation_cost,
}
use kagu_os.Cpu.Float.{FloatOps}
use kagu_os.Cpu.Machine.{
  Machine, Exec, ◌>>=◌, ◌>>◌, pure, raise, lift, gets, modify, of_ram, on_display, read_reg,
  write_reg, write_direct, get_program_counter, jump_next, jump, dump, should_debug_print,
}
use kagu_os.Cpu.Execute.{add_energy, execute_operation, stop}
use kagu_os.Cpu.System.{handle_timer_interrupt}
use kagu_os.Cpu.Control.{
  behind_blank, resolve_address, execute_copy, jump_if, jump_if_not, jump_err,
}
use kagu_os.Cpu.Debugger.{check_debugger}
use kagu_os.Kagu.Opcodes
use kagu_os.Ram
use kagu_os.Interrupt
use kagu_os.Display
use kagu_os.Keyboard

unfoldable pub privileged_operation : ℤ → Fault
privileged_operation code =
    cpu_exception (codes "User mode cannot execute privileged operation: " ++ to_string code)

abbrev start_debug : Bool → Machine → Machine
start_debug on m =
    if m.ram.kernel_mode then record m { debug_mode = on } else record m { debug_user_only = on }

-- `printDebugInfo`, on the error stream
unfoldable pub print_debug_info : Exec (Unit {0})
print_debug_info = do
  pc ← get_program_counter
  cmd ← of_ram (Ram.read pc)
  λ m. (
    ok tt,
    record m {
      display = record m.display {
        err =
            m.display.err
            ++ (27 ∷ (if m.ram.kernel_mode then codes "[34m[KERNEL]" else codes "[33m[USER]  "))
            ++ (27 ∷ codes "[0m Command ")
            ++ to_string pc
            ++ codes ": "
            ++ (27 ∷ codes "[35m")
            ++ cmd
            ++ (27 ∷ codes "[0m")
            ++ 10 ∷ [];
      };
    },
  )

-- A key that was pressed goes into its register.
unfoldable pub poll_keyboard : Exec (Unit {0})
poll_keyboard m =
    let (key, keyboard) = Keyboard.poll_key m.keyboard in
    let m' = record m { keyboard = keyboard } in
    if key == 0 then (ok tt, m') else write_direct reg_last_key (to_string (pos key)) m'

settle_timer : Machine → Result (Bool × Ram.Ram) → Result Bool × Machine
settle_timer m (ok (fired, ram)) = (ok fired, record m { ram = ram })
settle_timer m (fail e) = (fail e, m)

-- `!ram_.isKernelMode() && interrupts_.checkTimer()`
unfoldable pub check_timer : Exec Bool
unfolding settle_timer
check_timer m =
    if m.ram.kernel_mode then (ok false, m) else settle_timer m (Interrupt.check_timer m.ram)

module _ (float : FloatOps) where
  -- `executeCpuExec`: the guard of the mode, the energy, and the operands, before the operation.
  unfoldable pub execute_code : ℤ → Exec (Unit {0})
  unfolding privileged_operation
  execute_code code = do
    kernel ← gets (λ m. m.ram.kernel_mode)
    if not kernel && is_privileged code then raise (privileged_operation code) else pure tt
    add_energy (get_operation_cost (operation_of code))
    saved_res ← read_reg reg_res
    saved_err ← read_reg reg_error
    write_reg reg_error []
    a ← read_reg reg_a
    b ← read_reg reg_b
    c ← read_reg reg_c
    d ← read_reg reg_d
    execute_operation float code (operation_of code)
        (record { a = a; b = b; c = c; d = d; saved_res = saved_res; saved_err = saved_err })

  unfoldable pub execute_cpu_exec : Exec (Unit {0})
  unfolding execute_code
  execute_cpu_exec = do
    op ← read_reg reg_op
    if is_empty op then pure tt else (do code ← lift (stoi op); execute_code code)

  -- The switch of `executeInstruction`; `rest` is the stream behind the number.
  unfoldable pub dispatch : Option Instruction → Bytes → Bytes → Exec (Unit {0})
  unfolding behind_blank
  dispatch (some Opcodes.cpu_exec) instruction rest = execute_cpu_exec
  dispatch (some Opcodes.copy_from_to_address) instruction rest =
      let (src, rest') = read_word rest in
      let (dest, rest'') = read_word rest' in
      if is_empty src || is_empty dest
      then raise (cpu_exception (codes "copy requires 2 arguments"))
      else execute_copy src dest
  dispatch (some Opcodes.jump) instruction rest = do
    addr ← resolve_address (behind_blank instruction)
    jump addr
  dispatch (some Opcodes.jump_if) instruction rest = do
    addr ← resolve_address (behind_blank instruction)
    jump_if addr
  dispatch (some Opcodes.jump_if_not) instruction rest = do
    addr ← resolve_address (behind_blank instruction)
    jump_if_not addr
  dispatch (some Opcodes.jump_err) instruction rest = do
    addr ← resolve_address (behind_blank instruction)
    jump_err addr
  dispatch (some Opcodes.debug) instruction rest =
      modify (λ m. record m { debug_mode = not (beq (behind_blank instruction) (codes "0")) })
  dispatch none instruction rest =
      raise (cpu_exception (codes "Unknown instruction: " ++ instruction))

  unfoldable pub execute_instruction : Bytes → Exec (Unit {0})
  unfolding dispatch
  execute_instruction instruction = elim (read_stream_int instruction) [
    | none ↦ raise (cpu_exception (codes "Invalid instruction format: " ++ instruction))
    | some (code, rest) ↦ dispatch (instruction_of code) instruction rest
  ]

  -- An error in kernel mode stops the processor; in user mode the process makes the system call
  -- `exit` with a status.
  unfoldable pub fatal : Bytes → Exec (Unit {0})
  fatal message = do on_display (Display.error message); dump true false; stop

  unfoldable pub crash : Bytes → Bytes → Exec (Unit {0})
  unfolding execute_cpu_exec
  crash message status = do
    on_display (Display.error message)
    dump false false
    write_reg reg_a status
    write_reg reg_e (codes "0")
    write_reg reg_op (codes "25")
    execute_cpu_exec

  unfoldable pub handle_memory_error : Bytes → Exec (Unit {0})
  unfolding fatal crash
  handle_memory_error what m =
      if m.ram.kernel_mode
      then fatal (codes "[FATAL] Kernel mode memory error: " ++ what) m
      else crash (codes "[ERROR] Segmentation fault (SIGSEGV): " ++ what) (codes "139") m

  unfoldable pub handle_cpu_error : Bytes → Exec (Unit {0})
  unfolding fatal crash
  handle_cpu_error what m =
      if m.ram.kernel_mode
      then fatal (codes "[FATAL] Kernel mode CPU error: " ++ what) m
      else crash (codes "[ERROR] User program crashed: " ++ what) (codes "1") m

  -- The `catch` clauses of `step`: any other exception is passed on.
  unfoldable pub recover : Result (Unit {0}) × Machine → Result (Unit {0}) × Machine
  unfolding handle_memory_error handle_cpu_error
  recover (ok u, m) = (ok u, m)
  recover (fail (ram_violation what addr), m) = handle_memory_error what m
  recover (fail (cpu_exception what), m) = handle_cpu_error what m
  recover (fail e, m) = (fail e, m)

  -- After an instruction: the dump of the debug mode, and the timer of user mode.
  unfoldable pub after_instruction : Exec (Unit {0})
  unfolding check_timer
  after_instruction m =
      (do
        debugging ← gets should_debug_print
        kernel ← gets (λ m. m.ram.kernel_mode)
        if debugging then dump kernel (not kernel) else pure tt
        fired ← check_timer
        if fired then handle_timer_interrupt else pure tt)
        m

  -- One instruction that is no debug command.
  unfoldable pub run_instruction : Bytes → Exec (Unit {0})
  unfolding poll_keyboard check_timer recover execute_instruction after_instruction
  run_instruction instruction = do
    poll_keyboard
    λ m. recover (execute_instruction instruction m)
    after_instruction

  -- The rest of `step` behind the check of the debugger: the fetch is outside the `try`, so its
  -- faults are passed on.
  unfoldable pub fetch : ℤ → Exec (Unit {0})
  unfolding run_instruction
  fetch pc = do
    instruction ← of_ram (Ram.read pc)
    if is_some (strip_prefix (codes "DEBUG_ON") instruction)
        then (do modify (start_debug true); on_display (Display.info (codes "DEBUG ON")))
        else if is_some (strip_prefix (codes "DEBUG_OFF") instruction)
        then (do modify (start_debug false); on_display (Display.info (codes "DEBUG OFF")))
        else run_instruction instruction

  unfoldable pub step : Exec (Unit {0})
  unfolding fetch
  step = do
    jump_next
    debugging ← gets (λ m. should_debug_print m && m.debug_print_jumps)
    if debugging then print_debug_info else pure tt
    pc ← get_program_counter
    go_on ← check_debugger pc
    if go_on then fetch pc else stop

  -- So many rounds of the loop of `resetVector`, or fewer where the processor stops.
  unfoldable pub run : ℕ → Exec (Unit {0})
  unfolding step
  run zero = pure tt
  run (suc n) =
      let rest = run n in
      (do running ← gets (λ m. m.running); if running then (do step; rest) else pure tt)
