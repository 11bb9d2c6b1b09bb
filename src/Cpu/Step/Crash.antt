-- ===== src/Cpu/Step/Crash.antt =====
-- What becomes of an error of a process: the handlers of errors of cpu.cpp in user mode.
use kagu_os.Prelude.{
  ℕ, ◌+◌, ◌≡◌, refl, ap, ◌∙◌, Bool-cases, inl, inr, true, false, Option, none, some, ◌++◌, arith,
  if◌then◌else◌, ℤ, pos,
}
use kagu_os.Cpu.Step.Calling.{
  IsCaller, charged, Action, Runs-write_reg, Runs-then, Runs-reads, Runs-read_reg, store-IsCaller,
  Runs-call,
}
use kagu_os.Cpu.System.Calls.{entered}
use kagu_os.Cpu.System.RoundTrip.{entered-IsEntered}
use kagu_os.Std.Fault.{Fault, ok, fail, ram_violation, cpu_exception}
use kagu_os.Cpu.Step.{
  after_instruction, run_instruction, poll_keyboard, execute_instruction, privileged_operation,
  check_timer, fatal, recover, handle_memory_error, handle_cpu_error, crash, execute_cpu_exec,
  execute_code, reg_a,
}
use kagu_os.Std.Number.{to_string, stoi, fits_int, read_int}
use kagu_os.Std.Stream.{read_stream_int}
use kagu_os.Std.Number.RoundTrip.{is_empty-to_string, stoi-to_string}
use kagu_os.Kagu.Opcodes.{is_privileged, instruction_of}
use kagu_os.Cpu.Step.Errors.{privileged_refused}
use kagu_os.Cpu.Float.{FloatOps}
use kagu_os.Std.Text.{is_empty, codes, Bytes}
use kagu_os.Kagu.Registers.{reg_op, reg_e, address, program_counter, reg_a}
use kagu_os.Ram.{Ram, store, read_register}
use kagu_os.Cpu.Machine.{
  continue, lift, dump, on_display, pure, ◌>>=◌, ◌>>◌, Machine, write_reg, should_debug_print,
}
use kagu_os.Cpu.Machine.Runs.{Runs, with_ram}
use kagu_os.Display

some-injective : {A : Type 0} {a b : A} → ◌≡◌ {A = Option A} (some a) (some b) → a ≡ b
some-injective e = cc

module _ (start end pc h energy : ℕ) (float : FloatOps) where
  -- The memory in which the process calls `exit` with a status.
  abbrev pub exiting : Bytes → Ram → Ram
  exiting status ram =
      store (address reg_op) (codes "25")
        (store (address reg_e) (codes "0") (store (address reg_a) status ram))

  abbrev told : Bytes → Machine → Machine
  told message m = (dump false false (on_display (Display.error message) m).1).1

  told-IsCaller :
      (message : Bytes) (m : Machine)
      → IsCaller start end pc h energy m
      → IsCaller start end pc h energy (told message m)
  unfolding dump should_debug_print
  told-IsCaller message m c = record {
    process = c.process;
    quiet = c.quiet;
    counter = c.counter;
    handler = c.handler;
    small = c.small;
    used = c.used;
    cheap = c.cheap;
  }

  exiting-IsCaller :
      (status : Bytes) (m : Machine)
      → IsCaller start end pc h energy m
      → IsCaller start end pc h energy (with_ram m (exiting status m.ram))
  exiting-IsCaller status m c =
      let m1 = with_ram m (store (address reg_a) status m.ram) in
      let m2 = with_ram m1 (store (address reg_e) (codes "0") m1.ram) in
      store-IsCaller start end pc h energy (address reg_op) (codes "25") m2 (omega arith) (
        store-IsCaller start end pc h energy (address reg_e) (codes "0") m1 (omega arith)
          (store-IsCaller start end pc h energy (address reg_a) status m (omega arith) c))

  Runs-exec :
      (m : Machine)
      → IsCaller start end pc h energy m
      → m.ram.cells (address reg_op) ≡ codes "25"
      → Runs (execute_cpu_exec float) m tt (with_ram m (entered start pc h (charged energy m.ram)))
  unfolding execute_cpu_exec stoi
  Runs-exec m c op = Runs-reads reg_op (omega arith) _ m _ (
      ap
        (λ t.
          (if is_empty t then pure tt else (lift (stoi t) >>= λ code. execute_code float code)) m)
        op
      ∙ Runs-call start end pc h energy float m c)

  Runs-crash :
      (message status : Bytes) (m : Machine)
      → IsCaller start end pc h energy m
      → Runs
          (crash float message status)
          m
          tt
          (with_ram (told message m) (entered start pc h (charged energy (exiting status m.ram))))
  unfolding crash dump
  Runs-crash message status m c =
      let t = told message m in
      let t1 = with_ram t (store (address reg_a) status t.ram) in
      let t2 = with_ram t1 (store (address reg_e) (codes "0") t1.ram) in
      let t3 = with_ram t (exiting status t.ram) in
      let done = with_ram t (entered start pc h (charged energy (exiting status m.ram))) in
      let call : Action = execute_cpu_exec float in
      let op : Action = write_reg reg_op (codes "25") >> call in
      let second : Action = write_reg reg_e (codes "0") >> op in
      Runs-then (write_reg reg_a status) second t t1 done
        (Runs-write_reg reg_a (omega arith) t status)
        (Runs-then (write_reg reg_e (codes "0")) op t1 t2 done
          (Runs-write_reg reg_e (omega arith) t1 (codes "0"))
          (Runs-then (write_reg reg_op (codes "25")) call t2 t3 done
            (Runs-write_reg reg_op (omega arith) t2 (codes "25"))
            (Runs-exec t3 (exiting-IsCaller status t (told-IsCaller message m c)) refl)))

  -- The process has made the system call `exit` with a status: the processor is before the handler in kernel
  -- mode, and the call and its operands stand in the saved registers.
  pub record HasExited (status : Bytes) (m n : Machine) : Type 0 where
    pub kernel : n.ram.kernel_mode ≡ true
    pub counter : n.ram.cells (address program_counter) ≡ to_string (pos h)
    pub operation : n.ram.cells (address reg_op + start) ≡ codes "25"
    pub call : n.ram.cells (address reg_e + start) ≡ codes "0"
    pub status_is : n.ram.cells (address reg_a + start) ≡ status
    pub running : n.running ≡ m.running
    pub debugging : n.debug_mode ≡ m.debug_mode

  crash-HasExited :
      (message status : Bytes) (m : Machine)
      → IsCaller start end pc h energy m
      → (n : Machine) × Runs (crash float message status) m tt n × HasExited status m n
  unfolding dump
  crash-HasExited message status m c =
      let e =
        entered-IsEntered start pc h (charged energy (exiting status m.ram)) c.process.above in
      (
        with_ram (told message m) (entered start pc h (charged energy (exiting status m.ram))),
        Runs-crash message status m c,
        record {
          kernel = e.kernel;
          counter = e.counter;
          operation = e.saves 7 (omega arith) (omega arith);
          call = e.saves 5 (omega arith) (omega arith);
          status_is = e.saves 1 (omega arith) (omega arith);
          running = refl;
          debugging = refl;
        },
      )

  -- The exit status for a fault, where the emulator survives it.
  abbrev pub exit_status : Fault → Option Bytes
  exit_status (ram_violation what addr) = some (codes "139")
  exit_status (cpu_exception what) = some (codes "1")
  exit_status _ = none

  recover-HasExited :
      (e : Fault) (status : Bytes) (m : Machine)
      → IsCaller start end pc h energy m
      → exit_status e ≡ some status
      → (n : Machine) × (recover float (fail e, m) ≡ (ok tt, n)) × HasExited status m n
  unfolding recover handle_memory_error handle_cpu_error
  recover-HasExited (ram_violation what addr) status m c is =
      let message = codes "[ERROR] Segmentation fault (SIGSEGV): " ++ what in
      let (n, runs, exited) = crash-HasExited message status m c in
      (
        n,
        ap
              (λ b.
                if b
                then fatal float (codes "[FATAL] Kernel mode memory error: " ++ what) m
                else crash float message (codes "139") m)
              c.process.user
            ∙ ap (λ s. crash float message s m) (some-injective is)
            ∙ runs,
        exited,
      )
  recover-HasExited (cpu_exception what) status m c is =
      let message = codes "[ERROR] User program crashed: " ++ what in
      let (n, runs, exited) = crash-HasExited message status m c in
      (
        n,
        ap
              (λ b.
                if b
                then fatal float (codes "[FATAL] Kernel mode CPU error: " ++ what) m
                else crash float message (codes "1") m)
              c.process.user
            ∙ ap (λ s. crash float message s m) (some-injective is)
            ∙ runs,
        exited,
      )
  recover-HasExited _ status m c is = absurd (ground (arith, is))

  no_debugging : (m : Machine) → should_debug_print m ≡ false → m.debug_mode ≡ false
  unfolding should_debug_print
  no_debugging m q = ground (arith, q)

  -- Behind an instruction nothing is left to do in kernel mode without debug output.
  Runs-after_instruction :
      (n : Machine)
      → n.ram.kernel_mode ≡ true
      → n.debug_mode ≡ false
      → Runs (after_instruction float) n tt n
  unfolding after_instruction check_timer should_debug_print
  Runs-after_instruction n kernel quiet = elim (Bool-cases n.debug_user_only) [
    | inl e ↦ rw (kernel, quiet, e) refl
    | inr e ↦ rw (kernel, quiet, e) refl
  ]

  -- An instruction that has been fetched and whose execution raises an error of the memory or of the
  -- processor, in a process without debug output whose program counter, handler of system calls and
  -- energy are numbers, the energy with room for the cost of a call: the whole of the instruction
  -- ends without a fault, and the process has made the system call `exit`, with status 139 for
  -- the memory and 1 for the processor; the processor is before the handler, in kernel mode.
  pub process_error_exits :
      (m m' n : Machine) (instruction : Bytes) (e : Fault) (status : Bytes)
      → Runs poll_keyboard m tt m'
      → execute_instruction float instruction m' ≡ (fail e, n)
      → IsCaller start end pc h energy n
      → exit_status e ≡ some status
      → (x : Machine) × Runs (run_instruction float instruction) m tt x × HasExited status n x
  unfolding run_instruction
  process_error_exits m m' n instruction e status polled raised c is =
      let (x, recovers, exited) = recover-HasExited e status n c is in
      let caught : Action = λ m. recover float (execute_instruction float instruction m) in
      (
        x,
        Runs-then poll_keyboard (caught >> after_instruction float) m m' x polled (
            Runs-then caught (after_instruction float) m' x x (ap (recover float) raised ∙ recovers)
              (Runs-after_instruction x exited.kernel (exited.debugging ∙ no_debugging n c.quiet))),
        exited,
      )

  privileged_raises :
      (code : ℤ) (m : Machine)
      → IsCaller start end pc h energy m
      → m.ram.cells (address reg_op) ≡ to_string code
      → fits_int code ≡ true
      → is_privileged code ≡ true
      → execute_instruction float (codes "0") m ≡ (fail (privileged_operation code), m)
  unfolding execute_instruction execute_cpu_exec read_stream_int read_register read_int fits_int
      instruction_of
  privileged_raises code m c op fits privileged =
      let run : Bytes → Action =
        λ t. if is_empty t then pure tt else (lift (stoi t) >>= λ code. execute_code float code) in
      ap (continue run) (Runs-read_reg reg_op (omega arith) m)
      ∙ rw (op, is_empty-to_string code, stoi-to_string code fits)
          (privileged_refused float code m c.process.user privileged)

  -- In a process without debug output whose program counter, handler of system calls and energy are
  -- numbers, the energy with room for the cost of a call, the instruction `0` with the number of a
  -- privileged operation in the register of operations ends without a fault, and the process has made the system call `exit` with status 1. Privileged is what
  -- `isPrivileged` of the code answers: ReadInput and every higher number except SysCall, so Nop,
  -- Halt and Unknown too.
  pub privileged_exits :
      (m m' : Machine) (code : ℤ)
      → Runs poll_keyboard m tt m'
      → IsCaller start end pc h energy m'
      → m'.ram.cells (address reg_op) ≡ to_string code
      → fits_int code ≡ true
      → is_privileged code ≡ true
      → (x : Machine) × Runs (run_instruction float (codes "0")) m tt x × HasExited (codes "1") m' x
  privileged_exits m m' code polled c op fits privileged =
      process_error_exits m m' m' (codes "0") (privileged_operation code) (codes "1") polled
        (privileged_raises code m' c op fits privileged) c (unfold privileged_operation in refl)
