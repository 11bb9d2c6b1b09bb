-- ===== src/Examples/Calls.antt =====
-- The theorems on system calls, errors and jumps at one machine.
use kagu_os.Prelude.{ℕ, ◌≤◌, ◌≡◌, refl, ◌≢◌, true, false, some, arith, update, ◌+ℤ◌, pos}
use kagu_os.Cpu.Step.Unprivileged.{unprivileged_confined}
use kagu_os.Cpu.Execute.Confined.{Differs}
use kagu_os.Cpu.Step.Calling.{IsCaller, store-IsCaller}
use kagu_os.Cpu.Step.Crash.{HasExited, process_error_exits, privileged_exits}
use kagu_os.Cpu.Step.Fetch.{fetch_escapes, counter-IsProcess}
use kagu_os.Cpu.Step.Debugged.{IsQuiet}
use kagu_os.Kagu.Opcodes.{instruction_of, sys_call, operation_of, is_privileged}
use kagu_os.Cpu.Machine.Jumps.{jump_lands}
use kagu_os.Std.Text.{codes, beq}
use kagu_os.Std.Fault.{Fault, fail, ok, ram_violation}
use kagu_os.Std.Number.{stoi, to_string, int_add, fits_int, read_int}
use kagu_os.Std.Stream.{read_stream_int, read_word}
use kagu_os.Cpu.Control.{execute_copy}
use kagu_os.Ram.{process_bound, Ram, store, violation_message, reading, read}
use kagu_os.Interrupt.{handler_address}
use kagu_os.Cpu.System.RoundTrip.{
  IsKept, IsEntered, kept-IsReturning, IsReturned, called-IsEntered, sys_call_enters,
  sys_call_round_trip, sys_return_restores,
}
use kagu_os.Cpu.System.Returns.{IsReturning}
use kagu_os.Keyboard.{poll_key}
use kagu_os.Cpu.Step.{poll_keyboard, run_instruction, execute_instruction, execute_code, step}
use kagu_os.Cpu.Machine.{Machine, jump, should_debug_print, ◌>>◌, jump_next}
use kagu_os.Examples.{process_ram, process_ram-IsProcess, Ram, stoi, codes, ok, store}
use kagu_os.Cpu.Tests.{fresh, no_floats}
use kagu_os.Cpu.Machine.Runs.{Runs, with_ram}
use kagu_os.Cpu.System.{exec_sys_call, exec_sys_return}
use kagu_os.Cpu.System.Calls.{entered, Runs-exec_sys_call}
use kagu_os.Kagu.Registers.{
  program_counter, address, sys_call_handler, user_space_end, reg_res, reg_error, reg_op,
}

abbrev caller : Machine
caller = fresh process_ram

abbrev entry_ram : Ram
entry_ram = entered 50 5 99 process_ram

abbrev kernel : Machine
kernel = with_ram caller entry_ram

caller_quiet : should_debug_print caller ≡ false
unfolding should_debug_print
caller_quiet = refl

caller_counter : stoi (process_ram.cells (address program_counter)) ≡ ok (pos 5)
unfolding stoi
caller_counter = refl

caller_handler : handler_address (process_ram.cells (address sys_call_handler)) ≡ ok (pos 100)
unfolding handler_address beq stoi
caller_handler = refl

called : Runs exec_sys_call caller tt kernel
called =
    Runs-exec_sys_call caller 50 90 5 99 process_ram-IsProcess caller_quiet caller_counter
      caller_handler (omega arith)

entry_ram-IsKept : IsKept 50 entry_ram entry_ram
entry_ram-IsKept = record {
  same_size = refl;
  bound = refl;
  context = refl;
  area = λ i low high. refl;
}

sys_call_enters_example :
    (ram : Ram) × Runs exec_sys_call caller tt (with_ram caller ram)
    × IsEntered 50 5 99 process_ram ram
sys_call_enters_example =
    sys_call_enters caller 50 90 5 99 process_ram-IsProcess caller_quiet caller_counter
      caller_handler (omega arith)

entry_ram-IsReturning : IsReturning 50 5 entry_ram
entry_ram-IsReturning =
    kept-IsReturning 50 90 5 99 process_ram entry_ram entry_ram process_ram-IsProcess
      (called-IsEntered caller 50 90 5 99 entry_ram process_ram-IsProcess caller_quiet
        caller_counter caller_handler (omega arith) called)
      entry_ram-IsKept

sys_return_restores_example :
    (ram : Ram) × Runs (exec_sys_return (codes "r") (codes "e")) kernel tt (with_ram kernel ram)
    × IsReturned 50 5 (codes "r") (codes "e") entry_ram ram
sys_return_restores_example =
    sys_return_restores kernel 50 5 (codes "r") (codes "e") entry_ram-IsReturning refl refl

sys_call_round_trip_example :
    (ram : Ram) × Runs (exec_sys_return (codes "r") (codes "e")) kernel tt (with_ram kernel ram)
    × (ram.kernel_mode ≡ false)
    × (ram.cells (address program_counter) ≡ to_string (pos 5))
    × (ram.cells (address reg_res) ≡ codes "r")
    × (ram.cells (address reg_error) ≡ codes "e")
    × ((i : ℕ)
        → 1 ≤ i
        → i ≤ user_space_end
        → i ≢ address reg_res
        → i ≢ address reg_error
        → ram.cells i ≡ process_ram.cells i)
sys_call_round_trip_example =
    sys_call_round_trip caller kernel 50 90 5 99 entry_ram (codes "r") (codes "e")
      process_ram-IsProcess caller_quiet caller_counter caller_handler (omega arith) called
      entry_ram-IsKept refl refl

jump_lands_example :
    Runs
      (jump (pos 42) >> jump_next)
      caller
      tt
      (with_ram caller (store (address program_counter) (to_string (pos 42)) process_ram))
jump_lands_example = jump_lands caller 41 (omega arith) (omega arith)

-- A process that goes on behind its last cell.
abbrev runaway : Machine
runaway = fresh (store 16 (codes "45") process_ram)

runaway-IsQuiet : IsQuiet 45 runaway
unfolding should_debug_print stoi
runaway-IsQuiet = record { quiet = refl; room = omega arith; counter = refl; small = omega arith }

fetch_escapes_example : step no_floats runaway ≡ (
  fail (ram_violation (violation_message reading (pos 46) (pos 96)) (pos 46)),
  with_ram runaway (store (address program_counter) (to_string (pos 46)) runaway.ram),
)
fetch_escapes_example =
    fetch_escapes no_floats runaway 45 50 90
      (counter-IsProcess 50 90 (codes "45") process_ram process_ram-IsProcess) runaway-IsQuiet tt
      (omega arith) (omega arith)

-- A machine in kernel mode whose next instruction stands outside its memory: the fetch fails.
abbrev lost_ram : Ram
lost_ram = record {
  cells = update (λ n. codes "0") 16 (codes "200");
  size = 100;
  kernel_mode = true;
}

no_call : operation_of (pos 0) ≢ some sys_call
unfolding operation_of
no_call e = ground (arith, e)

unprivileged_confined_example : Differs caller (execute_code no_floats (pos 0) caller).1
unprivileged_confined_example =
    unprivileged_confined no_floats (pos 0) caller (unfold is_privileged in refl) no_call

caller-IsCaller : IsCaller 50 90 5 99 0 caller
unfolding to_string
caller-IsCaller = record {
  process = process_ram-IsProcess;
  quiet = caller_quiet;
  counter = caller_counter;
  handler = caller_handler;
  small = omega arith;
  used = refl;
  cheap = omega arith;
}

no_key : Runs poll_keyboard caller tt caller
unfolding poll_key poll_keyboard
no_key = refl

-- A copy from a cell that is outside the process.
abbrev outside : Fault
outside = ram_violation (violation_message reading (pos 95) (pos 145)) (pos 95)

outside_faults : execute_instruction no_floats (codes "1 95 1") caller ≡ (fail outside, caller)
unfolding execute_instruction read_stream_int read_int fits_int instruction_of read_word
    execute_copy stoi read int_add ◌+ℤ◌ process_bound beq
outside_faults = refl

process_error_exits_example :
    (n : Machine) × Runs (run_instruction no_floats (codes "1 95 1")) caller tt n
    × HasExited 50 90 5 99 0 no_floats (codes "139") caller n
process_error_exits_example =
    process_error_exits 50 90 5 99 0 no_floats caller caller caller (codes "1 95 1") outside
      (codes "139") no_key outside_faults caller-IsCaller refl

-- The process has put the number of a privileged operation into its register.
abbrev asking : Machine
asking = with_ram caller (store (address reg_op) (codes "26") process_ram)

asking-IsCaller : IsCaller 50 90 5 99 0 asking
asking-IsCaller =
    store-IsCaller 50 90 5 99 0 (address reg_op) (codes "26") caller (omega arith) caller-IsCaller

no_key_asking : Runs poll_keyboard asking tt asking
unfolding poll_key poll_keyboard
no_key_asking = refl

privileged_exits_example :
    (n : Machine) × Runs (run_instruction no_floats (codes "0")) asking tt n
    × HasExited 50 90 5 99 0 no_floats (codes "1") asking n
privileged_exits_example =
    privileged_exits 50 90 5 99 0 no_floats asking asking (pos 26) no_key_asking asking-IsCaller
      (unfold to_string in refl) (unfold fits_int in refl) (unfold is_privileged in refl)
