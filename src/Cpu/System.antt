-- ===== src/Cpu/System.antt =====
-- System calls, returns and timer interrupts of cpu.cpp: the switches between the two modes.
pub mod Copy
pub mod Calls
pub mod Returns
pub mod RoundTrip
use kagu_os.Prelude.{ℕ, zero, suc, ◌+◌, Bool, true, false, ◌||◌, [], ◌++◌, if◌then◌else◌, ℤ, pos}
use kagu_os.Std.Text.{Bytes, codes, beq, is_empty}
use kagu_os.Std.Fault.{ok}
use kagu_os.Std.Number.{stoi, to_string, int_add}
use kagu_os.Std.Stream.{read_word}
use kagu_os.Kagu.Registers.{
  reg_res, reg_error, program_counter, proc_start_address, sys_interrupt_data, user_space_end,
}
use kagu_os.Ram.{Ram}
use kagu_os.Cpu.Machine.{
  Exec, ◌>>=◌, ◌>>◌, pure, lift, on_ram, of_ram, on_display, read_direct, write_direct,
  get_program_counter, jump, dump, should_debug_print,
}
use kagu_os.Ram
use kagu_os.Interrupt
use kagu_os.Display

-- One round of the copy loops: cell `from` is copied to cell `to`.
unfoldable pub copy_cell : ℤ → ℤ → Exec (Unit {0})
copy_cell from to = do v ← of_ram (Ram.direct_read from); on_ram (Ram.direct_write to v)

-- The loop of `execSysCall` for the registers i, i + 1, …, n of them.
unfoldable pub backup : ℕ → ℕ → ℤ → Exec (Unit {0})
unfolding copy_cell
backup zero i offset = pure tt
backup (suc n) i offset = do
  to ← lift (int_add (pos i) offset)
  copy_cell (pos i) to
  backup n (i + 1) offset

-- The loop of `execSysReturn`.
unfoldable pub restore : ℕ → ℕ → ℤ → Exec (Unit {0})
unfolding copy_cell
restore zero i offset = pure tt
restore (suc n) i offset = do
  from ← lift (int_add (pos i) offset)
  copy_cell from (pos i)
  restore n (i + 1) offset

-- The loops run only where the start of the process is set.
unfoldable pub with_offset : (ℤ → Exec (Unit {0})) → Bytes → Exec (Unit {0})
with_offset loop text =
    if is_empty text || beq text (codes "0")
    then pure tt
    else (do offset ← lift (stoi text); loop offset)

-- `display_.debug(message, false)` where the debug output is on
unfoldable pub debug_line : Bytes → Exec (Unit {0})
debug_line message m =
    if should_debug_print m then on_display (Display.debug message false (pos 0)) m else pure tt m

-- `execSysCall`
unfoldable pub exec_sys_call : Exec (Unit {0})
unfolding debug_line with_offset
exec_sys_call = do
  debug_line (codes "Switch from user mode to kernel mode.")
  on_ram (λ ram. ok (Ram.set_kernel_mode true ram))
  offset ← read_direct proc_start_address
  with_offset (backup user_space_end 1) offset
  pc ← get_program_counter
  write_direct sys_interrupt_data (codes "0 " ++ to_string pc ++ codes " 0")
  handler ← of_ram Interrupt.get_sys_call_handler
  jump handler

-- The three words of the interrupt data, each empty where there is none: `type`, `pc`, `ignore`.
unfoldable pub pc_word : Bytes → Bytes
unfolding read_word
pc_word s = (read_word (read_word s).1).0

unfoldable pub ignore_word : Bytes → Bytes
unfolding read_word
ignore_word s = (read_word (read_word (read_word s).1).1).0

unfoldable pub write_results : Bool → Bytes → Bytes → Exec (Unit {0})
write_results ignore res err =
    if ignore then pure tt else (do write_direct reg_res res; write_direct reg_error err)

-- `execSysReturn`
unfoldable pub exec_sys_return : Bytes → Bytes → Exec (Unit {0})
unfolding debug_line with_offset write_results pc_word ignore_word
exec_sys_return saved_res saved_err = do
  offset ← read_direct proc_start_address
  with_offset (restore user_space_end 1) offset
  interrupt ← read_direct sys_interrupt_data
  write_results (beq (ignore_word interrupt) (codes "1")) saved_res saved_err
  write_direct program_counter (pc_word interrupt)
  write_direct sys_interrupt_data []
  on_ram (λ ram. ok (Ram.set_kernel_mode false ram))
  debug_line (codes "Switch from kernel mode to user mode.")

-- `handleTimerInterrupt`: the registers are not saved here.
unfoldable pub handle_timer_interrupt : Exec (Unit {0})
handle_timer_interrupt = do
  pc ← get_program_counter
  write_direct sys_interrupt_data (codes "1 " ++ to_string pc ++ codes " 1")
  on_ram (λ ram. ok (Ram.set_kernel_mode true ram))
  dump true false
  handler ← of_ram Interrupt.get_interrupt_handler
  jump handler
