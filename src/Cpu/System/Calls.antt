-- ===== src/Cpu/System/Calls.antt =====
-- The run of `execSysCall` of cpu.cpp, action by action.
use kagu_os.Prelude.{ℕ, suc, ◌+◌, ◌^◌, ◌≤◌, ◌<◌, ◌≡◌, refl, ◌∙◌, true, false, ◌++◌, arith, ℤ, pos}
use kagu_os.Ram.Direct.{direct_read_ok}
use kagu_os.Std.Fault.{ok}
use kagu_os.Interrupt.{handler_address, get_sys_call_handler}
use kagu_os.Std.Number.{to_string, stoi}
use kagu_os.Ram.Locate.{IsProcess}
use kagu_os.Std.Text.{Bytes, codes}
use kagu_os.Ram.{Ram, process_bound, set_kernel_mode, store, get_process_start}
use kagu_os.Kagu.Registers.{
  program_counter, address, sys_call_handler, user_space_end, proc_start_address,
  sys_interrupt_data,
}
use kagu_os.Cpu.Machine.{Exec, Machine, should_debug_print}
use kagu_os.Cpu.Machine.Runs.{
  Runs, with_ram, Runs-read_direct, Runs-get_program_counter, Runs-write_direct, Runs-jump,
}
use kagu_os.Cpu.System.Copy.{saved, saved_at, with_cells, Runs-backup}
use kagu_os.Cpu.System.{
  debug_line, with_offset, exec_sys_call, backup, proc_start_address, sys_interrupt_data,
}

-- Without the debug output no line is printed.
pub quiet :
    (message : Bytes) (m : Machine)
    → should_debug_print m ≡ false
    → Runs (debug_line message) m tt m
unfolding debug_line
quiet message m h = ground arith

-- The loops run for a process, whose start is behind the kernel's registers.
pub with_start :
    (loop : ℤ → Exec (Unit {0})) (text : Bytes) (start : ℕ) (m : Machine)
    → 1 ≤ start
    → process_bound text ≡ pos start
    → with_offset loop text m ≡ loop (pos start) m
unfolding with_offset process_bound
with_start loop text start m low h = ground arith

-- The text of the context that a system call saves.
abbrev pub call_context : ℕ → Bytes
call_context pc = codes "0 " ++ (to_string (pos pc) ++ codes " 0")

-- The memory behind a system call: the registers saved, the context, and the counter before the
-- handler.
abbrev pub entered : ℕ → ℕ → ℕ → Ram → Ram
entered start pc h ram = store 16 (to_string (pos h)) (
    store 26 (call_context pc)
      (record (set_kernel_mode true ram) { cells = saved user_space_end 1 start ram.cells }))

-- The handler's address, read where the memory holds the register.
handler_read :
    (ram : Ram) (h : ℤ)
    → address sys_call_handler ≤ ram.size
    → handler_address (ram.cells (address sys_call_handler)) ≡ ok h
    → get_sys_call_handler ram ≡ ok h
unfolding get_sys_call_handler
handler_read ram h room is = rw (direct_read_ok 23 ram (omega arith) room) is

module _ (m : Machine) (start end : ℕ) (p : IsProcess start end m.ram) where
  -- The machine in kernel mode, and with the registers saved.
  abbrev kernel_machine : Machine
  kernel_machine = with_ram m (set_kernel_mode true m.ram)

  abbrev saved_machine : Machine
  saved_machine =
      with_cells (with_ram m (set_kernel_mode true m.ram))
        (saved user_space_end 1 start m.ram.cells)

  saved_kernel :
      (k : ℕ)
      → user_space_end < k
      → k ≤ start
      → saved user_space_end 1 start m.ram.cells k ≡ m.ram.cells k
  saved_kernel k low high =
      rw (saved_at user_space_end 1 start k m.ram.cells (omega arith) p.above) (ground arith)

  runs_backup :
      with_offset (backup user_space_end 1) (m.ram.cells 21) kernel_machine ≡ (ok tt, saved_machine)
  unfolding set_kernel_mode
  runs_backup =
      with_start (backup user_space_end 1) (m.ram.cells 21) start kernel_machine
        (omega (arith, p.above)) (unfold get_process_start in p.start_is)
      ∙ Runs-backup user_space_end 1 start kernel_machine (omega arith) (omega arith)
          (omega (arith, p.ordered, p.inside)) p.small

pub Runs-exec_sys_call :
    (m : Machine) (start end pc h : ℕ)
    → IsProcess start end m.ram
    → should_debug_print m ≡ false
    → stoi (m.ram.cells (address program_counter)) ≡ ok (pos pc)
    → handler_address (m.ram.cells (address sys_call_handler)) ≡ ok (pos (suc h))
    → h < 2 ^ 31
    → Runs exec_sys_call m tt (with_ram m (entered start pc h m.ram))
unfolding exec_sys_call set_kernel_mode
Runs-exec_sys_call m start end pc h p debug pc_is handler small =
    let room : user_space_end + 41 ≤ m.ram.size = omega (arith, p.above, p.ordered, p.inside) in
    let m2 = saved_machine m start end p in
    let m3 = with_ram m2 (store 26 (call_context pc) m2.ram) in
    rw
      (
        quiet (codes "Switch from user mode to kernel mode.") m debug,
        Runs-read_direct proc_start_address (kernel_machine m start end p) (omega (arith, room)),
        runs_backup m start end p,
        Runs-get_program_counter m2 (pos pc) (omega (arith, room))
            (rw (saved_kernel m start end p 16 (omega arith) (omega (arith, p.above))) pc_is),
        Runs-write_direct sys_interrupt_data m2 (omega (arith, room)) (call_context pc),
        handler_read m3.ram (pos (suc h)) (omega (arith, room))
            (rw (saved_kernel m start end p 23 (omega arith) (omega (arith, p.above))) handler),
        Runs-jump m3 h (omega (arith, room)) small,
      )
      refl
