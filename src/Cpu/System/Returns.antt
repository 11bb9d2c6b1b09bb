-- ===== src/Cpu/System/Returns.antt =====
-- The run of `execSysReturn` of cpu.cpp, action by action.
use kagu_os.Prelude.{ℕ, ◌+◌, ◌^◌, ◌≤◌, ◌<◌, ◌≡◌, refl, ap, ◌∙◌, false, [], ◌∷◌, ◌++◌, arith, pos}
use kagu_os.Std.Stream.{read_word}
use kagu_os.Std.Number.RoundTrip.{is_empty-to_string}
use kagu_os.Std.Stream.Words.{read_word-append, read_word-blank, to_string-has_no_space}
use kagu_os.Std.Fault.{ok}
use kagu_os.Std.Text.{Bytes, codes, beq}
use kagu_os.Std.Number.{to_string}
use kagu_os.Ram.{Ram, set_kernel_mode, process_bound, store}
use kagu_os.Cpu.Machine.{Machine, should_debug_print}
use kagu_os.Cpu.Machine.Runs.{Runs, with_ram, Runs-read_direct, Runs-write_direct}
use kagu_os.Cpu.System.Copy.{restored, restored_at, with_cells, Runs-restore}
use kagu_os.Cpu.System.Calls.{quiet, with_start, call_context}
use kagu_os.Cpu.System.{
  exec_sys_return, restore, pc_word, ignore_word, Bytes, Ram, codes, to_string, with_offset, ok,
  reg_res, reg_error, read_word, beq,
}
use kagu_os.Kagu.Registers.{
  program_counter, address, sys_interrupt_data, proc_start_address, user_space_end, kernel_start,
  reg_res, reg_error,
}

-- The words of the context behind the first.
context_rest :
    (pc : ℕ) → (read_word (call_context pc)).1 ≡ 32 ∷ (to_string (pos pc) ++ 32 ∷ codes "0")
unfolding read_word
context_rest pc = refl

second_word :
    (pc : ℕ)
    → read_word (32 ∷ (to_string (pos pc) ++ 32 ∷ codes "0")) ≡ (to_string (pos pc), 32 ∷ codes "0")
second_word pc =
    read_word-blank (to_string (pos pc) ++ 32 ∷ codes "0")
    ∙ read_word-append (to_string (pos pc)) (codes "0") (to_string-has_no_space (pos pc))
        (is_empty-to_string (pos pc))

pc_word-call_context : (pc : ℕ) → pc_word (call_context pc) ≡ to_string (pos pc)
unfolding pc_word
pc_word-call_context pc =
    ap (λ (s : Bytes). (read_word s).0) (context_rest pc)
    ∙ ap (λ (x : Bytes × Bytes). x.0) (second_word pc)

ignore_word-call_context : (pc : ℕ) → beq (ignore_word (call_context pc)) (codes "1") ≡ false
unfolding ignore_word read_word beq
ignore_word-call_context pc =
    ap (λ (s : Bytes). beq (read_word (read_word s).1).0 (codes "1")) (context_rest pc)
    ∙ ap (λ (x : Bytes × Bytes). beq (read_word x.1).0 (codes "1")) (second_word pc)

-- The memory of a kernel that is about to return to a process: where the process starts, and the
-- context that the call has saved.
pub record IsReturning (start pc : ℕ) (ram : Ram) : Type 0 where
  pub bound : process_bound (ram.cells (address proc_start_address)) ≡ pos start
  pub context : ram.cells (address sys_interrupt_data) ≡ call_context pc
  pub above : address kernel_start ≤ start
  pub inside : user_space_end + start ≤ ram.size
  pub small : ram.size + ram.size < 2 ^ 31

-- The memory behind the return.
abbrev pub returned : ℕ → ℕ → Bytes → Bytes → Ram → Ram
returned start pc res err ram = set_kernel_mode false (
    store 26 [] (
      store 16 (to_string (pos pc)) (
        store 10 err
          (store 8 res (record ram { cells = restored user_space_end 1 start ram.cells })))))

quiet_user :
    (m : Machine) (ram : Ram)
    → m.debug_mode ≡ false
    → m.debug_user_only ≡ false
    → should_debug_print (with_ram m ram) ≡ false
unfolding should_debug_print
quiet_user m ram d u = ground arith

module _ (m : Machine) (start pc : ℕ) (r : IsReturning start pc m.ram) where
  abbrev restored_machine : Machine
  restored_machine = with_cells m (restored user_space_end 1 start m.ram.cells)

  restored_kernel :
      (k : ℕ) → user_space_end < k → restored user_space_end 1 start m.ram.cells k ≡ m.ram.cells k
  restored_kernel k low =
      rw (restored_at user_space_end 1 start k m.ram.cells (omega arith) r.above) (ground arith)

  runs_restore :
      with_offset (restore user_space_end 1) (m.ram.cells 21) m ≡ (ok tt, restored_machine)
  runs_restore =
      with_start (restore user_space_end 1) (m.ram.cells 21) start m (omega (arith, r.above))
        r.bound
      ∙ Runs-restore user_space_end 1 start m (omega arith) (omega arith) r.inside r.small

  pub Runs-exec_sys_return :
      (res err : Bytes)
      → m.debug_mode ≡ false
      → m.debug_user_only ≡ false
      → Runs (exec_sys_return res err) m tt (with_ram m (returned start pc res err m.ram))
  unfolding exec_sys_return set_kernel_mode
  Runs-exec_sys_return res err d u =
      let room : user_space_end + 41 ≤ m.ram.size = omega (arith, r.above, r.inside) in
      let m2 = restored_machine in
      let m3 = with_ram m2 (store 10 err (store 8 res m2.ram)) in
      let m4 = with_ram m3 (store 16 (to_string (pos pc)) m3.ram) in
      let m5 = with_ram m4 (store 26 [] m4.ram) in
      rw
        (
          Runs-read_direct proc_start_address m (omega (arith, room)),
          runs_restore,
          Runs-read_direct sys_interrupt_data m2 (omega (arith, room)),
          restored_kernel 26 (omega arith),
          r.context,
          ignore_word-call_context pc,
          pc_word-call_context pc,
          Runs-write_direct reg_res m2 (omega (arith, room)) res,
          Runs-write_direct reg_error (with_ram m2 (store 8 res m2.ram)) (omega (arith, room)) err,
          Runs-write_direct program_counter m3 (omega (arith, room)) (to_string (pos pc)),
          Runs-write_direct sys_interrupt_data m4 (omega (arith, room)) [],
          quiet (codes "Switch from kernel mode to user mode.")
              (with_ram m5 (set_kernel_mode false m5.ram))
              (quiet_user m (set_kernel_mode false m5.ram) d u),
        )
        refl
