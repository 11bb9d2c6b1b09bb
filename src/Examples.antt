-- ===== src/Examples.antt =====
-- The theorems at concrete machines, memories and texts.
mod Memory
mod Calls
mod Devices
mod Texts
mod Assembler
mod Debugger
use kagu_os.Prelude.{ℕ, ◌≡◌, refl, false, arith, update, pos, ◌+ℤ◌}
use kagu_os.Std.Number.{stoi, fits_int, int_add}
use kagu_os.Std.Fault.{ok}
use kagu_os.Std.Text.{Bytes, codes, beq}
use kagu_os.Ram.{Ram, get_process_start, get_process_end, process_bound, write, store}
use kagu_os.Ram.Locate.{IsProcess}

-- The cells of a memory in which a process runs from 50 to 90, with its program counter at 5, the
-- handler of system calls at 100 and the timer at 2.
abbrev pub process_cells : ℕ → Bytes
process_cells =
    update
      (update
        (update (update (update (λ n. codes "0") 16 (codes "5")) 21 (codes "50")) 22 (codes "90"))
        23 (codes "100"))
      27 (codes "2")

abbrev pub process_ram : Ram
process_ram = record { cells = process_cells; size = 100; kernel_mode = false }

pub process_ram-IsProcess : IsProcess 50 90 process_ram
unfolding get_process_start get_process_end process_bound stoi beq
process_ram-IsProcess = record {
  user = refl;
  start_is = refl;
  end_is = refl;
  above = omega arith;
  ordered = omega arith;
  inside = omega arith;
  small = omega arith;
}

-- The write of the process to its address 20, which is cell 70.
pub process_ram-write :
    write (pos 20) (codes "x") process_ram ≡ ok (store 70 (codes "x") process_ram)
unfolding write int_add fits_int ◌+ℤ◌ process_bound beq stoi
process_ram-write = refl
