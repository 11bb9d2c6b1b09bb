-- ===== src/Cpu/Machine/Jumps.antt =====
-- The program counter across a jump.
use kagu_os.Prelude.{ℕ, suc, ◌+◌, ◌^◌, ◌≤◌, ◌<◌, ◌≡◌, refl, arith, update-update, pos}
use kagu_os.Std.Number.RoundTrip.{stoi-to_string}
use kagu_os.Ram.Locate.{int_add_pos}
use kagu_os.Std.Fault.{ok}
use kagu_os.Ram.{store}
use kagu_os.Std.Number.{stoi, to_string, fits_int}
use kagu_os.Cpu.Machine.{Machine, jump, jump_next, set_program_counter, stoi, ◌>>◌, ok, to_string}
use kagu_os.Cpu.Machine.Runs.{
  Runs, with_ram, Runs-jump, Runs-get_program_counter, Runs-write_direct,
}
use kagu_os.Kagu.Registers.{program_counter, address}

-- The increment in front of a fetch.
pub Runs-jump_next :
    (m : Machine) (n : ℕ)
    → address program_counter ≤ m.ram.size
    → suc n < 2 ^ 31
    → stoi (m.ram.cells (address program_counter)) ≡ ok (pos n)
    → Runs jump_next m tt
        (with_ram m (store (address program_counter) (to_string (pos (suc n))) m.ram))
unfolding jump_next set_program_counter
Runs-jump_next m n room small is =
    rw
      (
        Runs-get_program_counter m (pos n) room is,
        int_add_pos n 1 (omega arith),
        Runs-write_direct program_counter m room (to_string (pos (n + 1))),
      )
      (ground arith)

-- A jump to any address from 1 to 2 ^ 31 - 1, followed by the increment in front of the next
-- fetch, leaves that address in the program counter, and changes no other cell.
pub jump_lands :
    (m : Machine) (n : ℕ)
    → address program_counter ≤ m.ram.size
    → suc n < 2 ^ 31
    → Runs
        (jump (pos (suc n)) >> jump_next)
        m
        tt
        (with_ram m (store (address program_counter) (to_string (pos (suc n))) m.ram))
jump_lands m n room small =
    let m1 = with_ram m (store (address program_counter) (to_string (pos n)) m.ram) in
    rw
      (
        Runs-jump m n room (omega arith),
        Runs-jump_next m1 n room small (stoi-to_string (pos n) (unfold fits_int in ground arith)),
        update-update m.ram.cells 16 (to_string (pos n)) (to_string (pos (suc n))),
      )
      refl
