-- ===== src/Cpu/System/Copy.antt =====
-- The two copy loops: what they leave in the cells.
use kagu_os.Ram.Locate.{int_add_pos}
use kagu_os.Prelude.{
  ℕ, zero, suc, ◌+◌, ◌-◌, ◌^◌, ◌≤◌, ◌<◌, ◌≡◌, refl, ap, ◌&&◌, arith, update, ltb, leb,
  if◌then◌else◌, ℤ, pos,
}
use kagu_os.Std.Number.{int_add}
use kagu_os.Std.Text.{Bytes}
use kagu_os.Std.Fault.{Result}
use kagu_os.Kagu.Registers.{address, user_space_end, kernel_start}
use kagu_os.Ram.{store, direct_read, direct_write}
use kagu_os.Ram.Direct.{direct_read_ok, direct_write_ok}
use kagu_os.Cpu.Machine.{◌>>◌, Machine, settle, of_ram, on_ram, lift}
use kagu_os.Cpu.Machine.Runs.{Runs, with_ram, Runs-bind}
use kagu_os.Cpu.System.{copy_cell, backup, restore, int_add}

Runs-copy_cell :
    (from to : ℕ) (m : Machine)
    → 1 ≤ from
    → from ≤ m.ram.size
    → 1 ≤ to
    → to ≤ m.ram.size
    → Runs (copy_cell (pos from) (pos to)) m tt (with_ram m (store to (m.ram.cells from) m.ram))
unfolding copy_cell
Runs-copy_cell from to m f f' t t' =
    Runs-bind (of_ram (direct_read (pos from))) (λ v. on_ram (direct_write (pos to) v))
      (m.ram.cells from) tt m m (with_ram m (store to (m.ram.cells from) m.ram))
      (ap (λ (x : Result Bytes). (x, m)) (direct_read_ok from m.ram f f'))
      (ap (settle m) (direct_write_ok to (m.ram.cells from) m.ram t t'))

-- The cells after the registers i, …, i + n - 1 have been copied to the start of a process.
unfoldable pub saved : ℕ → ℕ → ℕ → (ℕ → Bytes) → ℕ → Bytes
saved zero i start cells = cells
saved (suc n) i start cells = saved n (i + 1) start (update cells (i + start) (cells i))

-- The cells after they have been copied back.
unfoldable pub restored : ℕ → ℕ → ℕ → (ℕ → Bytes) → ℕ → Bytes
restored zero i start cells = cells
restored (suc n) i start cells = restored n (i + 1) start (update cells i (cells (i + start)))

abbrev pub with_cells : Machine → (ℕ → Bytes) → Machine
with_cells m cells = with_ram m (record m.ram { cells = cells })

pub Runs-backup :
    (n i start : ℕ) (m : Machine)
    → 1 ≤ i
    → i + n ≤ user_space_end + 1
    → user_space_end + start ≤ m.ram.size
    → m.ram.size + m.ram.size < 2 ^ 31
    → Runs (backup n i (pos start)) m tt (with_cells m (saved n i start m.ram.cells))
unfolding backup saved
Runs-backup zero i start m low high room small = refl
Runs-backup (suc n) i start m low high room small =
    Runs-bind (lift (int_add (pos i) (pos start)))
      (λ to. copy_cell (pos i) to >> backup n (i + 1) (pos start)) (pos (i + start)) tt m m
      (with_cells m (saved (suc n) i start m.ram.cells))
      (ap (λ (x : Result ℤ). (x, m)) (int_add_pos i start (omega arith)))
      (Runs-bind (copy_cell (pos i) (pos (i + start))) (λ _. backup n (i + 1) (pos start)) tt tt m
        (with_ram m (store (i + start) (m.ram.cells i) m.ram))
        (with_cells m (saved (suc n) i start m.ram.cells))
        (Runs-copy_cell i (i + start) m low (omega arith) (omega arith) (omega arith))
        (Runs-backup n (i + 1) start (with_ram m (store (i + start) (m.ram.cells i) m.ram))
          (omega arith) (omega arith) room small))

pub Runs-restore :
    (n i start : ℕ) (m : Machine)
    → 1 ≤ i
    → i + n ≤ user_space_end + 1
    → user_space_end + start ≤ m.ram.size
    → m.ram.size + m.ram.size < 2 ^ 31
    → Runs (restore n i (pos start)) m tt (with_cells m (restored n i start m.ram.cells))
unfolding restore restored
Runs-restore zero i start m low high room small = refl
Runs-restore (suc n) i start m low high room small =
    Runs-bind (lift (int_add (pos i) (pos start)))
      (λ from. copy_cell from (pos i) >> restore n (i + 1) (pos start)) (pos (i + start)) tt m m
      (with_cells m (restored (suc n) i start m.ram.cells))
      (ap (λ (x : Result ℤ). (x, m)) (int_add_pos i start (omega arith)))
      (Runs-bind (copy_cell (pos (i + start)) (pos i)) (λ _. restore n (i + 1) (pos start)) tt tt m
        (with_ram m (store i (m.ram.cells (i + start)) m.ram))
        (with_cells m (restored (suc n) i start m.ram.cells))
        (Runs-copy_cell (i + start) i m (omega arith) (omega arith) low (omega arith))
        (Runs-restore n (i + 1) start (with_ram m (store i (m.ram.cells (i + start)) m.ram))
          (omega arith) (omega arith) room small))

-- Each saved register stands in the process.
pub saved_at :
    (n i start k : ℕ) (cells : ℕ → Bytes)
    → i + n ≤ user_space_end + 1
    → address kernel_start ≤ start
    → saved n i start cells k
      ≡ (if leb (i + start) k && ltb k (i + n + start) then cells (k - start) else cells k)
unfolding saved
saved_at zero i start k cells high above = ground arith
saved_at (suc n) i start k cells high above =
    ground (arith, saved_at n (i + 1) start k (update cells (i + start) (cells i)))

pub restored_at :
    (n i start k : ℕ) (cells : ℕ → Bytes)
    → i + n ≤ user_space_end + 1
    → address kernel_start ≤ start
    → restored n i start cells k ≡ (if leb i k && ltb k (i + n) then cells (k + start) else cells k)
unfolding restored
restored_at zero i start k cells high above = ground arith
restored_at (suc n) i start k cells high above =
    ground (arith, restored_at n (i + 1) start k (update cells i (cells (i + start))))
