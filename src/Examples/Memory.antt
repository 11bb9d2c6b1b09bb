-- ===== src/Examples/Memory.antt =====
-- The theorems on the memory at one process.
use kagu_os.Prelude.{◌≡◌, inl, arith, sub_ℕ, pos}
use kagu_os.Ram.Cells.{process}
use kagu_os.Std.Fault.{ok}
use kagu_os.Ram.ReadWrite.{read-write_ne, read-write}
use kagu_os.Ram.Isolation.{user_write_confined, user_write_escapes}
use kagu_os.Std.Text.{codes}
use kagu_os.Ram.{read, store, write}
use kagu_os.Examples.{process_ram-write, process_ram, process_ram-IsProcess, codes}

read-write_example : read (pos 20) (store 70 (codes "x") process_ram) ≡ ok (codes "x")
read-write_example =
    read-write 20 (codes "x") process_ram (store 70 (codes "x") process_ram)
      (process 50 90 process_ram-IsProcess) process_ram-write

read-write_ne_example : read (pos 21) (store 70 (codes "x") process_ram) ≡ read (pos 21) process_ram
read-write_ne_example =
    read-write_ne 20 21 (codes "x") process_ram (store 70 (codes "x") process_ram)
      (process 50 90 process_ram-IsProcess) process_ram-write (λ e. omega (arith, e))

user_write_confined_example :
    ((store 70 (codes "x") process_ram).cells 23 ≡ process_ram.cells 23)
    × ((store 70 (codes "x") process_ram).kernel_mode ≡ process_ram.kernel_mode)
    × ((store 70 (codes "x") process_ram).size ≡ process_ram.size)
user_write_confined_example =
    user_write_confined 20 50 90 23 (codes "x") process_ram (store 70 (codes "x") process_ram)
      process_ram-IsProcess process_ram-write (omega arith) (inl (omega arith))

user_write_escapes_example :
    write (sub_ℕ 16 50) (codes "7") process_ram ≡ ok (store 16 (codes "7") process_ram)
user_write_escapes_example =
    user_write_escapes 16 50 90 (codes "7") process_ram process_ram-IsProcess (omega arith)
