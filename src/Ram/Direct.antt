-- ===== src/Ram/Direct.antt =====
-- Direct access to a cell inside the memory.
use kagu_os.Prelude.{ℕ, zero, suc, ◌≤◌, ◌≡◌, arith, pos}
use kagu_os.Std.Text.{Bytes}
use kagu_os.Std.Fault.{ok}
use kagu_os.Ram.{Ram, store, direct_read, direct_write}

pub direct_read_ok :
    (n : ℕ) (ram : Ram) → 1 ≤ n → n ≤ ram.size → direct_read (pos n) ram ≡ ok (ram.cells n)
unfolding direct_read
direct_read_ok zero ram h h' = absurd (omega arith)
direct_read_ok (suc n) ram h h' = ground arith

pub direct_write_ok :
    (n : ℕ) (v : Bytes) (ram : Ram)
    → 1 ≤ n
    → n ≤ ram.size
    → direct_write (pos n) v ram ≡ ok (store n v ram)
unfolding direct_write
direct_write_ok zero v ram h h' = absurd (omega arith)
direct_write_ok (suc n) v ram h h' = ground arith
