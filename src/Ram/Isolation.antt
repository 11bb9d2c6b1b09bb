-- ===== src/Ram/Isolation.antt =====
-- What a user process can reach of the memory through ram.cpp, by addresses on both sides of 0.
use kagu_os.Prelude.{ℕ, ◌^◌, ◌≤◌, ◌<◌, ◌≡◌, refl, ◌⊎◌, none, arith, update_ne, sub_ℕ, ◌+ℤ◌, pos}
use kagu_os.Std.Text.{Bytes}
use kagu_os.Std.Fault.{ok}
use kagu_os.Std.Number.{fits_int, int_add}
use kagu_os.Kagu.Registers.{user_space_end}
use kagu_os.Ram.{Ram, writing, store, locate, write, user_register}
use kagu_os.Ram.Locate.{IsProcess, locate-translate, translate_bounds}
use kagu_os.Ram.Cells.{locate_user_sound, IsCellOf}
use kagu_os.Ram.ReadWrite.{write-ok}

IsCellOf-region :
    (a start end n : ℕ) → IsCellOf a start end n → (n ≤ user_space_end) ⊎ ((start ≤ n) × (n ≤ end))
unfolding IsCellOf
IsCellOf-region a start end n c = omega arith

-- A write by a process with a non-negative address changes no cell outside the user registers and
-- the region of the process, neither the mode nor the size.
pub user_write_confined :
    (a start end m : ℕ) (v : Bytes) (ram ram' : Ram)
    → IsProcess start end ram
    → write (pos a) v ram ≡ ok ram'
    → user_space_end < m
    → (m < start) ⊎ (end < m)
    → (ram'.cells m ≡ ram.cells m) × (ram'.kernel_mode ≡ ram.kernel_mode) × (ram'.size ≡ ram.size)
user_write_confined a start end m v ram ram' p h out far =
    let (n, at, is) = write-ok a v ram ram' h in
    let near = IsCellOf-region a start end n (locate_user_sound writing a start end ram p n at) in
    rw is (update_ne ram.cells n m v (omega arith), refl, refl)

-- Adding the start of the process to a negative address.
add_negative :
    (m start : ℕ) → m < start → start < 2 ^ 31 → int_add (sub_ℕ m start) (pos start) ≡ ok (pos m)
unfolding int_add fits_int ◌+ℤ◌
add_negative m start h small = ground arith

below_no_register : (m start : ℕ) → m < start → user_register (sub_ℕ m start) ≡ none
below_no_register m start h = ground arith

-- The address that reaches cell `m` below the process.
locate_below :
    (m start end : ℕ) (ram : Ram)
    → IsProcess start end ram
    → m < start
    → locate writing (sub_ℕ m start) ram ≡ ok m
locate_below m start end ram p h =
    rw
      (
        locate-translate writing (sub_ℕ m start) ram p.user (below_no_register m start h),
        translate_bounds writing (sub_ℕ m start) ram (pos start) (pos end) p.start_is p.end_is,
        add_negative m start h (omega (arith, p.inside, p.ordered, p.small)),
      )
      (ground (arith, p.ordered, p.inside))

-- Each cell below a process, the kernel's registers and code among them, is overwritten by the
-- process with a negative address: the write succeeds in user mode.
pub user_write_escapes :
    (m start end : ℕ) (v : Bytes) (ram : Ram)
    → IsProcess start end ram
    → m < start
    → write (sub_ℕ m start) v ram ≡ ok (store m v ram)
unfolding write
user_write_escapes m start end v ram p h = rw (locate_below m start end ram p h)
