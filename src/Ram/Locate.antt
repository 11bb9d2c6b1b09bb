-- ===== src/Ram/Locate.antt =====
-- What each access of the memory does, in both modes.
use kagu_os.Prelude.{
  ℕ, zero, suc, ◌+◌, ◌^◌, ◌≤◌, ◌<◌, ◌≡◌, refl, ◌⊎◌, inr, true, false, none, arith, if◌then◌else◌, ℤ,
  ◌+ℤ◌, ◌≤ℤ◌, ltb_ℤ, pos, negsuc,
}
use kagu_os.Std.Fault.{ok, fail, ram_violation, ◌>>=◌}
use kagu_os.Std.Number.{fits_int, int_add}
use kagu_os.Kagu.Registers.{address, user_space_end, kernel_start}
use kagu_os.Ram.{
  Ram, AccessKind, user_register, subscript, get_process_start, get_process_end, locate, translate,
  invalid_message, violation_message,
}

-- In kernel mode an address from 1 to the size is its own cell.
pub locate_kernel :
    (kind : AccessKind) (n : ℕ) (ram : Ram)
    → ram.kernel_mode ≡ true
    → 1 ≤ n
    → n ≤ ram.size
    → locate kind (pos n) ram ≡ ok n
unfolding locate
locate_kernel kind zero ram k h h' = absurd (omega arith)
locate_kernel kind (suc n) ram k h h' = ground arith

-- In kernel mode an address below 1 or above the size is refused for a read and for a write, with
-- the address in the message.
locate_kernel_invalid :
    (kind : AccessKind) (addr : ℤ) (ram : Ram)
    → ram.kernel_mode ≡ true
    → (addr ≤ℤ pos 0) ⊎ (pos (ram.size + 1) ≤ℤ addr)
    → locate kind addr ram ≡ fail (ram_violation (invalid_message kind addr) addr)
unfolding locate
locate_kernel_invalid kind (pos zero) ram k h = ground arith
locate_kernel_invalid kind (pos (suc n)) ram k h = ground arith
locate_kernel_invalid kind (negsuc n) ram k h = ground arith

-- The bounds of the running process, as numbers: it lies above the kernel's registers and
-- constants, and inside the memory, whose addresses are `int`s.
pub record IsProcess (start end : ℕ) (ram : Ram) : Type 0 where
  pub user : ram.kernel_mode ≡ false
  pub start_is : get_process_start ram ≡ pos start
  pub end_is : get_process_end ram ≡ pos end
  pub above : address kernel_start ≤ start
  pub ordered : start + user_space_end ≤ end
  pub inside : end ≤ ram.size
  pub small : ram.size + ram.size < 2 ^ 31

-- In user mode the addresses 1 to 11 are the registers.
pub locate_user_register :
    (kind : AccessKind) (n : ℕ) (ram : Ram)
    → ram.kernel_mode ≡ false
    → 1 ≤ n
    → n ≤ user_space_end
    → locate kind (pos n) ram ≡ ok n
unfolding locate
locate_user_register kind zero ram k h h' = absurd (omega arith)
locate_user_register kind (suc n) ram k h h' = ground arith

pub user_register-none : (n : ℕ) → (n ≡ 0) ⊎ (user_space_end < n) → user_register (pos n) ≡ none
user_register-none zero h = refl
user_register-none (suc n) h = ground arith

pub locate-translate :
    (kind : AccessKind) (addr : ℤ) (ram : Ram)
    → ram.kernel_mode ≡ false
    → user_register addr ≡ none
    → locate kind addr ram ≡ translate kind addr ram
unfolding locate
locate-translate kind addr ram u h = ground arith

-- With the bounds known, the translation is a sum, its test and a subscript.
pub translate_bounds :
    (kind : AccessKind) (addr : ℤ) (ram : Ram) (start end : ℤ)
    → get_process_start ram ≡ start
    → get_process_end ram ≡ end
    → translate kind addr ram ≡ (
        int_add addr start >>= λ translated.
        if ltb_ℤ end translated
        then fail (ram_violation (violation_message kind addr translated) addr)
        else subscript translated ram.size)
unfolding translate get_process_start get_process_end
translate_bounds kind addr ram start end s e = rw (s, e)

pub int_add_pos : (a b : ℕ) → a + b < 2 ^ 31 → int_add (pos a) (pos b) ≡ ok (pos (a + b))
unfolding int_add fits_int ◌+ℤ◌
int_add_pos a b h = ground arith

module _ (kind : AccessKind) (n start end : ℕ) (ram : Ram) (p : IsProcess start end ram) where
  -- An address behind the registers is moved into the process.
  pub locate_user :
      (n ≡ 0) ⊎ (user_space_end < n) → start + n ≤ end → locate kind (pos n) ram ≡ ok (n + start)
  locate_user h fits =
      rw
        (
          locate-translate kind (pos n) ram p.user (user_register-none n h),
          translate_bounds kind (pos n) ram (pos start) (pos end) p.start_is p.end_is,
          int_add_pos n start (omega (arith, p.inside, p.small)),
        )
        (ground arith)

  -- With a process running, an address whose translation is past the end of the process, and fits an
  -- `int`, is a violation for a read and for a write.
  pub locate_user_violation :
      end < start + n
      → n + start < 2 ^ 31
      → locate kind (pos n) ram
        ≡ fail (ram_violation (violation_message kind (pos n) (pos (n + start))) (pos n))
  locate_user_violation past small =
      rw
        (
          locate-translate kind (pos n) ram p.user
              (user_register-none n (inr (omega (arith, p.ordered)))),
          translate_bounds kind (pos n) ram (pos start) (pos end) p.start_is p.end_is,
          int_add_pos n start small,
        )
        (ground arith)
