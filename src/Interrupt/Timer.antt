-- ===== src/Interrupt/Timer.antt =====
-- The countdown of the hardware timer.
use kagu_os.Prelude.{
  ℕ, zero, suc, ◌+◌, ◌^◌, ◌≤◌, ◌<◌, ◌≡◌, refl, Bool, true, false, none, some, List, [], ◌∷◌, ◌++◌,
  arith, update_self, update-update, replicate, ℤ, ◌-ℤ◌, pos,
}
use kagu_os.Std.Text.{Bytes, codes}
use kagu_os.Std.Fault.{Result, ok, ◌>>=◌}
use kagu_os.Std.Number.{fits_int, to_string, stoi}
use kagu_os.Std.Number.RoundTrip.{stoi-to_string, is_empty-to_string}
use kagu_os.Kagu.Registers.{address, sys_hw_timer}
use kagu_os.Ram.{Ram, store, direct_read}
use kagu_os.Ram.Direct.{direct_read_ok, direct_write_ok}
use kagu_os.Interrupt.{tick, tick_text, check_timer}

-- The timer checked so often in a row, with the answers in order.
unfoldable pub checks : ℕ → Ram → Result (List Bool × Ram)
checks zero ram = ok ([], ram)
checks (suc n) ram = do
  (fired, ram') ← check_timer ram
  (rest, ram'') ← checks n ram'
  ok (fired ∷ rest, ram'')

zero_add : (k : ℕ) → 0 + k ≡ k
zero_add k = omega arith

suc_add : (n k : ℕ) → suc n + k ≡ suc (n + k)
suc_add n k = omega arith

tick_pos : (n : ℕ) → tick (pos (suc n)) ≡ (false, some (to_string (pos n)))
unfolding tick ◌-ℤ◌
tick_pos n = ground arith

tick_text-to_string : (z : ℤ) → fits_int z ≡ true → tick_text (to_string z) ≡ tick z
unfolding tick_text
tick_text-to_string z f = rw (is_empty-to_string z, stoi-to_string z f)

module _ (ram : Ram) (user : ram.kernel_mode ≡ false) (room : address sys_hw_timer ≤ ram.size) where
  read_timer : direct_read (pos (address sys_hw_timer)) ram ≡ ok (ram.cells (address sys_hw_timer))
  read_timer = direct_read_ok 27 ram (omega arith) room

  -- A tick that writes the timer.
  check_timer_writes :
      (fired : Bool) (text : Bytes)
      → tick_text (ram.cells (address sys_hw_timer)) ≡ (fired, some text)
      → check_timer ram ≡ ok (fired, store (address sys_hw_timer) text ram)
  unfolding check_timer
  check_timer_writes fired text h =
      simp (user, read_timer, h, direct_write_ok 27 text ram (omega arith) room)

  check_timer_keeps :
      (fired : Bool)
      → tick_text (ram.cells (address sys_hw_timer)) ≡ (fired, none)
      → check_timer ram ≡ ok (fired, ram)
  unfolding check_timer
  check_timer_keeps fired h = simp (user, read_timer, h)

-- In user mode a disabled timer never fires and stays disabled.
disabled_checks :
    (k : ℕ) (ram : Ram)
    → ram.kernel_mode ≡ false
    → address sys_hw_timer ≤ ram.size
    → ram.cells (address sys_hw_timer) ≡ codes "-1"
    → checks k ram ≡ ok (replicate k false, ram)
unfolding checks
disabled_checks zero ram user room t = refl
disabled_checks (suc k) ram user room t = rw (
  check_timer_keeps ram user room false (rw t (unfold tick_text tick stoi in refl)),
  disabled_checks k ram user room t,
)

-- In user mode, in a memory that has the register of the timer, a timer that holds a number n that
-- fits an `int` answers n checks with "not yet" and the next one with "now",
-- and every later check with "not yet" again: the timer is disabled from then on.
pub timer_countdown :
    (n k : ℕ) (ram : Ram)
    → ram.kernel_mode ≡ false
    → address sys_hw_timer ≤ ram.size
    → ram.cells (address sys_hw_timer) ≡ to_string (pos n)
    → n < 2 ^ 31
    → checks (suc (n + k)) ram
      ≡ ok (
        replicate n false ++ true ∷ replicate k false,
        store (address sys_hw_timer) (codes "-1") ram,
      )
unfolding checks
timer_countdown zero k ram user room t h =
    let disabled = store (address sys_hw_timer) (codes "-1") ram in
    rw (
      check_timer_writes ram user room true (codes "-1")
          (rw (t, tick_text-to_string (pos 0) (unfold fits_int in refl)) (unfold tick in refl)),
      zero_add k,
      disabled_checks k disabled user room (update_self ram.cells 27 (codes "-1")),
    )
timer_countdown (suc n) k ram user room t h =
    let next = store (address sys_hw_timer) (to_string (pos n)) ram in
    rw (
      suc_add n k,
      check_timer_writes ram user room false (to_string (pos n)) (
          rw (t, tick_text-to_string (pos (suc n)) (unfold fits_int in ground arith)) (tick_pos n)),
      timer_countdown n k next user room (update_self ram.cells 27 (to_string (pos n)))
          (omega arith),
      update-update ram.cells 27 (to_string (pos n)) (codes "-1"),
    )
