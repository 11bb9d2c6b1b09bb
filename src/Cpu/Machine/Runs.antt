-- ===== src/Cpu/Machine/Runs.antt =====
-- Runs of actions that end without a fault, one rule for each way to build an action.
use kagu_os.Prelude.{ℕ, suc, ◌^◌, ◌≤◌, ◌<◌, ◌≡◌, ap, ◌∙◌, arith, ℤ, ◌-ℤ◌, pos}
use kagu_os.Std.Text.{Bytes}
use kagu_os.Std.Fault.{Result, ok}
use kagu_os.Std.Number.{stoi, to_string, int_sub, fits_int}
use kagu_os.Kagu.Registers.{Address, address, program_counter, kernel_start}
use kagu_os.Ram.{Ram, store}
use kagu_os.Ram.Direct.{direct_read_ok, direct_write_ok}
use kagu_os.Cpu.Machine.{
  Machine, continue, settle, ◌>>=◌, lift, read_direct, write_direct, get_program_counter,
  set_program_counter, jump,
}

-- The action ends without a fault, with this result and this machine.
abbrev pub Runs {ℓ} : {A : Type ℓ} → (Machine → Result A × Machine) → Machine → A → Machine → Type ℓ
Runs p m a m' = p m ≡ (ok a, m')

abbrev pub with_ram : Machine → Ram → Machine
with_ram m ram = record m { ram = ram }

module _ {ℓ κ} {A : Type ℓ} {B : Type κ} where
  pub Runs-bind :
      (p : Machine → Result A × Machine) (f : A → Machine → Result B × Machine) (a : A) (b : B)
      (m m' m'' : Machine)
      → Runs p m a m'
      → Runs (f a) m' b m''
      → Runs (p >>= f) m b m''
  Runs-bind p f a b m m' m'' h k = ap (continue f) h ∙ k

address_pos : (r : Address) → 1 ≤ address r
address_pos kernel_start = omega arith
address_pos r = omega arith

module _ (r : Address) (m : Machine) (room : address r ≤ m.ram.size) where
  pub Runs-read_direct : Runs (read_direct r) m (m.ram.cells (address r)) m
  Runs-read_direct =
      ap (λ (x : Result Bytes). (x, m)) (direct_read_ok (address r) m.ram (address_pos r) room)

  pub Runs-write_direct :
      (v : Bytes) → Runs (write_direct r v) m tt (with_ram m (store (address r) v m.ram))
  Runs-write_direct v = ap (settle m) (direct_write_ok (address r) v m.ram (address_pos r) room)

-- The program counter, read and written.
pub Runs-get_program_counter :
    (m : Machine) (pc : ℤ)
    → address program_counter ≤ m.ram.size
    → stoi (m.ram.cells (address program_counter)) ≡ ok pc
    → Runs get_program_counter m pc m
unfolding get_program_counter
Runs-get_program_counter m pc room h =
    Runs-bind (read_direct program_counter) (λ text. lift (stoi text))
      (m.ram.cells (address program_counter)) pc m m m (Runs-read_direct program_counter m room)
      (ap (λ (x : Result ℤ). (x, m)) h)

-- The counter that a jump leaves: the next fetch increments it.
pub Runs-jump :
    (m : Machine) (n : ℕ)
    → address program_counter ≤ m.ram.size
    → n < 2 ^ 31
    → Runs
        (jump (pos (suc n)))
        m
        tt
        (with_ram m (store (address program_counter) (to_string (pos n)) m.ram))
unfolding jump set_program_counter
Runs-jump m n room small =
    Runs-bind (lift (int_sub (pos (suc n)) (pos 1))) set_program_counter (pos n) tt m m
      (with_ram m (store (address program_counter) (to_string (pos n)) m.ram))
      (ap (λ (x : Result ℤ). (x, m)) (minus_one n small))
      (Runs-write_direct program_counter m room (to_string (pos n)))
  where
    minus_one : (n : ℕ) → n < 2 ^ 31 → int_sub (pos (suc n)) (pos 1) ≡ ok (pos n)
    minus_one n small = unfold int_sub fits_int ◌-ℤ◌ in ground arith
