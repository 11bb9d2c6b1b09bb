-- ===== src/Cpu/Execute/Confined.antt =====
-- What the unprivileged operations of cpu.cpp may change, apart from the system call.
use kagu_os.Prelude.{
  ℕ, zero, suc, ◌≡◌, refl, sym, ap, ◌∙◌, subst, inl, inr, Bool, true, false, ◌||◌, Option, none,
  some, [], arith, update_ne, ltb, ◌==◌, if◌then◌else◌, Bool-cases, if_intro, ℤ, pos,
}
use kagu_os.Kagu.Opcodes.{Operation, operation_code}
use kagu_os.Cpu.Float.{FloatOps}
use kagu_os.Cpu.Execute.{
  put_bool, put_found, put_position, put_res, Outcome, codes, execute_operation, Operands,
  put_outcome, value, reported, add_energy, read_direct, write_direct, is_empty,
}
use kagu_os.Std.Text.{Bytes, codes, is_empty}
use kagu_os.Std.Fault.{ram_violation, Result, ok, fail}
use kagu_os.Kagu.Registers.{Address, address, reg_res, reg_bool_res, reg_error, sys_energy}
use kagu_os.Ram.{direct_message, store, write_register, is_barred, direct_write, Ram}
use kagu_os.Cpu.Machine.{
  Machine, continue, ◌>>=◌, lift, write_reg, settle, read_direct, write_direct,
}
use kagu_os.Std.Number.{stoi, int_add, to_string}
use kagu_os.Kagu.Opcodes

-- The cells of the three registers of results, and of the energy.
unfoldable pub is_result : ℕ → Bool
is_result i =
    i == address reg_res
    || (i == address reg_bool_res || (i == address reg_error || i == address sys_energy))

-- A machine that differs from an earlier one in those cells alone.
pub record Differs (m m' : Machine) : Type 0 where
  pub others : record m' { ram = m.ram } ≡ m
  pub size : m'.ram.size ≡ m.ram.size
  pub mode : m'.ram.kernel_mode ≡ m.ram.kernel_mode
  pub cells : (i : ℕ) → is_result i ≡ false → m'.ram.cells i ≡ m.ram.cells i

pub Differs-refl : (m : Machine) → Differs m m
Differs-refl m = record { others = refl; size = refl; mode = refl; cells = λ i h. refl }

Differs-trans : (a b c : Machine) → Differs a b → Differs b c → Differs a c
Differs-trans a b c p q = record {
  others = ap (λ (m : Machine). record m { ram = a.ram }) q.others ∙ p.others;
  size = q.size ∙ p.size;
  mode = q.mode ∙ p.mode;
  cells = λ i h. q.cells i h ∙ p.cells i h;
}

-- An action that changes those cells alone, whether it ends or throws.
abbrev pub Confined {ℓ} : {A : Type ℓ} → (Machine → Result A × Machine) → Type 0
Confined p = (m : Machine) → Differs m (p m).1

module _ {ℓ κ} {A : Type ℓ} {B : Type κ} where
  continue-Confined :
      (f : A → Machine → Result B × Machine) (m : Machine) (r : Result A) (n : Machine)
      → Differs m n
      → ((a : A) → Confined (f a))
      → Differs m (continue f (r, n)).1
  continue-Confined f m (ok a) n d h = Differs-trans m n (f a n).1 d (h a n)
  continue-Confined f m (fail e) n d h = d

  pub bind-Confined :
      (p : Machine → Result A × Machine) (f : A → Machine → Result B × Machine)
      → Confined p
      → ((a : A) → Confined (f a))
      → Confined (p >>= f)
  bind-Confined p f h k m = continue-Confined f m (p m).0 (p m).1 (h m) k

  lift-Confined :
      (r : Result A) (f : A → Machine → Result B × Machine)
      → ((a : A) → Confined (f a))
      → Confined (lift r >>= f)
  lift-Confined r f k = bind-Confined (lift r) f (λ m. Differs-refl m) k

store-Differs :
    (i : ℕ) (v : Bytes) (m : Machine)
    → is_result i ≡ true
    → Differs m (record m { ram = store i v m.ram })
unfolding is_result
store-Differs i v m h = record {
  others = refl;
  size = refl;
  mode = refl;
  cells = λ j k. update_ne m.ram.cells i j v (λ e. absurd (ground (arith, h, k, e)));
}

write_reg-Confined :
    (r : Address) (v : Bytes) → is_result (address r) ≡ true → Confined (write_reg r v)
unfolding write_register
write_reg-Confined r v h m =
    if_intro (λ (x : Result Ram). Differs m (settle m x).1) (is_barred r m.ram) _ _
      (λ _. Differs-refl m) (λ _. store-Differs (address r) v m h)

outside :
    (n : ℕ) (v : Bytes) (ram : Ram)
    → ltb ram.size (suc n) ≡ true
    → direct_write (pos (suc n)) v ram
      ≡ fail (ram_violation (direct_message (pos (suc n))) (pos (suc n)))
unfolding direct_write
outside n v ram e = ground (arith, e)

inside :
    (n : ℕ) (v : Bytes) (ram : Ram)
    → ltb ram.size (suc n) ≡ false
    → direct_write (pos (suc n)) v ram ≡ ok (store (suc n) v ram)
unfolding direct_write
inside n v ram e = ground (arith, e)

direct_write-Differs :
    (n : ℕ) (v : Bytes) (m : Machine)
    → is_result n ≡ true
    → Differs m (settle m (direct_write (pos n) v m.ram)).1
unfolding direct_write
direct_write-Differs zero v m h = Differs-refl m
direct_write-Differs (suc n) v m h = elim (Bool-cases (ltb m.ram.size (suc n))) [
  | inl e ↦
      subst (λ (r : Result Ram). Differs m (settle m r).1) (sym (outside n v m.ram e))
        (Differs-refl m)
  | inr e ↦
      subst (λ (r : Result Ram). Differs m (settle m r).1) (sym (inside n v m.ram e))
        (store-Differs (suc n) v m h)
]

-- The actions that write one register of a result or two.
put_res-Confined : (v : Bytes) → Confined (put_res v)
put_res-Confined v = write_reg-Confined reg_res v (unfold is_result in refl)

pub put_error-Confined : (v : Bytes) → Confined (write_reg reg_error v)
put_error-Confined v = write_reg-Confined reg_error v (unfold is_result in refl)

put_flag-Confined : (v : Bytes) → Confined (write_reg reg_bool_res v)
put_flag-Confined v = write_reg-Confined reg_bool_res v (unfold is_result in refl)

put_outcome-Confined : (o : Outcome) → Confined (put_outcome o)
put_outcome-Confined (value v) = put_res-Confined v
put_outcome-Confined (reported e) = put_error-Confined e

put_bool-Confined : (b : Bool) → Confined (put_bool b)
put_bool-Confined b = put_flag-Confined (if b then codes "1" else codes "0")

put_found-Confined : (o : Option Bytes) → Confined (put_found o)
put_found-Confined none =
    bind-Confined (write_reg reg_bool_res (codes "0")) _ (put_flag-Confined (codes "0"))
      (λ _. put_res-Confined [])
put_found-Confined (some rest) =
    bind-Confined (write_reg reg_bool_res (codes "1")) _ (put_flag-Confined (codes "1"))
      (λ _. put_res-Confined rest)

put_position-Confined : (o : Option ℕ) → Confined (put_position o)
put_position-Confined none =
    bind-Confined (write_reg reg_res []) _ (put_res-Confined [])
      (λ _. put_flag-Confined (codes "0"))
put_position-Confined (some n) =
    bind-Confined (write_reg reg_res (to_string (pos n))) _ (put_res-Confined (to_string (pos n)))
      (λ _. put_flag-Confined (codes "1"))

-- An operation that user mode may run without a system call.
unfoldable pub is_plain : Option Operation → Bool
is_plain none = true
is_plain (some Opcodes.unknown) = true
is_plain (some op) = ltb (operation_code op) (operation_code Opcodes.read_input)

pub add_energy-Confined : (cost : ℕ) → Confined (add_energy cost)
unfolding add_energy
add_energy-Confined cost =
    let finish : ℤ → Machine → Result (Unit {0}) × Machine = λ current.
      lift (int_add current (pos cost)) >>= λ total. write_direct sys_energy (to_string total) in
    let given : Bytes → Result ℤ = λ text. if is_empty text then ok (pos 0) else stoi text in
    bind-Confined (read_direct sys_energy) (λ text. lift (given text) >>= finish) Differs-refl
      (λ text. lift-Confined (given text) finish (λ current.
        lift-Confined (int_add current (pos cost))
          (λ total. write_direct sys_energy (to_string total))
          (λ total m.
            direct_write-Differs (address sys_energy) (to_string total) m
              (unfold is_result in refl))))

module _ (float : FloatOps) where
  pub execute_operation-Confined :
      (code : ℤ) (op : Option Operation) (o : Operands)
      → is_plain op ≡ true
      → Confined (execute_operation float code op o)
  unfolding execute_operation is_plain
  execute_operation-Confined code (some Opcodes.add) o h = lift-Confined _ _ put_res-Confined
  execute_operation-Confined code (some Opcodes.sub) o h = lift-Confined _ _ put_res-Confined
  execute_operation-Confined code (some Opcodes.incr) o h = lift-Confined _ _ put_res-Confined
  execute_operation-Confined code (some Opcodes.decr) o h = lift-Confined _ _ put_res-Confined
  execute_operation-Confined code (some Opcodes.div) o h = lift-Confined _ _ put_outcome-Confined
  execute_operation-Confined code (some Opcodes.modulo) o h = lift-Confined _ _ put_outcome-Confined
  execute_operation-Confined code (some Opcodes.mul) o h = lift-Confined _ _ put_res-Confined
  execute_operation-Confined code (some Opcodes.is_num) o h = put_bool-Confined _
  execute_operation-Confined code (some Opcodes.cmp_eq) o h = put_bool-Confined _
  execute_operation-Confined code (some Opcodes.cmp_neq) o h = put_bool-Confined _
  execute_operation-Confined code (some Opcodes.cmp_lt) o h = lift-Confined _ _ put_bool-Confined
  execute_operation-Confined code (some Opcodes.cmp_le) o h = lift-Confined _ _ put_bool-Confined
  execute_operation-Confined code (some Opcodes.contains) o h = put_position-Confined _
  execute_operation-Confined code (some Opcodes.get_length) o h = put_res-Confined _
  execute_operation-Confined code (some Opcodes.starts_with) o h = put_found-Confined _
  execute_operation-Confined code (some Opcodes.get_column) o h =
      lift-Confined _ _ (λ column. put_res-Confined _)
  execute_operation-Confined code (some Opcodes.replace_column) o h =
      lift-Confined _ _ (λ column. put_res-Confined _)
  execute_operation-Confined code (some Opcodes.concat_with) o h = put_res-Confined _
  execute_operation-Confined code (some Opcodes.unknown) o h = Differs-refl
  execute_operation-Confined code none o h = Differs-refl
  execute_operation-Confined code (some op) o h = absurd (ground (arith, h))
