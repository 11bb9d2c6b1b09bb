-- ===== src/Cpu/Control/Plain.antt =====
-- Operands that are printed numbers, without a star or an at sign.
use kagu_os.Prelude.{ℕ, ◌≡◌, refl, ap, ◌∙◌, true, Option, none, some, [], ◌∷◌, arith, ℤ, pos}
use kagu_os.Ram.ReadWrite.{read-located, write-located}
use kagu_os.Std.Text.{Bytes}
use kagu_os.Std.Fault.{ok, Result}
use kagu_os.Std.Number.{starts_with_digit, stoi}
use kagu_os.Ram.{store, reading, writing, locate, read}
use kagu_os.Cpu.Machine.{◌>>=◌, pure, Machine, lift, settle, of_ram, Exec}
use kagu_os.Cpu.Machine.Runs.{Runs, with_ram, Runs-bind}
use kagu_os.Cpu.Control.{
  execute_copy, resolve_address, operand, source, literal, pure, lift, of_ram, Exec,
}

pub resolve_plain :
    (s : Bytes) (z : ℤ) (m : Machine)
    → starts_with_digit s ≡ true
    → stoi s ≡ ok z
    → Runs (resolve_address s) m z m
unfolding resolve_address
resolve_plain [] z m h e = cc
resolve_plain (c ∷ s) z m h e = ground (arith, h, e)

operand_plain : (s : Bytes) (m : Machine) → starts_with_digit s ≡ true → Runs (operand s) m s m
unfolding operand
operand_plain [] m h = refl
operand_plain (c ∷ s) m h = ground (arith, h)

no_literal : (s : Bytes) → starts_with_digit s ≡ true → literal s ≡ none
no_literal [] h = cc
no_literal (c ∷ s) h = ground (arith, h)

-- What the copy reads from a plain source.
source_plain :
    (s : Bytes) (z : ℤ) (v : Bytes) (m : Machine)
    → starts_with_digit s ≡ true
    → stoi s ≡ ok z
    → read z m.ram ≡ ok v
    → Runs (source s s) m v m
unfolding source
source_plain s z v m h e r =
    let chosen : Option Bytes → Exec Bytes =
      λ o. elim o [ some text ↦ pure text | none ↦ lift (stoi s) >>= λ from. of_ram (read from) ] in
    ap (λ o. chosen o m) (no_literal s h)
    ∙ Runs-bind (lift (stoi s)) (λ from. of_ram (read from)) z v m m m
        (ap (λ (x : Result ℤ). (x, m)) e) (ap (λ (x : Result Bytes). (x, m)) r)

-- Between two plain operands the one cell is copied to the other.
pub copy_plain :
    (src dest : Bytes) (a d p q : ℕ) (m : Machine)
    → starts_with_digit src ≡ true
    → starts_with_digit dest ≡ true
    → stoi src ≡ ok (pos a)
    → stoi dest ≡ ok (pos d)
    → locate reading (pos a) m.ram ≡ ok p
    → locate writing (pos d) m.ram ≡ ok q
    → Runs (execute_copy src dest) m tt (with_ram m (store q (m.ram.cells p) m.ram))
unfolding execute_copy
copy_plain src dest a d p q m hs hd es ed ra wd =
    let m' = with_ram m (store q (m.ram.cells p) m.ram) in
    Runs-bind (operand src) _ src tt m m m' (operand_plain src m hs) (
      Runs-bind (operand dest) _ dest tt m m m' (operand_plain dest m hd) (
        Runs-bind (lift (stoi dest)) _ (pos d) tt m m m' (ap (λ (x : Result ℤ). (x, m)) ed) (
          Runs-bind (source src src) _ (m.ram.cells p) tt m m m'
            (source_plain src (pos a) (m.ram.cells p) m hs es (read-located (pos a) p m.ram ra))
            (ap (settle m) (write-located (pos d) q (m.ram.cells p) m.ram wd)))))
