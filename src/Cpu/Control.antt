-- ===== src/Cpu/Control.antt =====
-- The operands of instructions, `resolveAddress`, `executeCopy` and the conditional jumps of cpu.cpp.
pub mod Plain
use kagu_os.Prelude.{◌+◌, Bool, not, Option, none, some, [], ◌∷◌, ◌==◌, if◌then◌else◌, ℤ}
use kagu_os.Std.Text.{Bytes, codes, beq, is_empty, find, drop}
use kagu_os.Std.Fault.{cpu_exception}
use kagu_os.Std.Number.{stoi}
use kagu_os.Kagu.Registers.{reg_bool_res, reg_error}
use kagu_os.Cpu.Machine.{Exec, ◌>>=◌, pure, raise, lift, on_ram, of_ram, read_reg, jump}
use kagu_os.Ram

-- The text behind the first blank; the whole text where there is none.
unfoldable pub behind_blank : Bytes → Bytes
behind_blank s = elim (find (32 ∷ []) s) [ none ↦ s | some n ↦ drop (n + 1) s ]

-- `resolveAddress`, and the operands of a copy: a star in front reads the cell.
abbrev pub starred : Bytes → Option Bytes
starred [] = none
starred (c ∷ s) = if c == b'*' then some s else none

abbrev pub literal : Bytes → Option Bytes
literal [] = none
literal (c ∷ s) = if c == b'@' then some s else none

indirect : Bytes → Exec Bytes
indirect s = do addr ← lift (stoi s); of_ram (Ram.read addr)

unfoldable pub resolve_address : Bytes → Exec ℤ
unfolding indirect
resolve_address addr =
    if is_empty addr then raise (cpu_exception (codes "Empty address")) else elim (starred addr) [
      | none ↦ lift (stoi addr)
      | some s ↦ (do v ← indirect s; lift (stoi v))
    ]

unfoldable pub operand : Bytes → Exec Bytes
unfolding indirect
operand s = elim (starred s) [ none ↦ pure s | some rest ↦ indirect rest ]

-- The text that is copied: what stands behind an at sign, or a cell.
unfoldable pub source : Bytes → Bytes → Exec Bytes
source src src_addr = elim (literal src) [
  | some text ↦ pure text
  | none ↦ (do from ← lift (stoi src_addr); of_ram (Ram.read from))
]

-- `executeCopy`. C++ leaves open which of two texts that are no numbers is reported first; here it
-- is the destination's.
unfoldable pub execute_copy : Bytes → Bytes → Exec (Unit {0})
unfolding operand source
execute_copy src dest = do
  src_addr ← operand src
  dest_addr ← operand dest
  to ← lift (stoi dest_addr)
  v ← source src src_addr
  on_ram (Ram.write to v)

-- `jumpIf`, `jumpIfNot` and `jumpErr`: the address has been resolved before the test.
abbrev jump_when : Bool → ℤ → Exec (Unit {0})
jump_when b addr = if b then jump addr else pure tt

unfoldable pub jump_if : ℤ → Exec (Unit {0})
jump_if addr = do flag ← read_reg reg_bool_res; jump_when (beq flag (codes "1")) addr

unfoldable pub jump_if_not : ℤ → Exec (Unit {0})
jump_if_not addr = do flag ← read_reg reg_bool_res; jump_when (beq flag (codes "0")) addr

unfoldable pub jump_err : ℤ → Exec (Unit {0})
jump_err addr = do err ← read_reg reg_error; jump_when (not (is_empty err)) addr
