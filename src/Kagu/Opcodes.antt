-- ===== src/Kagu/Opcodes.antt =====
-- opcodes.hpp: the instructions, the operations, and what the CPU asks about an operation's number.
use kagu_os.Prelude.{
  ℕ, ◌≡◌, refl, Bool, ◌&&◌, ◌||◌, not, Option, none, some, List, [], ◌∷◌, arith, ◌==◌, get_elem?, ℤ,
  leb_ℤ, eqb_ℤ, pos, negsuc,
}

pub data Instruction : Type 0 where
  cpu_exec copy_from_to_address jump jump_if jump_if_not jump_err debug : Instruction

-- `toInt(Instruction)`
abbrev pub instruction_code : Instruction → ℕ
instruction_code cpu_exec = 0
instruction_code copy_from_to_address = 1
instruction_code jump = 2
instruction_code jump_if = 3
instruction_code jump_if_not = 4
instruction_code jump_err = 5
instruction_code debug = 6

-- `fromInt<Instruction>`; `none` is a number with no enumerator, the `default` of a switch.
unfoldable pub instruction_of : ℤ → Option Instruction
instruction_of (pos n) =
    get_elem?
      (cpu_exec ∷ copy_from_to_address ∷ jump ∷ jump_if ∷ jump_if_not ∷ jump_err ∷ debug ∷ []) n
instruction_of (negsuc n) = none

pub data Operation : Type 0 where
  add sub incr decr div modulo mul : Operation
  is_num cmp_eq cmp_neq cmp_lt cmp_le : Operation
  contains get_length starts_with get_column replace_column concat_with : Operation
  read_input display display_ln read_block write_block : Operation
  set_background_color render_bitmap sys_call sys_return encrypt_data decrypt_data : Operation
  nop halt unknown : Operation

-- `toInt(Operation)`
abbrev pub operation_code : Operation → ℕ
operation_code add = 0
operation_code sub = 1
operation_code incr = 2
operation_code decr = 3
operation_code div = 4
operation_code modulo = 5
operation_code mul = 6
operation_code is_num = 7
operation_code cmp_eq = 8
operation_code cmp_neq = 9
operation_code cmp_lt = 10
operation_code cmp_le = 11
operation_code contains = 12
operation_code get_length = 13
operation_code starts_with = 14
operation_code get_column = 15
operation_code replace_column = 16
operation_code concat_with = 17
operation_code read_input = 18
operation_code display = 19
operation_code display_ln = 20
operation_code read_block = 21
operation_code write_block = 22
operation_code set_background_color = 23
operation_code render_bitmap = 24
operation_code sys_call = 25
operation_code sys_return = 26
operation_code encrypt_data = 27
operation_code decrypt_data = 28
operation_code nop = 29
operation_code halt = 30
operation_code unknown = 31

abbrev pub operations : List Operation
operations =
    add ∷ sub ∷ incr ∷ decr ∷ div ∷ modulo ∷ mul ∷ is_num ∷ cmp_eq ∷ cmp_neq ∷ cmp_lt ∷ cmp_le
    ∷ contains ∷ get_length ∷ starts_with ∷ get_column ∷ replace_column ∷ concat_with ∷ read_input
    ∷ display ∷ display_ln ∷ read_block ∷ write_block ∷ set_background_color ∷ render_bitmap
    ∷ sys_call ∷ sys_return ∷ encrypt_data ∷ decrypt_data ∷ nop ∷ halt ∷ unknown ∷ []

-- `fromInt<Operation>`; an `int` with no enumerator is `none`.
unfoldable pub operation_of : ℤ → Option Operation
operation_of (pos n) = get_elem? operations n
operation_of (negsuc n) = none

-- These are asked of any number, with an enumerator or without.
unfoldable pub is_privileged : ℤ → Bool
is_privileged z =
    leb_ℤ (pos (operation_code read_input)) z && not (eqb_ℤ z (pos (operation_code sys_call)))

unfoldable pub is_arithmetic : ℤ → Bool
is_arithmetic z = leb_ℤ (pos (operation_code add)) z && leb_ℤ z (pos (operation_code mul))

unfoldable pub is_comparison : ℤ → Bool
is_comparison z = leb_ℤ (pos (operation_code cmp_eq)) z && leb_ℤ z (pos (operation_code cmp_le))

unfoldable pub is_string_operation : ℤ → Bool
is_string_operation z =
    leb_ℤ (pos (operation_code contains)) z && leb_ℤ z (pos (operation_code concat_with))

unfoldable pub is_io_operation : ℤ → Bool
is_io_operation z =
    leb_ℤ (pos (operation_code read_input)) z && leb_ℤ z (pos (operation_code display_ln))

unfoldable pub is_disk_operation : ℤ → Bool
is_disk_operation z =
    leb_ℤ (pos (operation_code read_block)) z && leb_ℤ z (pos (operation_code write_block))

-- The switch of `getOperationCost`.
unfoldable pub get_operation_cost : Option Operation → ℕ
get_operation_cost (some div) = 2
get_operation_cost (some modulo) = 2
get_operation_cost (some contains) = 2
get_operation_cost (some starts_with) = 2
get_operation_cost (some get_column) = 3
get_operation_cost (some replace_column) = 3
get_operation_cost (some concat_with) = 3
get_operation_cost (some read_input) = 10
get_operation_cost (some display) = 5
get_operation_cost (some display_ln) = 5
get_operation_cost (some read_block) = 10
get_operation_cost (some write_block) = 10
get_operation_cost (some set_background_color) = 3
get_operation_cost (some render_bitmap) = 20
get_operation_cost (some sys_call) = 5
get_operation_cost (some sys_return) = 5
get_operation_cost (some encrypt_data) = 15
get_operation_cost (some decrypt_data) = 15
get_operation_cost (some halt) = 0
get_operation_cost _ = 1

pub operation_of-operation_code :
    (op : Operation) → operation_of (pos (operation_code op)) ≡ some op
unfolding operation_of
operation_of-operation_code add = refl
operation_of-operation_code _ = refl

pub instruction_of-instruction_code :
    (i : Instruction) → instruction_of (pos (instruction_code i)) ≡ some i
unfolding instruction_of
instruction_of-instruction_code cpu_exec = refl
instruction_of-instruction_code _ = refl

-- The unprivileged operations are the arithmetic ones, IsNum, the comparisons, the string
-- operations and SysCall, and no other number from 0 upwards.
is_privileged_iff :
    (n : ℕ)
    → not (is_privileged (pos n)) ≡ (
        is_arithmetic (pos n)
        || ((n == 7) || (is_comparison (pos n) || (is_string_operation (pos n) || (n == 25)))))
unfolding is_privileged is_arithmetic is_comparison is_string_operation
is_privileged_iff n = ground arith
