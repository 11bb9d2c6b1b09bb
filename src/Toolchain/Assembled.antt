-- ===== src/Toolchain/Assembled.antt =====
-- Assembled instructions, run by the processor in kernel mode.
use kagu_os.Prelude.{
  ℕ, zero, suc, ◌+◌, ◌^◌, ◌≤◌, ◌<◌, ◌≡◌, ap, sym, subst, ◌∙◌, Bool, true, Option, none, some, List,
  [], ◌∷◌, ◌++◌, append_assoc, arith, length, get_elem?, get_elem?-bound, pos,
}
use kagu_os.Ram.Locate.{locate_kernel}
use kagu_os.Std.Fault.{Result, ok}
use kagu_os.Cpu.Machine.Jumps.{jump_lands}
use kagu_os.Toolchain.Code.{Tail, jump_line, copy_line-Runs}
use kagu_os.Asm.Layout.{resolve_constant}
use kagu_os.Cpu.Step.{execute_instruction}
use kagu_os.Cpu.Machine.{continue, ◌>>◌, jump_next}
use kagu_os.Kagu.Registers.{program_counter}
use kagu_os.Cpu.Machine.Runs.{Runs, with_ram}
use kagu_os.Asm.Compile.Image.{IsLaidOut, Holds, length-image}
use kagu_os.Cpu.Machine.{Machine, jump}
use kagu_os.Asm.Compile.{image}
use kagu_os.Ram.{Ram, store, reading, writing}
use kagu_os.Cpu.Float.{FloatOps}
use kagu_os.Std.Text.{Bytes, codes}
use kagu_os.Std.Number.{to_string}
use kagu_os.Std.Map.{lookup}
use kagu_os.Asm.Lexer.{Lexeme}
use kagu_os.Asm.State.{Compiler, VariableInfo, LabelInfo, done, ConstantInfo}
use kagu_os.Asm.Emit.{emit_instruction}
use kagu_os.Asm.Lines.Constants.{HasConstant, write_and_rest, write_and_rest-HasConstant}
use kagu_os.Asm.State.Leaves.{Leaves}
use kagu_os.Std.Files.{Files}
use kagu_os.Toolchain.Written.{Writes, Writes-key, constant_of-Writes, resolve_constant-Writes}
use kagu_os.Asm.Lexer
use kagu_os.Kagu.Registers.{address, program_counter}
use kagu_os.Toolchain.Printed.{joined_words, at_instruction, final_line, instruction_line}
use kagu_os.Toolchain.Instructions.{
  write_to, word, jump_to, two_addresses, one_address, write_line, jump_words, no_hash_two,
  no_hash_one,
}

-- The memory holds the lines of the image at the addresses of the layout.
abbrev pub IsLoaded : List Bytes → Compiler → Ram → Type 0
IsLoaded code c ram =
    (k : ℕ) (line : Bytes)
    → get_elem? (image code c) k ≡ some line
    → ram.cells (c.first_instruction_no + k) ≡ line

code_in_image : (code : List Bytes) (c : Compiler) → length code ≤ length (image code c)
code_in_image code c = omega (arith, length-image code c)

jump_to_address :
    (a : ℕ) (m : Machine)
    → 1 ≤ a
    → a < 2 ^ 31
    → address program_counter ≤ m.ram.size
    → Runs
        (jump (pos a) >> jump_next)
        m
        tt
        (with_ram m (store (address program_counter) (to_string (pos a)) m.ram))
jump_to_address zero m low fits room = absurd (omega arith)
jump_to_address (suc a) m low fits room = jump_lands m a room fits

some-injective : {a b : ConstantInfo} → ◌≡◌ {A = Option ConstantInfo} (some a) (some b) → a ≡ b
some-injective e = cc

-- The state that the first pass leaves has the constant of a `write` that it has read.
has_constant :
    {c : Compiler} (arg : Lexeme) (key first text : Bytes) (cmd : Lexeme) (ls : List Lexeme)
    (syntax : Bytes) (rest : List Bytes) (fs : Files) (paths : List Bytes) (c0 : Compiler)
    (found : Bool)
    → Writes c.labels arg.type arg.value key first text
    → lookup key c0.constants_index ≡ none
    → write_and_rest syntax (cmd ∷ arg ∷ ls) rest fs paths c0 ≡ done found c
    → HasConstant key first c
has_constant {c} arg key first text cmd ls syntax rest fs paths c0 found w new read =
    subst (Leaves (λ (_ : Bool) c'. HasConstant key first c')) read (
      write_and_rest-HasConstant key first syntax cmd arg ls rest fs paths c0
        (constant_of-Writes c.labels arg.type arg.value key first text c0.symbol_table w)
        (Writes-key c.labels arg.type arg.value key first text w) new)

module _ (float : FloatOps) (c c' : Compiler) (code : List Bytes) (m : Machine)
    (laid : IsLaidOut c code c') (loaded : IsLoaded code c' m.ram)
    (kernel : m.ram.kernel_mode ≡ true) (above : 1 ≤ c'.first_instruction_no)
    (room : c'.next_instr_address ≤ suc m.ram.size) (small : suc m.ram.size < 2 ^ 31) where
  inside :
      (a : ℕ) (line : Bytes)
      → Holds code c' a line
      → (1 ≤ a) × (a ≤ m.ram.size) × (a < 2 ^ 31) × (m.ram.cells a ≡ line)
  inside a line (k, e, at) =
      let short = get_elem?-bound (image code c') k line at in
      (
        omega (arith, e, above),
        omega (arith, e, short, laid.filled, room),
        omega (arith, e, short, laid.filled, room, small),
        rw e (loaded k line at),
      )

  run_copy :
      (a d : ℕ) (v line t : Bytes)
      → (1 ≤ a) × (a ≤ m.ram.size) × (a < 2 ^ 31) × (m.ram.cells a ≡ v)
      → 1 ≤ d
      → d ≤ m.ram.size
      → Tail t
      → line ≡ joined_words [] (codes "1" ∷ to_string (pos a) ∷ [] ∷ to_string (pos d) ∷ []) ++ t
      → Runs (execute_instruction float line) m tt (with_ram m (store d v m.ram))
  run_copy a d v line t (a1, a2, a3, cell) d1 d2 tail line_is =
      ap (λ (l : Bytes). execute_instruction float l m)
        (line_is
          ∙ ap (λ (s : Bytes). s ++ t) (two_addresses a d)
          ∙ ap (λ (s : Bytes). b'1' ∷ 32 ∷ s)
              (append_assoc (to_string (pos a)) (32 ∷ to_string (pos d)) t))
      ∙ copy_line-Runs float t tail a d a d m a3 (omega (arith, d2, small))
          (locate_kernel reading a m.ram kernel a1 a2) (locate_kernel writing d m.ram kernel d1 d2)
      ∙ ap (λ (v : Bytes). stored d v) cell
    where
      stored : ℕ → Bytes → Result (Unit {0}) × Machine
      stored d v = (ok tt, with_ram m (store d v m.ram))

  -- Take a machine in kernel mode whose memory holds the image of a layout at its addresses, and a
  -- `write` of a constant to a variable whose line the first pass has read on the way to that
  -- layout, the first one with its constant. Running the line that the assembler prints for it, with the
  -- comment behind it or without, stores in the cell of the variable what the source says: the
  -- characters of a string, the digits of a number, the number of a symbol, the name of a keyboard
  -- mode, or the address of a label. It changes nothing else.
  pub write_stores :
      (file : Bytes) (n : ℕ) (arg : Lexeme) (y key first text : Bytes) (vi : VariableInfo)
      (syntax : Bytes) (rest : List Bytes) (fs : Files) (paths : List Bytes) (c0 : Compiler)
      (found : Bool)
      → Writes c.labels arg.type arg.value key first text
      → lookup key c0.constants_index ≡ none
      → write_and_rest syntax (write_to file n arg y).lexemes rest fs paths c0 ≡ done found c
      → lookup y c'.variables ≡ some vi
      → (line : Bytes) × (emit_instruction (write_to file n arg y) c'
          ≡ done line (at_instruction (write_to file n arg y) c'))
        × Runs
            (execute_instruction float (final_line c'.debug_info line))
            m
            tt
            (with_ram m (store vi.address text m.ram))
  write_stores file n arg y key first text vi syntax rest fs paths c0 found w new read vy =
      let (i, ci', at, ci_at', is', first') =
        has_constant arg key first text (word Lexer.command (codes "write"))
          (word Lexer.keyword_to (codes "to") ∷ word Lexer.variable y ∷ []) syntax rest fs paths c0
          found w new read in
      let (a, ci, addr, ci_at, is, holds) = laid.constants key i at in
      let stored : (resolve_constant c.labels ci).evaluated_value ≡ text =
        resolve_constant-Writes c.labels arg.type arg.value key first text ci w is (
          ap (λ (x : ConstantInfo). x.evaluated_value) (some-injective (sym ci_at ∙ ci_at'))
          ∙ first') in
      let (a1, a2, a3, cell) = inside a (resolve_constant c.labels ci).evaluated_value holds in
      let (d1, d2, d3, _) = inside vi.address [] (laid.variables y vi vy) in
      let (line, t, printed, tail, line_is) =
        instruction_line (write_to file n arg y)
          (codes "1" ∷ to_string (pos a) ∷ [] ∷ to_string (pos vi.address) ∷ []) c'
          (write_line file n arg y key first a vi c'
            (constant_of-Writes c.labels arg.type arg.value key first text c'.symbol_table w) addr
            vy)
          (no_hash_two a vi.address) in
      (
        line,
        printed,
        run_copy a vi.address text (final_line c'.debug_info line) t (a1, a2, a3, cell ∙ stored) d1
            d2 tail line_is,
      )

  -- In a machine in kernel mode whose memory holds the image of a layout at its addresses, running the
  -- line that the assembler prints for a `jump` to a label and then
  -- the increment in front of the next fetch leaves the address of the label in the program counter,
  -- and changes nothing else.
  pub jump_reaches :
      (file : Bytes) (n : ℕ) (x : Bytes) (li : LabelInfo)
      → lookup x c'.labels ≡ some li
      → address program_counter ≤ m.ram.size
      → (line : Bytes) × (emit_instruction (jump_to file n x) c'
          ≡ done line (at_instruction (jump_to file n x) c'))
        × Runs
            (execute_instruction float (final_line c'.debug_info line) >> jump_next)
            m
            tt
            (with_ram m (store (address program_counter) (to_string (pos li.address)) m.ram))
  jump_reaches file n x li h pc =
      let (line, t, printed, tail, line_is) =
        instruction_line (jump_to file n x) (codes "2" ∷ to_string (pos li.address) ∷ []) c'
          (jump_words file n x li c' h) (no_hash_one li.address) in
      let (low, high) = laid.labels x li h in
      let end : length code ≤ length (image code c') = code_in_image code c' in
      let fits : li.address < 2 ^ 31 = omega (arith, high, end, laid.filled, room, small) in
      (
        line,
        printed,
        ap (λ (l : Bytes). (execute_instruction float l >> jump_next) m)
              (line_is ∙ ap (λ (s : Bytes). s ++ t) (one_address li.address))
            ∙ ap (continue (λ _. jump_next)) (jump_line float t tail li.address m fits)
            ∙ jump_to_address li.address m (omega (arith, low, above)) fits pc,
      )
