-- ===== src/Examples/Assembler.antt =====
-- The theorems on the assembler at a small source.
use kagu_os.Prelude.{
  ℕ, ◌+◌, ◌-◌, ◌≤◌, ◌≡◌, refl, ap, ◌∙◌, Bool, true, false, Option, none, some, List, [], ◌∷◌, ◌++◌,
  arith, if◌then◌else◌, get_elem?, pos,
}
use kagu_os.Asm.Words.{tokenize_line}
use kagu_os.Asm.Main.Status.{IsServed, main_status}
use kagu_os.Asm.Main.{main, parse_arguments}
use kagu_os.Asm.Compile.Refused.{refused_source, IsMalformed}
use kagu_os.Asm.Symbols.Names.{symbols_agree, symbol_of_operation, symbol_of_mode}
use kagu_os.Std.Number.{to_string}
use kagu_os.Kagu.Opcodes.{operation_of}
use kagu_os.Std.Map.{lookup}
use kagu_os.Asm.Lexer.{Lexeme}
use kagu_os.Asm.Compile.Success.{IsAssembled, compile_success}
use kagu_os.Cpu.Tests.{no_floats, fresh}
use kagu_os.Cpu.Step.{execute_instruction}
use kagu_os.Cpu.Machine.Runs.{Runs, with_ram}
use kagu_os.Toolchain.Printed.{at_instruction, final_line}
use kagu_os.Toolchain.Instructions.{write_to, word, jump_to}
use kagu_os.Asm.Layout.{calculate_addresses}
use kagu_os.Asm.Compile.{image, compile}
use kagu_os.Toolchain.Assembled.{IsLoaded, write_stores, jump_reaches}
use kagu_os.Ram.{Ram, store}
use kagu_os.Asm.Emit.{emit_all, emit_instruction}
use kagu_os.Asm.Compile.Image.{IsLaidOut, image-IsLaidOut}
use kagu_os.Std.Text.{Bytes, codes, beq, strip_prefix}
use kagu_os.Std.Files.{Files, lines, replace_file}
use kagu_os.Asm.State.{Compiler, Outcome, done, exited, new, LabelInfo, VariableInfo}
use kagu_os.Asm.State.Leaves.{Leaves}
use kagu_os.Asm.Lines.{pass1, process_lines, perform, read_files, find_command}
use kagu_os.Asm.Lines.Constants.{write_and_rest}
use kagu_os.Toolchain.Written.{of_string}
use kagu_os.Asm.Lines.Built.{IsBuilt, new-IsBuilt}
use kagu_os.Asm.Lines.Instructions.{AllTyped, pass1-AllTyped}
use kagu_os.Asm.Lines.Keeps.{pass1-IsBuilt}
use kagu_os.Kagu.Keyboard.{read_line}
use kagu_os.Kagu.Registers.{address, program_counter}
use kagu_os.Asm.Symbols.{integer, text, lookup_symbol}
use kagu_os.Cpu.Machine.{◌>>◌, jump_next}
use kagu_os.Asm.Lexer
use kagu_os.Kagu.Opcodes
use kagu_os.Kagu.Keyboard

abbrev source : Files
source = record {
  content = λ p.
      if beq p (codes "a.kga")
      then some (codes "var x\nlabel again\nwrite \"hi\" to var:x\njump label:again\n")
      else none;
  writable = λ p. true;
}

abbrev paths : List Bytes
paths = codes "a.kga" ∷ []

pass1-IsBuilt_example : Leaves (λ (_ : Bool) c'. IsBuilt c') (pass1 source paths (new false true))
pass1-IsBuilt_example = pass1-IsBuilt source paths (new false true) (new-IsBuilt false true)

none_typed : AllTyped (new false true)
unfolding new
none_typed = tt

pass1-AllTyped_example : Leaves (λ (_ : Bool) c'. AllTyped c') (pass1 source paths (new false true))
pass1-AllTyped_example = pass1-AllTyped source paths (new false true) none_typed

abbrev state_of {ℓ} : {A : Type ℓ} → Outcome A → Compiler
state_of (done a c) = c
state_of (exited c) = c

abbrev is_done {ℓ} : {A : Type ℓ} → Outcome A → Bool
is_done (done a c) = true
is_done (exited c) = false

state-IsBuilt :
    (o : Outcome Bool)
    → is_done o ≡ true
    → Leaves (λ (_ : Bool) c'. IsBuilt c') o
    → IsBuilt (state_of o)
state-IsBuilt (done a c) h b = b
state-IsBuilt (exited c) h b = cc

abbrev parsed : Compiler
parsed = state_of (pass1 source paths (new false true))

parsed-IsBuilt : IsBuilt parsed
unfolding pass1 lines new
parsed-IsBuilt = state-IsBuilt (pass1 source paths (new false true)) refl pass1-IsBuilt_example

image-IsLaidOut_example :
    Leaves (IsLaidOut parsed) (emit_all parsed.parsed_instructions (calculate_addresses parsed))
image-IsLaidOut_example = image-IsLaidOut parsed parsed-IsBuilt

abbrev code_of : Outcome (List Bytes) → List Bytes
code_of (done ls c) = ls
code_of (exited c) = []

laid_state :
    (o : Outcome (List Bytes))
    → is_done o ≡ true
    → Leaves (IsLaidOut parsed) o
    → IsLaidOut parsed (code_of o) (state_of o)
laid_state (done ls c) h l = l
laid_state (exited c) h l = cc

abbrev code : List Bytes
code = code_of (emit_all parsed.parsed_instructions (calculate_addresses parsed))

abbrev final : Compiler
final = state_of (emit_all parsed.parsed_instructions (calculate_addresses parsed))

laid : IsLaidOut parsed code final
unfolding emit_all pass1 lines new calculate_addresses
laid =
    laid_state (emit_all parsed.parsed_instructions (calculate_addresses parsed)) refl
      image-IsLaidOut_example

abbrev cell : Option Bytes → Bytes
cell none = []
cell (some s) = s

-- A memory of 100 cells with the image behind the address 29.
abbrev loaded_ram : Ram
loaded_ram = record {
  cells = λ a. cell (get_elem? (image code final) (a - final.first_instruction_no));
  size = 100;
  kernel_mode = true;
}

loaded : IsLoaded code final loaded_ram
loaded k line h =
    ap (λ i. cell (get_elem? (image code final) i)) (behind final.first_instruction_no k)
    ∙ ap cell h
  where
    behind : (f k : ℕ) → (f + k) - f ≡ k
    behind f k = omega arith

abbrev x_info : VariableInfo
x_info = record {
  address = 44;
  declaration_address = 41;
  declaration_line = 1;
  file = codes "a.kga";
}

abbrev greeting : Lexeme
greeting = word Lexer.string (codes "hi")

abbrev again_info : LabelInfo
again_info = record { address = 41; declaration_line = 2; file = codes "a.kga" }

-- The state of the first pass in front of the third line of the source, the `write`.
abbrev before_write : Compiler
before_write =
    record (state_of (
      process_lines (codes "var x" ∷ codes "label again" ∷ [])
        (record (new false true) { current_file = codes "a.kga"; current_line_no = 0 }))) {
          current_line_no = 3;
          current_line = codes "write \"hi\" to var:x";
        }

is_new : lookup (codes "\"hi\"") before_write.constants_index ≡ none
unfolding process_lines new lookup
is_new = refl

is_read :
    write_and_rest []
      (write_to [] 1 greeting (codes "x")).lexemes
      (codes "jump label:again" ∷ [])
      source
      []
      before_write
    ≡ done true parsed
unfolding process_lines new pass1 lines perform read_files
is_read = refl

x_is : lookup (codes "x") final.variables ≡ some x_info
unfolding emit_all lookup pass1 lines new calculate_addresses
x_is = refl

again_is : lookup (codes "again") final.labels ≡ some again_info
unfolding emit_all lookup pass1 lines new calculate_addresses
again_is = refl

first_is : final.first_instruction_no ≡ 41
unfolding emit_all new pass1 lines calculate_addresses
first_is = refl

next_is : final.next_instr_address ≡ 45
unfolding emit_all pass1 lines new calculate_addresses
next_is = refl

above : 1 ≤ final.first_instruction_no
above = omega (arith, first_is)

room : final.next_instr_address ≤ 101
room = omega (arith, next_is)

succeeds : (compile source paths (new false true)).succeeded ≡ true
unfolding compile lines new replace_file
succeeds = refl

write_stores_example :
    (line : Bytes) × (emit_instruction (write_to [] 1 greeting (codes "x")) final
      ≡ done line (at_instruction (write_to [] 1 greeting (codes "x")) final))
    × Runs
        (execute_instruction no_floats (final_line final.debug_info line))
        (fresh loaded_ram)
        tt
        (with_ram (fresh loaded_ram) (store 44 (codes "hi") loaded_ram))
write_stores_example =
    write_stores no_floats parsed final code (fresh loaded_ram) laid loaded refl above room
      (omega arith) [] 1 greeting (codes "x") (codes "\"hi\"") (codes "hi") (codes "hi") x_info []
      (codes "jump label:again" ∷ []) source [] before_write true (of_string (codes "hi")) is_new
      is_read x_is

jump_reaches_example :
    (line : Bytes) × (emit_instruction (jump_to [] 2 (codes "again")) final
      ≡ done line (at_instruction (jump_to [] 2 (codes "again")) final))
    × Runs
        (execute_instruction no_floats (final_line final.debug_info line) >> jump_next)
        (fresh loaded_ram)
        tt
        (with_ram
          (fresh loaded_ram)
          (store (address program_counter) (to_string (pos 41)) loaded_ram))
jump_reaches_example =
    jump_reaches no_floats parsed final code (fresh loaded_ram) laid loaded refl above room
      (omega arith) [] 2 (codes "again") again_info again_is (omega arith)

compile_success_example :
    IsAssembled source paths (new false true) (compile source paths (new false true))
compile_success_example =
    compile_success source paths (new false true) (new-IsBuilt false true) succeeds

symbols_agree_example :
    ((n : ℕ) × (lookup_symbol (symbol_of_operation Opcodes.add) ≡ some (integer n))
      × (operation_of (pos n) ≡ some Opcodes.add))
    × ((s : Bytes) × (lookup_symbol (symbol_of_mode read_line) ≡ some (text s))
        × (Keyboard.parse_keyboard_mode s ≡ read_line))
symbols_agree_example = symbols_agree Opcodes.add read_line

abbrev faulty : Files
faulty = record {
  content = λ p. if beq p (codes "b.kga") then some (codes "var x\njunk 1\nlabel y\n") else none;
  writable = λ p. true;
}

junk-IsMalformed : IsMalformed (codes "junk 1")
unfolding tokenize_line find_command beq strip_prefix
junk-IsMalformed = (codes "junk", codes "1" ∷ [], refl, refl, tt)

faulty_lines :
    lines (codes "var x\njunk 1\nlabel y\n")
    ≡ (codes "var x" ∷ []) ++ codes "junk 1" ∷ codes "label y" ∷ []
unfolding lines
faulty_lines = refl

faulty_text : faulty.content (codes "b.kga") ≡ some (codes "var x\njunk 1\nlabel y\n")
unfolding beq
faulty_text = refl

refused_source_example :
    ((compile faulty (codes "b.kga" ∷ []) (new false true)).succeeded ≡ false)
    × ((compile faulty (codes "b.kga" ∷ []) (new false true)).files ≡ faulty)
refused_source_example =
    refused_source faulty [] [] (codes "b.kga") (codes "var x\njunk 1\nlabel y\n")
      (codes "var x" ∷ []) (codes "label y" ∷ []) (codes "junk 1") (new false true) faulty_text
      faulty_lines junk-IsMalformed

ends_well : (main source (codes "kagu_asm") paths).status ≡ 0
unfolding main lines replace_file
ends_well = refl

main_status_example :
    IsServed source (parse_arguments false true [] paths) (main source (codes "kagu_asm") paths)
main_status_example = main_status source (codes "kagu_asm") paths ends_well
