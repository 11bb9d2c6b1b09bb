-- ===== src/Asm/Lines.antt =====
-- `processLine` and `pass1` of compiler.cpp.
pub mod Built
pub mod Keeps
pub mod Signatures
pub mod Groups
pub mod Typed
pub mod Instructions
pub mod Constants
use kagu_os.Prelude.{
  ◌+◌, Bool, true, false, ◌&&◌, ◌||◌, Option, none, some, List, [], ◌∷◌, ◌++◌, ◌==◌, if◌then◌else◌,
  length,
}
use kagu_os.Std.Number.{to_string}
use kagu_os.Std.Text.{Bytes, beq, strip_prefix, codes, is_empty, is_some}
use kagu_os.Std.Map.{lookup, insert}
use kagu_os.Std.Files.{Files, lines}
use kagu_os.Asm.Lexer.{Lexeme, LexemeType}
use kagu_os.Asm.Symbols.{begins}
use kagu_os.Asm.Patterns.{CommandPattern, command_patterns, match_pattern}
use kagu_os.Asm.Words.{tokenize_line, lexemes_of, pattern_of}
use kagu_os.Asm.State.{
  Compiler, Pass, ◌>>=◌, ◌>>◌, compilation_error, done, get_numeric_symbol, get_string_symbol, gets,
  pure, SymbolTable, modify, LabelInfo, VariableInfo,
}
use kagu_os.Asm.Lexer

-- The pattern of a command, if there is one.
unfoldable pub find_command : Bytes → List CommandPattern → Option CommandPattern
unfolding beq
find_command cmd [] = none
find_command cmd (p ∷ ps) = if beq p.name cmd then some p else find_command cmd ps

-- `lexemes[1].value`, which a line that has matched its pattern has.
abbrev pub second_value : List Lexeme → Bytes
second_value [] = []
second_value (cmd ∷ []) = []
second_value (cmd ∷ arg ∷ ls) = arg.value

unfoldable pub add_variable : Bytes → Bytes → Pass (Unit {0})
unfolding lookup insert
add_variable syntax name c =
    let vi : VariableInfo = record {
      address = 0;
      declaration_address = c.next_instr_address;
      declaration_line = c.current_line_no;
      file = c.current_file;
    } in
    if is_some (lookup name c.variables)
    then compilation_error syntax (codes "Variable " ++ (name ++ codes " is already defined")) c
    else done tt (record c {
      variables = insert name vi c.variables;
      variables_ordered = c.variables_ordered ++ (name, vi) ∷ [];
    })

unfoldable pub add_label : Bytes → Bytes → Pass (Unit {0})
unfolding lookup insert
add_label syntax name c =
    let li : LabelInfo = record {
      address = c.next_instr_address;
      declaration_line = c.current_line_no;
      file = c.current_file;
    } in
    if is_some (lookup name c.labels)
    then compilation_error syntax (codes "Label " ++ (name ++ codes " is already defined")) c
    else done tt (record c { labels = insert name li c.labels })

unfoldable pub add_instruction : List Lexeme → Pass (Unit {0})
add_instruction ls c = done tt (record c {
  parsed_instructions =
      c.parsed_instructions
      ++ (record { source_file = c.current_file; line_number = c.current_line_no; lexemes = ls })
        ∷ [];
  next_instr_address = c.next_instr_address + 1;
})

-- The key and the value of the constant that a `write` needs, by the kind of what it writes; a kind
-- of its own has none.
unfoldable pub constant_of : LexemeType → Bytes → SymbolTable → Option (Bytes × Bytes)
unfolding get_numeric_symbol get_string_symbol
constant_of Lexer.string v t = some (b'"' ∷ (v ++ b'"' ∷ []), v)
constant_of Lexer.number v t = some (v, v)
constant_of Lexer.operation v t = some (v, to_string (get_numeric_symbol v t))
constant_of Lexer.sys_call v t = some (v, to_string (get_numeric_symbol v t))
constant_of Lexer.color v t = some (v, to_string (get_numeric_symbol v t))
constant_of Lexer.mode v t = some (v, get_string_symbol v)
constant_of Lexer.label v t = some (codes "LABEL:" ++ v, [])
constant_of _ v t = none

unfoldable pub insert_constant : Bytes → Bytes → Compiler → Compiler
unfolding lookup insert
insert_constant raw value c =
    if is_empty raw || is_some (lookup raw c.constants_index) then c else record c {
      constants_index = insert raw (length c.constants) c.constants_index;
      constants =
          c.constants ++ (record { raw_value = raw; evaluated_value = value; address = 0 }) ∷ [];
    }

abbrev pub put_constant : Option (Bytes × Bytes) → Compiler → Compiler
put_constant none c = c
put_constant (some (raw, value)) c = insert_constant raw value c

abbrev pub write_constant : List Lexeme → Pass (Unit {0})
write_constant [] c = done tt c
write_constant (cmd ∷ []) c = done tt c
write_constant (cmd ∷ arg ∷ ls) c =
    done tt (put_constant (constant_of arg.type arg.value c.symbol_table) c)

-- What a line that has matched does, by its command.
unfoldable pub perform : Bytes → Bytes → List Lexeme → Pass (Unit {0})
unfolding beq add_variable add_label add_instruction constant_of insert_constant
perform cmd syntax ls =
    if beq cmd (codes "var")
    then add_variable syntax (second_value ls)
    else if beq cmd (codes "label")
    then add_label syntax (second_value ls)
    else if beq cmd (codes "DEBUG_ON") || beq cmd (codes "DEBUG_OFF")
    then add_instruction ls
    else if beq cmd (codes "write")
    then (do add_instruction ls; write_constant ls)
    else add_instruction ls

-- The rest of `processLine` for a line of a command.
unfoldable pub process_command : Bytes → Bytes → List Bytes → CommandPattern → Pass (Unit {0})
unfolding perform lexemes_of pattern_of match_pattern
process_command line cmd ts p =
    let parts = lexemes_of line cmd p.lexeme_count 0 ts in
    if match_pattern (pattern_of parts) p.pattern
    then perform cmd p.syntax parts.0
    else compilation_error p.syntax (codes "Unexpected arguments for command " ++ cmd)

abbrev pub process_tokens : Bytes → List Bytes → Pass (Unit {0})
process_tokens line [] c = done tt c
process_tokens line (cmd ∷ ts) c =
    if begins (codes "//") cmd then done tt c else elim (find_command cmd command_patterns) [
      | none ↦ compilation_error (codes "Unknown command: " ++ cmd) [] c
      | some p ↦ process_command line cmd (cmd ∷ ts) p c
    ]

-- `processLine`
unfoldable pub process_line : Bytes → Pass (Unit {0})
unfolding tokenize_line strip_prefix find_command process_command
process_line line = process_tokens line (tokenize_line line)

-- The loop over the lines of a file.
unfoldable pub process_lines : List Bytes → Pass (Unit {0})
unfolding process_line
process_lines [] = pure tt
process_lines (line ∷ rest) = do
  modify (λ c. record c { current_line_no = c.current_line_no + 1; current_line = line })
  process_line line
  process_lines rest

-- A file of this text, if it is there, and then the other files; a path that names no file ends the
-- pass.
unfoldable pub read_one : Bytes → Pass Bool → Option Bytes → Pass Bool
unfolding process_lines
read_one path others none = do
  modify (λ c. record c { err = c.err ++ (path ++ codes " is not a valid source file\n") })
  pure false
read_one path others (some text) = do
  modify (λ c. record c { current_file = path; current_line_no = 0 })
  process_lines (lines text)
  others

-- The files in order.
unfoldable pub read_files : Files → List Bytes → Pass Bool
unfolding read_one
read_files fs [] = pure true
read_files fs (path ∷ rest) = read_one path (read_files fs rest) (fs.content path)

-- `pass1`: whether every file was read without an error. A file that is there can be read.
unfoldable pub pass1 : Files → List Bytes → Pass Bool
unfolding read_files
pass1 fs paths = do
  found ← read_files fs paths
  errors ← gets (λ c. c.compilation_error_count)
  pure (found && errors == 0)
