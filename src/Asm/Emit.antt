-- ===== src/Asm/Emit.antt =====
-- `evalLexeme` and `evalDebugInfo` of compiler.cpp, and the line of an instruction.
pub mod Keeps
use kagu_os.Prelude.{
  ℕ, ◌+◌, Bool, true, false, ◌||◌, Option, none, some, List, [], ◌∷◌, ◌++◌, ◌==◌, if◌then◌else◌,
  get_elem?, pos,
}
use kagu_os.Std.Number.{to_string}
use kagu_os.Std.Map.{lookup}
use kagu_os.Asm.State.{
  ◌>>=◌, ◌>>◌, ConstantInfo, LabelInfo, ParsedInstruction, Pass, VariableInfo, has_numeric_symbol,
  Compiler, done, get_numeric_symbol, pure, has_string_symbol, get_string_symbol, compilation_error,
  modify, gets,
}
use kagu_os.Std.Text.{Bytes, beq, codes, find, is_empty, is_some}
use kagu_os.Kagu.Opcodes.{Instruction, instruction_code}
use kagu_os.Asm.Lexer.{Lexeme, LexemeType}
use kagu_os.Asm.Lexer
use kagu_os.Kagu.Opcodes

-- The text of a prefix, which is empty for `_`.
abbrev pub prefix_text : Lexeme → Bytes
prefix_text lex = if lex.prefix == b'_' then [] else lex.prefix ∷ []

abbrev number_of : Instruction → Bytes
number_of i = to_string (pos (instruction_code i))

-- The instruction numbers of the commands.
unfoldable pub command_text : Bytes → Bytes
unfolding beq
command_text v =
    if beq v (codes "copy") || beq v (codes "write")
    then number_of Opcodes.copy_from_to_address
    else if beq v (codes "jump")
    then number_of Opcodes.jump
    else if beq v (codes "jump_if")
    then number_of Opcodes.jump_if
    else if beq v (codes "jump_if_not")
    then number_of Opcodes.jump_if_not
    else if beq v (codes "jump_err")
    then number_of Opcodes.jump_err
    else if beq v (codes "cpu_exec")
    then number_of Opcodes.cpu_exec
    else if beq v (codes "DEBUG_ON") || beq v (codes "DEBUG_OFF")
    then v
    else []

abbrev pub address_in : List ConstantInfo → Option ℕ → Option Bytes
address_in cs none = none
address_in cs (some i) = elim (get_elem? cs i) [
  | none ↦ none
  | some ci ↦ some (to_string (pos ci.address))
]

-- The address of a constant, by its key.
unfoldable pub constant_address : Bytes → Compiler → Option Bytes
unfolding lookup
constant_address raw c = address_in c.constants (lookup raw c.constants_index)

abbrev pub or_nothing : Option Bytes → Bytes
or_nothing none = []
or_nothing (some s) = s

-- An error, in whose place nothing is printed.
abbrev pub reported : Bytes → Bytes → Pass Bytes
reported syntax info = do compilation_error syntax info; pure []

abbrev pub is_number_type : LexemeType → Bool
is_number_type Lexer.number = true
is_number_type _ = false

-- A number or a symbol that is no constant.
unfoldable pub eval_symbol : Lexeme → Pass Bytes
unfolding has_numeric_symbol get_numeric_symbol has_string_symbol get_string_symbol
eval_symbol lex c =
    if is_number_type lex.type
    then done (prefix_text lex ++ lex.value) c
    else if has_numeric_symbol lex.value c.symbol_table
    then done (prefix_text lex ++ to_string (get_numeric_symbol lex.value c.symbol_table)) c
    else if has_string_symbol lex.value
    then done (prefix_text lex ++ get_string_symbol lex.value) c
    else reported [] (codes "Symbol " ++ (lex.value ++ codes " is unknown")) c

abbrev pub constant_or : Option Bytes → Pass Bytes → Pass Bytes
constant_or none other = other
constant_or (some a) other = pure a

unfoldable pub eval_value : Bool → Lexeme → Pass Bytes
unfolding constant_address eval_symbol
eval_value written lex c =
    if written
    then constant_or (constant_address lex.value c) (eval_symbol lex) c
    else eval_symbol lex c

abbrev pub label_address : Bytes → Option LabelInfo → Pass Bytes
label_address v none = reported [] (codes "Label " ++ (v ++ codes " is not defined"))
label_address v (some li) = pure (to_string (pos li.address))

unfoldable pub eval_label : Bool → Lexeme → Pass Bytes
unfolding constant_address lookup
eval_label written lex c =
    if written
    then done (or_nothing (constant_address (codes "LABEL:" ++ lex.value) c)) c
    else label_address lex.value (lookup lex.value c.labels) c

abbrev pub variable_address : Lexeme → Option VariableInfo → Pass Bytes
variable_address lex none =
    reported (codes "Variable should be declared before usage")
      (codes "Variable " ++ (lex.value ++ codes " is not defined"))
variable_address lex (some vi) = pure (prefix_text lex ++ to_string (pos vi.address))

unfoldable pub eval_variable : Lexeme → Pass Bytes
unfolding lookup
eval_variable lex c = variable_address lex (lookup lex.value c.variables) c

unfoldable pub eval_string : Lexeme → Pass Bytes
unfolding constant_address
eval_string lex c = done (or_nothing (constant_address (b'"' ∷ (lex.value ++ b'"' ∷ [])) c)) c

-- `evalLexeme`: whether the position is that of the value of a `write`, by the lexeme's type
unfoldable pub eval_type : LexemeType → Bool → Lexeme → Pass Bytes
unfolding command_text eval_value eval_string eval_label eval_variable
eval_type Lexer.command written lex = pure (command_text lex.value)
eval_type Lexer.number written lex = eval_value written lex
eval_type Lexer.register written lex = eval_value written lex
eval_type Lexer.operation written lex = eval_value written lex
eval_type Lexer.sys_call written lex = eval_value written lex
eval_type Lexer.color written lex = eval_value written lex
eval_type Lexer.mode written lex = eval_value written lex
eval_type Lexer.string written lex = eval_string lex
eval_type Lexer.label written lex = eval_label written lex
eval_type Lexer.variable written lex = eval_variable lex
eval_type Lexer.keyword_to written lex = pure []
eval_type Lexer.comment written lex = pure []
eval_type Lexer.name written lex = pure []
eval_type Lexer.error written lex = pure []

unfoldable pub eval_lexeme : Lexeme → Bytes → Pass Bytes
unfolding eval_type beq
eval_lexeme lex position = eval_type lex.type (beq position (codes "write_1")) lex

abbrev quote : Bytes → Bytes
quote s = b'"' ∷ (s ++ b'"' ∷ [])

-- `evalDebugInfo`
unfoldable pub debug_type : LexemeType → Lexeme → Bytes → Bytes
unfolding find
debug_type Lexer.command lex position = lex.value
debug_type Lexer.keyword_to lex position = codes "=>"
debug_type Lexer.number lex position =
    if is_some (find (codes "_1") position) then quote lex.value else prefix_text lex ++ lex.value
debug_type Lexer.string lex position = quote lex.value
debug_type Lexer.register lex position = prefix_text lex ++ lex.value
debug_type Lexer.operation lex position = prefix_text lex ++ lex.value
debug_type Lexer.sys_call lex position = prefix_text lex ++ lex.value
debug_type Lexer.color lex position = prefix_text lex ++ lex.value
debug_type Lexer.mode lex position = prefix_text lex ++ lex.value
debug_type Lexer.label lex position = prefix_text lex ++ (codes "lbl:" ++ lex.value)
debug_type Lexer.variable lex position = prefix_text lex ++ (codes "var:" ++ lex.value)
debug_type Lexer.comment lex position = []
debug_type Lexer.name lex position = []
debug_type Lexer.error lex position = []

unfoldable pub eval_debug_info : Lexeme → Bytes → Bytes
unfolding debug_type
eval_debug_info lex position = debug_type lex.type lex position

-- A word behind a line, with a blank between them where neither is empty.
abbrev pub add_word : Bytes → Bytes → Bytes
add_word line word = if is_empty line || is_empty word then line ++ word else line ++ b' ' ∷ word

abbrev pub position_of : Bytes → ℕ → Bytes
position_of cmd i = cmd ++ b'_' ∷ to_string (pos i)

-- The loop over the lexemes of an instruction: the line and its comment.
unfoldable pub emit_lexemes : Bytes → ℕ → List Lexeme → Bytes → Bytes → Pass (Bytes × Bytes)
unfolding eval_lexeme eval_debug_info
emit_lexemes cmd i [] res debug = pure (res, debug)
emit_lexemes cmd i (lex ∷ ls) res debug = do
  word ← eval_lexeme lex (position_of cmd i)
  emit_lexemes cmd (i + 1) ls (add_word res word)
      (add_word debug (eval_debug_info lex (position_of cmd i)))

-- `instr.lexemes[0].value`
abbrev pub command_of : List Lexeme → Bytes
command_of [] = []
command_of (cmd ∷ ls) = cmd.value

abbrev pub with_debug : Bool → Bytes × Bytes → Bytes
with_debug on (res, debug) = if on then res ++ b' ' ∷ debug else res

-- The line of an instruction.
unfoldable pub emit_instruction : ParsedInstruction → Pass Bytes
unfolding emit_lexemes
emit_instruction instr = do
  modify (λ c. record c {
    current_file = instr.source_file;
    current_line_no = instr.line_number;
    current_line = [];
  })
  parts ← emit_lexemes (command_of instr.lexemes) 0 instr.lexemes [] (codes "# ")
  on ← gets (λ c. c.debug_info)
  pure (with_debug on parts)

unfoldable pub emit_all : List ParsedInstruction → Pass (List Bytes)
unfolding emit_instruction
emit_all [] = pure []
emit_all (instr ∷ rest) = do line ← emit_instruction instr; ls ← emit_all rest; pure (line ∷ ls)
