-- ===== src/Asm/Emit/Keeps.antt =====
-- What the second pass leaves as it is: all but the position that errors name, and the errors.
use kagu_os.Prelude.{
  ℕ, suc, ◌+◌, ◌≡◌, refl, ap, ◌∙◌, Bool, Option, none, some, List, [], ◌∷◌, if_intro, length,
}
use kagu_os.Std.Map.{lookup}
use kagu_os.Std.Text.{Bytes, beq, codes}
use kagu_os.Asm.Lexer.{Lexeme, LexemeType}
use kagu_os.Asm.State.{
  Compiler, Outcome, done, exited, Pass, compilation_error, continue, LabelInfo, VariableInfo,
  ParsedInstruction, has_numeric_symbol, has_string_symbol,
}
use kagu_os.Asm.State.Leaves.{Leaves, compilation_error-Leaves, Leaves-continue}
use kagu_os.Asm.Emit.{
  reported, eval_symbol, eval_value, pure, LabelInfo, VariableInfo, constant_address, constant_or,
  emit_all, emit_instruction, emit_lexemes, eval_label, eval_type, ParsedInstruction, eval_lexeme,
  eval_string, label_address, lookup, variable_address, eval_variable, position_of, LexemeType, beq,
  codes, add_word, eval_debug_info, is_number_type, has_numeric_symbol, has_string_symbol,
  command_of,
}
use kagu_os.Asm.Lexer

-- The state without the position and the errors.
abbrev pub steady : Compiler → Compiler
steady c = record c {
  current_file = [];
  current_line_no = 0;
  current_line = [];
  compilation_error_count = 0;
  err = [];
}

unfoldable pub Still {ℓ} : {A : Type ℓ} → Compiler → Outcome A → Type 0
Still c = Leaves (λ _ c'. steady c' ≡ steady c)

Still-done {ℓ} : {A : Type ℓ} (a : A) (c : Compiler) → Still c (done a c)
unfolding Still
Still-done a c = refl

Still-trans {ℓ} :
    {A : Type ℓ} (c c' : Compiler) (o : Outcome A) → steady c' ≡ steady c → Still c' o → Still c o
unfolding Still
Still-trans c c' (done a d) e h = h ∙ e
Still-trans c c' (exited d) e h = tt

Still-continue {ℓ κ} :
    {A : Type ℓ} {B : Type κ} (c : Compiler) (f : A → Compiler → Outcome B) (o : Outcome A)
    → Still c o
    → ((a : A) (c' : Compiler) → Still c' (f a c'))
    → Still c (continue f o)
unfolding Still
Still-continue c f (done a c') h k = Still-trans c c' (f a c') h (k a c')
Still-continue c f (exited c') h k = tt

reported-Still : (syntax info : Bytes) (c : Compiler) → Still c (reported syntax info c)
reported-Still syntax info c =
    Still-continue c (λ (_ : Unit {0}). pure []) (compilation_error syntax info c)
      (unfold Still in
        compilation_error-Leaves (λ c'. steady c' ≡ steady c) syntax info c (λ err. refl))
      (λ _ c'. Still-done [] c')

constant_or-Still :
    (a : Option Bytes) (other : Pass Bytes) (c : Compiler)
    → Still c (other c)
    → Still c (constant_or a other c)
constant_or-Still none other c h = h
constant_or-Still (some a) other c h = Still-done a c

label_address-Still :
    (v : Bytes) (l : Option LabelInfo) (c : Compiler) → Still c (label_address v l c)
label_address-Still v none c = reported-Still [] _ c
label_address-Still v (some li) c = Still-done _ c

variable_address-Still :
    (lex : Lexeme) (v : Option VariableInfo) (c : Compiler) → Still c (variable_address lex v c)
variable_address-Still lex none c = reported-Still _ _ c
variable_address-Still lex (some vi) c = Still-done _ c

eval_symbol-Still : (lex : Lexeme) (c : Compiler) → Still c (eval_symbol lex c)
unfolding eval_symbol
eval_symbol-Still lex c =
    if_intro (Still c) (is_number_type lex.type) _ _ (λ _. Still-done _ c)
      (λ _.
        if_intro (Still c) (has_numeric_symbol lex.value c.symbol_table) _ _ (λ _. Still-done _ c)
          (λ _.
            if_intro (Still c) (has_string_symbol lex.value) _ _ (λ _. Still-done _ c)
              (λ _. reported-Still [] _ c)))

eval_value-Still :
    (written : Bool) (lex : Lexeme) (c : Compiler) → Still c (eval_value written lex c)
unfolding eval_value
eval_value-Still written lex c =
    if_intro (Still c) written _ _
      (λ _.
        constant_or-Still (constant_address lex.value c) (eval_symbol lex) c
          (eval_symbol-Still lex c))
      (λ _. eval_symbol-Still lex c)

eval_label-Still :
    (written : Bool) (lex : Lexeme) (c : Compiler) → Still c (eval_label written lex c)
unfolding eval_label
eval_label-Still written lex c =
    if_intro (Still c) written _ _ (λ _. Still-done _ c)
      (λ _. label_address-Still lex.value (lookup lex.value c.labels) c)

eval_type-Still :
    (t : LexemeType) (written : Bool) (lex : Lexeme) (c : Compiler)
    → Still c (eval_type t written lex c)
unfolding eval_type eval_string eval_variable
eval_type-Still Lexer.number written lex c = eval_value-Still written lex c
eval_type-Still Lexer.register written lex c = eval_value-Still written lex c
eval_type-Still Lexer.operation written lex c = eval_value-Still written lex c
eval_type-Still Lexer.sys_call written lex c = eval_value-Still written lex c
eval_type-Still Lexer.color written lex c = eval_value-Still written lex c
eval_type-Still Lexer.mode written lex c = eval_value-Still written lex c
eval_type-Still Lexer.label written lex c = eval_label-Still written lex c
eval_type-Still Lexer.variable written lex c =
    variable_address-Still lex (lookup lex.value c.variables) c
eval_type-Still _ written lex c = Still-done _ c

emit_lexemes-Still :
    (cmd : Bytes) (i : ℕ) (ls : List Lexeme) (res debug : Bytes) (c : Compiler)
    → Still c (emit_lexemes cmd i ls res debug c)
unfolding emit_lexemes
emit_lexemes-Still cmd i [] res debug c = Still-done _ c
emit_lexemes-Still cmd i (lex ∷ ls) res debug c =
    Still-continue c _ (eval_lexeme lex (position_of cmd i) c)
      (unfold eval_lexeme in
        eval_type-Still lex.type (beq (position_of cmd i) (codes "write_1")) lex c)
      (λ word c'.
        emit_lexemes-Still cmd (i + 1) ls (add_word res word)
          (add_word debug (eval_debug_info lex (position_of cmd i))) c')

emit_instruction-Still :
    (instr : ParsedInstruction) (c : Compiler) → Still c (emit_instruction instr c)
unfolding emit_instruction
emit_instruction-Still instr c =
    let c1 = record c {
      current_file = instr.source_file;
      current_line_no = instr.line_number;
      current_line = [];
    } in
    Still-trans c c1 (emit_instruction instr c) refl (
      Still-continue c1 _
        (emit_lexemes (command_of instr.lexemes) 0 instr.lexemes [] (codes "# ") c1)
        (emit_lexemes-Still (command_of instr.lexemes) 0 instr.lexemes [] (codes "# ") c1)
        (λ parts c'. Still-done _ c'))

-- The code has a line for every instruction, and the tables stay as they are.
pub emit_all-Leaves :
    (instrs : List ParsedInstruction) (c : Compiler)
    → Leaves (λ code c'. (length code ≡ length instrs) × (steady c' ≡ steady c)) (emit_all instrs c)
unfolding emit_all
emit_all-Leaves [] c = (refl, refl)
emit_all-Leaves (instr ∷ rest) c =
    Leaves-continue (λ _ c'. steady c' ≡ steady c)
      (λ code c'. (length code ≡ suc (length rest)) × (steady c' ≡ steady c)) _
      (emit_instruction instr c) (unfold Still in emit_instruction-Still instr c)
      (λ line c1 e.
        Leaves-continue (λ code c'. (length code ≡ length rest) × (steady c' ≡ steady c1))
          (λ code c'. (length code ≡ suc (length rest)) × (steady c' ≡ steady c)) _
          (emit_all rest c1) (emit_all-Leaves rest c1) (λ code c' h. (ap suc h.0, h.1 ∙ e)))
