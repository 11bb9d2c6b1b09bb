-- ===== src/Toolchain/Instructions.antt =====
-- A `write` to a variable and a jump to a label, and the words they are printed as.
use kagu_os.Prelude.{
  ℕ, ◌≡◌, refl, ap, ◌∙◌, Bool, true, false, Option, some, [], ◌∷◌, ◌++◌, append-nil, pos,
}
use kagu_os.Std.Text.{Bytes, codes, beq, contains_char}
use kagu_os.Std.Number.{to_string}
use kagu_os.Std.Number.RoundTrip.{is_empty-to_string}
use kagu_os.Std.Map.{lookup}
use kagu_os.Asm.Lexer.{Lexeme, LexemeType}
use kagu_os.Asm.State.{Compiler, VariableInfo, LabelInfo, ParsedInstruction, done}
use kagu_os.Asm.Emit.{
  eval_type, constant_address, eval_label, eval_lexeme, eval_string, eval_value, eval_variable,
  constant_or, label_address, or_nothing, variable_address, eval_symbol,
}
use kagu_os.Asm.Lines.{constant_of}
use kagu_os.Toolchain.Printed.{
  joined_words, Evals, at_instruction, no_hash-append, to_string-no_hash,
}
use kagu_os.Asm.Lexer

abbrev pub word : LexemeType → Bytes → Lexeme
word type value = record { prefix = b'_'; type = type; value = value }

-- `write ARG to var:y` and `jump label:x` as parsed, at some line of a source
abbrev pub write_to : Bytes → ℕ → Lexeme → Bytes → ParsedInstruction
write_to file n arg y = record {
  source_file = file;
  line_number = n;
  lexemes =
      word Lexer.command (codes "write")
      ∷ arg
      ∷ word Lexer.keyword_to (codes "to")
      ∷ word Lexer.variable y
      ∷ [];
}

abbrev pub jump_to : Bytes → ℕ → Bytes → ParsedInstruction
jump_to file n x = record {
  source_file = file;
  line_number = n;
  lexemes = word Lexer.command (codes "jump") ∷ word Lexer.label x ∷ [];
}

-- The words of a copy, joined.
pub two_addresses :
    (a d : ℕ)
    → joined_words [] (codes "1" ∷ to_string (pos a) ∷ [] ∷ to_string (pos d) ∷ [])
      ≡ b'1' ∷ 32 ∷ (to_string (pos a) ++ 32 ∷ to_string (pos d))
two_addresses a d =
    rw (is_empty-to_string (pos a), is_empty-to_string (pos d), append-nil (to_string (pos a))) refl

pub one_address :
    (a : ℕ) → joined_words [] (codes "2" ∷ to_string (pos a) ∷ []) ≡ b'2' ∷ 32 ∷ to_string (pos a)
one_address a = rw (is_empty-to_string (pos a)) refl

key_of :
    (k v raw value : Bytes) (c : Compiler) (s : Bytes)
    → ◌≡◌ {A = Option (Bytes × Bytes)} (some (k, v)) (some (raw, value))
    → constant_address raw c ≡ some s
    → constant_address k c ≡ some s
key_of k v raw value c s e h = ap (λ r. constant_address r c) same ∙ h
  where
    same : k ≡ raw
    same = cc

by_value :
    (arg : Lexeme) (s : Bytes) (c : Compiler)
    → constant_address arg.value c ≡ some s
    → eval_value true arg c ≡ done s c
unfolding eval_value
by_value arg s c h = ap (λ o. constant_or o (eval_symbol arg) c) h

-- What a `write` writes is printed as the address of its constant.
eval_constant :
    (t : LexemeType) (arg : Lexeme) (raw value s : Bytes) (c : Compiler)
    → constant_of t arg.value c.symbol_table ≡ some (raw, value)
    → constant_address raw c ≡ some s
    → eval_type t true arg c ≡ done s c
unfolding constant_of eval_type eval_string eval_label
eval_constant Lexer.string arg raw value s c k h =
    ap (λ o. done (or_nothing o) c)
      (key_of (b'"' ∷ (arg.value ++ b'"' ∷ [])) arg.value raw value c s k h)
eval_constant Lexer.label arg raw value s c k h =
    ap (λ o. done (or_nothing o) c) (key_of (codes "LABEL:" ++ arg.value) [] raw value c s k h)
eval_constant Lexer.number arg raw value s c k h =
    by_value arg s c (key_of arg.value _ raw value c s k h)
eval_constant Lexer.operation arg raw value s c k h =
    by_value arg s c (key_of arg.value _ raw value c s k h)
eval_constant Lexer.sys_call arg raw value s c k h =
    by_value arg s c (key_of arg.value _ raw value c s k h)
eval_constant Lexer.color arg raw value s c k h =
    by_value arg s c (key_of arg.value _ raw value c s k h)
eval_constant Lexer.mode arg raw value s c k h =
    by_value arg s c (key_of arg.value _ raw value c s k h)
eval_constant _ arg raw value s c k h = cc

eval_variable_at :
    (y : Bytes) (vi : VariableInfo) (written : Bool) (c : Compiler)
    → lookup y c.variables ≡ some vi
    → eval_type Lexer.variable written (word Lexer.variable y) c
      ≡ done (to_string (pos vi.address)) c
unfolding eval_type eval_variable
eval_variable_at y vi written c h = ap (λ o. variable_address (word Lexer.variable y) o c) h

eval_label_at :
    (x : Bytes) (li : LabelInfo) (c : Compiler)
    → lookup x c.labels ≡ some li
    → eval_type Lexer.label false (word Lexer.label x) c ≡ done (to_string (pos li.address)) c
unfolding eval_type eval_label
eval_label_at x li c h = ap (λ o. label_address x o c) h

-- The line of a `write` of a constant at `a` to a variable at `d`.
pub write_line :
    (file : Bytes) (n : ℕ) (arg : Lexeme) (y raw value : Bytes) (a : ℕ) (vi : VariableInfo)
    (c : Compiler)
    → constant_of arg.type arg.value c.symbol_table ≡ some (raw, value)
    → constant_address raw c ≡ some (to_string (pos a))
    → lookup y c.variables ≡ some vi
    → Evals
        (codes "write")
        0
        (write_to file n arg y).lexemes
        (codes "1" ∷ to_string (pos a) ∷ [] ∷ to_string (pos vi.address) ∷ [])
        (at_instruction (write_to file n arg y) c)
unfolding eval_lexeme beq to_string
write_line file n arg y raw value a vi c k at vy = (
  refl,
  (
    eval_constant arg.type arg raw value (to_string (pos a))
        (at_instruction (write_to file n arg y) c) k (unfold constant_address in at),
    (refl, (eval_variable_at y vi false (at_instruction (write_to file n arg y) c) vy, tt)),
  ),
)

pub jump_words :
    (file : Bytes) (n : ℕ) (x : Bytes) (li : LabelInfo) (c : Compiler)
    → lookup x c.labels ≡ some li
    → Evals
        (codes "jump")
        0
        (jump_to file n x).lexemes
        (codes "2" ∷ to_string (pos li.address) ∷ [])
        (at_instruction (jump_to file n x) c)
unfolding eval_lexeme beq to_string
jump_words file n x li c h =
    (refl, (eval_label_at x li (at_instruction (jump_to file n x) c) h, tt))

pub no_hash_two :
    (a d : ℕ)
    → contains_char 35
        (joined_words [] (codes "1" ∷ to_string (pos a) ∷ [] ∷ to_string (pos d) ∷ []))
      ≡ false
no_hash_two a d = rw (two_addresses a d) (
    unfold contains_char in
    no_hash-append (to_string (pos a)) (32 ∷ to_string (pos d)) (to_string-no_hash a)
      (unfold contains_char in to_string-no_hash d))

pub no_hash_one :
    (a : ℕ) → contains_char 35 (joined_words [] (codes "2" ∷ to_string (pos a) ∷ [])) ≡ false
no_hash_one a = rw (one_address a) (unfold contains_char in to_string-no_hash a)
