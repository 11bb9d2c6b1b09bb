-- ===== src/Asm/Lines/Signatures.antt =====
-- The operands that each command of compiler.cpp takes, as kinds of words.
use kagu_os.Prelude.{ℕ, ◌≡◌, ◌⊎◌, some, List, [], ◌∷◌, ◌++◌}
use kagu_os.Std.Text.{Bytes, codes}
use kagu_os.Std.Map.{lookup}
use kagu_os.Asm.Lexer.{Lexeme, LexemeType}
use kagu_os.Asm.Emit.{command_of}
use kagu_os.Asm.Lexer

-- A prefix and a type.
abbrev pub Kind : Type 0
Kind = ℕ × LexemeType

abbrev pub plain : List LexemeType → List Kind
plain [] = []
plain (t ∷ ts) = (b'_', t) ∷ plain ts

abbrev pub direct_or_starred : List LexemeType → List Kind
direct_or_starred [] = []
direct_or_starred (t ∷ ts) = (b'_', t) ∷ (b'*', t) ∷ direct_or_starred ts

-- Where a jump may go: to an address, or to one that a cell holds; a register is no address.
abbrev pub target : List Kind
target =
    direct_or_starred (Lexer.number ∷ Lexer.label ∷ Lexer.variable ∷ [])
    ++ (b'*', Lexer.register) ∷ []

-- A place in memory.
abbrev pub place : List Kind
place = direct_or_starred (Lexer.number ∷ Lexer.register ∷ Lexer.variable ∷ [])

abbrev pub written_value : List Kind
written_value = plain (
    Lexer.string ∷ Lexer.number ∷ Lexer.operation ∷ Lexer.sys_call ∷ Lexer.color ∷ Lexer.mode
    ∷ Lexer.label ∷ [])

abbrev pub copied : List Kind
copied = place ++ (b'@', Lexer.variable) ∷ []

abbrev pub word_command : List Kind
word_command = plain (Lexer.command ∷ [])

abbrev pub jump_signature : List (List Kind)
jump_signature = word_command ∷ target ∷ []

abbrev pub lone_signature : List (List Kind)
lone_signature = word_command ∷ []

abbrev pub to_signature : List Kind → List (List Kind)
to_signature source = word_command ∷ source ∷ plain (Lexer.keyword_to ∷ []) ∷ place ∷ []

-- The commands that are instructions, with the kinds that the words of each may have.
abbrev pub signatures : List (Bytes × List (List Kind))
signatures =
    (codes "cpu_exec", lone_signature)
    ∷ (codes "DEBUG_ON", lone_signature)
    ∷ (codes "DEBUG_OFF", lone_signature)
    ∷ (codes "jump_err", jump_signature)
    ∷ (codes "jump_if_not", jump_signature)
    ∷ (codes "jump_if", jump_signature)
    ∷ (codes "jump", jump_signature)
    ∷ (codes "write", to_signature written_value)
    ∷ (codes "copy", to_signature copied)
    ∷ []

abbrev pub IsOneOf : List Kind → Lexeme → Type 0
IsOneOf [] lex = ⊥
IsOneOf ((p, t) ∷ ks) lex = ((lex.prefix ≡ p) × (lex.type ≡ t)) ⊎ IsOneOf ks lex

-- As many words as the signature has, each of a kind that it may have.
abbrev pub Fits : List (List Kind) → List Lexeme → Type 0
Fits [] [] = Unit
Fits [] (lex ∷ ls) = ⊥
Fits (ks ∷ sig) [] = ⊥
Fits (ks ∷ sig) (lex ∷ ls) = IsOneOf ks lex × Fits sig ls

-- The words of an instruction that its command takes.
abbrev pub IsTyped : List Lexeme → Type 0
IsTyped ls = (sig : List (List Kind)) × (lookup (command_of ls) signatures ≡ some sig) × Fits sig ls
