-- ===== src/Asm/Lines/Groups.antt =====
-- The groups that the pattern of a line of compiler.cpp is made of, and what it means that they match
-- those of a signature.
use kagu_os.Prelude.{
  ℕ, ◌≡◌, refl, sym, ap, ◌∙◌, subst, inl, inr, true, false, none, some, List, [], ◌∷◌, ◌++◌,
  append_assoc, append-nil, arith, ◌==◌, Bool-cases, All,
}
use kagu_os.Asm.Lines.Signatures.{Kind, Fits, IsOneOf}
use kagu_os.Asm.Words.{patterns}
use kagu_os.Std.Text.{Bytes, contains_char, beq, beq→eq, drop}
use kagu_os.Std.Map.{lookup}
use kagu_os.Asm.Lexer.{Lexeme, LexemeType, type_to_string, to_pattern}
use kagu_os.Asm.Patterns.{groups, cons?, any_is, alternatives, match_groups}
use kagu_os.Asm.Lexer

-- The alternatives of a pattern that kinds stand for.
abbrev kind_text : Kind → Bytes
kind_text (p, t) = p ∷ b' ' ∷ type_to_string t

abbrev pub kind_texts : List Kind → List Bytes
kind_texts [] = []
kind_texts (k ∷ ks) = kind_text k ∷ kind_texts ks

abbrev pub group_of : Lexeme → Bytes
group_of lex = kind_text (lex.prefix, lex.type)

-- Where the prefix does not end the group.
abbrev pub IsOpen : Lexeme → Type 0
IsOpen lex = (lex.prefix == b')') ≡ false

abbrev pub groups_of : List Lexeme → List Bytes
groups_of [] = []
groups_of (lex ∷ ls) = group_of lex ∷ groups_of ls

no_close : (t : LexemeType) → contains_char b')' (type_to_string t) ≡ false
unfolding contains_char type_to_string
no_close Lexer.comment = refl
no_close Lexer.command = refl
no_close Lexer.keyword_to = refl
no_close Lexer.number = refl
no_close Lexer.string = refl
no_close Lexer.register = refl
no_close Lexer.operation = refl
no_close Lexer.sys_call = refl
no_close Lexer.color = refl
no_close Lexer.mode = refl
no_close Lexer.variable = refl
no_close Lexer.label = refl
no_close Lexer.name = refl
no_close Lexer.error = refl

groups-append :
    (current s rest : Bytes)
    → contains_char b')' s ≡ false
    → groups (some current) (s ++ b')' ∷ rest) ≡ cons? (current ++ s) (groups none rest)
unfolding groups contains_char
groups-append current [] rest h =
    ap (λ (g : Bytes). cons? g (groups none rest)) (sym (append-nil current))
groups-append current (c ∷ s) rest h =
    ground (arith, groups-append (current ++ c ∷ []) s rest, append_assoc current (c ∷ []) s)

open_text : (lex : Lexeme) → IsOpen lex → contains_char b')' (group_of lex) ≡ false
unfolding contains_char
open_text lex h = ground (arith, h, no_close lex.type)

groups-to_pattern :
    (lex : Lexeme) (rest : Bytes)
    → IsOpen lex
    → groups none (to_pattern lex ++ rest) ≡ cons? (group_of lex) (groups none rest)
unfolding groups to_pattern
groups-to_pattern lex rest h =
    ap (λ (t : Bytes). groups none (b'(' ∷ lex.prefix ∷ b' ' ∷ t))
      (append_assoc (type_to_string lex.type) (b')' ∷ []) rest)
    ∙ groups-append [] (group_of lex) rest (open_text lex h)

type_texts : List (Bytes × LexemeType)
type_texts =
    (type_to_string Lexer.comment, Lexer.comment)
    ∷ (type_to_string Lexer.command, Lexer.command)
    ∷ (type_to_string Lexer.keyword_to, Lexer.keyword_to)
    ∷ (type_to_string Lexer.number, Lexer.number)
    ∷ (type_to_string Lexer.string, Lexer.string)
    ∷ (type_to_string Lexer.register, Lexer.register)
    ∷ (type_to_string Lexer.operation, Lexer.operation)
    ∷ (type_to_string Lexer.sys_call, Lexer.sys_call)
    ∷ (type_to_string Lexer.color, Lexer.color)
    ∷ (type_to_string Lexer.mode, Lexer.mode)
    ∷ (type_to_string Lexer.variable, Lexer.variable)
    ∷ (type_to_string Lexer.label, Lexer.label)
    ∷ (type_to_string Lexer.name, Lexer.name)
    ∷ (type_to_string Lexer.error, Lexer.error)
    ∷ []

type_back : (t : LexemeType) → lookup (type_to_string t) type_texts ≡ some t
unfolding lookup beq type_to_string type_texts
type_back Lexer.comment = refl
type_back Lexer.command = refl
type_back Lexer.keyword_to = refl
type_back Lexer.number = refl
type_back Lexer.string = refl
type_back Lexer.register = refl
type_back Lexer.operation = refl
type_back Lexer.sys_call = refl
type_back Lexer.color = refl
type_back Lexer.mode = refl
type_back Lexer.variable = refl
type_back Lexer.label = refl
type_back Lexer.name = refl
type_back Lexer.error = refl

same_type : (t u : LexemeType) → type_to_string t ≡ type_to_string u → t ≡ u
same_type t u h = cc (type_back t, type_back u, h)

abbrev first_char : Bytes → ℕ
first_char [] = 0
first_char (c ∷ s) = c

one_of :
    (ks : List Kind) (lex : Lexeme) → any_is (group_of lex) (kind_texts ks) ≡ true → IsOneOf ks lex
one_of [] lex h = absurd (ground (arith, h))
one_of ((p, t) ∷ ks) lex h = elim (Bool-cases (beq (group_of lex) (kind_text (p, t)))) [
  | inl e ↦
      let same = beq→eq (group_of lex) (kind_text (p, t)) e in
      inl (ap first_char same, same_type lex.type t (ap (drop 2) same))
  | inr e ↦ inr (one_of ks lex (ground (arith, h, e)))
]

-- The groups of a signature, and one for the comment.
abbrev pub IsExpected : List (List Kind) → List Bytes → Type 0
IsExpected [] [] = ⊥
IsExpected [] (e ∷ []) = Unit
IsExpected [] (e ∷ f ∷ es) = ⊥
IsExpected (ks ∷ sig) [] = ⊥
IsExpected (ks ∷ sig) (e ∷ es) = (alternatives [] e ≡ kind_texts ks) × IsExpected sig es

pub fits :
    (sig : List (List Kind)) (es : List Bytes) (ls : List Lexeme) (g : Bytes)
    → IsExpected sig es
    → match_groups (groups_of ls ++ g ∷ []) es ≡ true
    → Fits sig ls
unfolding match_groups
fits [] [] ls g x h = absurd x
fits [] (e ∷ []) [] g x h = tt
fits [] (e ∷ []) (l ∷ []) g x h = absurd (ground (arith, h))
fits [] (e ∷ []) (l ∷ k ∷ ls) g x h = absurd (ground (arith, h))
fits [] (e ∷ f ∷ es) ls g x h = absurd x
fits (ks ∷ sig) [] ls g x h = absurd x
fits (ks ∷ []) (e ∷ []) [] g (a, x) h = absurd x
fits (ks ∷ js ∷ sig) (e ∷ []) [] g (a, x) h = absurd x
fits (ks ∷ sig) (e ∷ f ∷ es) [] g (a, x) h = absurd (ground (arith, h))
fits (ks ∷ sig) (e ∷ es) (l ∷ ls) g (a, x) h = (
  one_of ks l (subst (λ alts. any_is (group_of l) alts ≡ true) a (ground (arith, h))),
  fits sig es ls g x (ground (arith, h)),
)

pub groups-patterns :
    (ls : List Lexeme) (g : Lexeme)
    → All IsOpen ls
    → IsOpen g
    → groups none (patterns ls ++ to_pattern g) ≡ some (groups_of ls ++ group_of g ∷ [])
groups-patterns [] g hs h =
    ap (groups none) (sym (append-nil (to_pattern g)))
    ∙ groups-to_pattern g [] h
    ∙ (unfold groups in refl)
groups-patterns (l ∷ ls) g (hl, hs) h =
    ap (groups none) (append_assoc (to_pattern l) (patterns ls) (to_pattern g))
    ∙ groups-to_pattern l (patterns ls ++ to_pattern g) hl
    ∙ ap (cons? (group_of l)) (groups-patterns ls g hs h)
