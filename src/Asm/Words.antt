-- ===== src/Asm/Words.antt =====
-- `tokenizeLine` of compiler.cpp, and the lexemes of a line.
use kagu_os.Prelude.{
  ℕ, zero, suc, ◌+◌, Bool, false, ◌&&◌, not, Option, none, some, List, [], ◌∷◌, ◌++◌, ◌==◌,
  if◌then◌else◌,
}
use kagu_os.Std.Text.{Bytes, strip_prefix, beq, codes, find, is_empty, is_space, drop, split_at}
use kagu_os.Asm.Lexer.{Lexeme, parse, to_pattern}
use kagu_os.Asm.Symbols.{begins}

abbrev pub add_token : Bytes → List Bytes → List Bytes
add_token current tokens = if is_empty current then tokens else current ∷ tokens

-- The loop of `tokenizeLine` with the token that is being read: blanks between quotes are kept.
unfoldable pub tokens : Bool → Bytes → Bytes → List Bytes
tokens in_quotes current [] = add_token current []
tokens in_quotes current (c ∷ s) =
    let longer = tokens (if c == b'"' then not in_quotes else in_quotes) (current ++ c ∷ []) s in
    let cut = add_token current (tokens false [] s) in
    if is_space c && not in_quotes then cut else longer

unfoldable pub tokenize_line : Bytes → List Bytes
unfolding tokens
tokenize_line line = tokens false [] line

abbrev behind_char : ℕ → Bytes → Option Bytes
behind_char c s = elim (split_at c s) [ none ↦ none | some (before, after) ↦ some after ]

abbrev before_char : ℕ → Bytes → Option Bytes
before_char c s = elim (split_at c s) [ none ↦ none | some (before, after) ↦ some before ]

abbrev quoted : Bytes → Option Bytes → Bytes
quoted token none = token
quoted token (some s) = b'"' ∷ (s ++ b'"' ∷ [])

-- The first text between quotes behind the word `write`, for a token that does not begin with one.
unfoldable pub written_text : Bytes → Bytes → Bytes
unfolding strip_prefix find split_at
written_text line token = elim (find (codes "write") line) [
  | none ↦ token
  | some w ↦
      if begins (b'"' ∷ []) token then token else elim (behind_char b'"' (drop (w + 5) line)) [
        | none ↦ token
        | some s ↦ quoted token (before_char b'"' s)
      ]
]

-- The lexemes of at most so many tokens, the first of number `i`, and the tokens left behind them.
unfoldable pub lexemes_of : Bytes → Bytes → ℕ → ℕ → List Bytes → List Lexeme × List Bytes
unfolding strip_prefix written_text parse beq
lexemes_of line cmd zero i ts = ([], ts)
lexemes_of line cmd (suc n) i [] = ([], [])
lexemes_of line cmd (suc n) i (t ∷ ts) =
    let token = if i == 1 && beq cmd (codes "write") then written_text line t else t in
    let rest = lexemes_of line cmd n (i + 1) ts in
    if begins (codes "//") t then ([], t ∷ ts) else (parse token ∷ rest.0, rest.1)

-- The tokens that are left, with blanks between them.
abbrev pub joined : List Bytes → Bytes
joined [] = []
joined (t ∷ []) = t
joined (t ∷ u ∷ ts) = t ++ b' ' ∷ joined (u ∷ ts)

abbrev pub comment_pattern : List Bytes → Bytes
comment_pattern [] = codes "(_ cmt)"
comment_pattern (t ∷ ts) = to_pattern (parse (joined (t ∷ ts)))

abbrev pub patterns : List Lexeme → Bytes
patterns [] = []
patterns (lex ∷ ls) = to_pattern lex ++ patterns ls

-- The pattern of a line: that of its lexemes, and of what is left as a comment.
unfoldable pub pattern_of : List Lexeme × List Bytes → Bytes
unfolding to_pattern parse
pattern_of (ls, ts) = patterns ls ++ comment_pattern ts
