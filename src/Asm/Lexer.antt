-- ===== src/Asm/Lexer.antt =====
-- tools/kagu_asm/src/lexer.cpp and lexer.hpp: the kinds of words of a line.
use kagu_os.Prelude.{
  ℕ, Bool, true, false, ◌&&◌, ◌||◌, Option, none, some, List, [], ◌∷◌, ◌++◌, ◌==◌, if◌then◌else◌,
}
use kagu_os.Std.Text.{Bytes, beq, is_alpha, strip_prefix, codes, is_digit, is_some, is_empty}
use kagu_os.Asm.Symbols.{
  begins, is_operation_symbol, parse_operation, is_sys_call_symbol, parse_sys_call, is_color_symbol,
  parse_color, is_keyboard_mode_symbol, parse_keyboard_mode, is_address_symbol, parse_address,
}

-- `LexemeType`
pub data LexemeType : Type 0 where
  comment command keyword_to number string register operation : LexemeType
  sys_call color mode variable label name error : LexemeType

-- `Lexeme`
pub record Lexeme : Type 0 where
  pub prefix : ℕ
  pub type : LexemeType
  pub value : Bytes

-- `typeToString`
unfoldable pub type_to_string : LexemeType → Bytes
type_to_string comment = codes "cmt"
type_to_string command = codes "cmd"
type_to_string keyword_to = codes "kto"
type_to_string number = codes "num"
type_to_string string = codes "str"
type_to_string register = codes "reg"
type_to_string operation = codes "opr"
type_to_string sys_call = codes "sys"
type_to_string color = codes "clr"
type_to_string mode = codes "mod"
type_to_string variable = codes "var"
type_to_string label = codes "lbl"
type_to_string name = codes "nam"
type_to_string error = codes "err"

-- `toPattern`
unfoldable pub to_pattern : Lexeme → Bytes
unfolding type_to_string
to_pattern lex = b'(' ∷ lex.prefix ∷ b' ' ∷ (type_to_string lex.type ++ b')' ∷ [])

-- `toString`
unfoldable pub lexeme_to_string : Lexeme → Bytes
unfolding type_to_string
lexeme_to_string lex =
    lex.prefix ∷ b' ' ∷ type_to_string lex.type
    ++ (if is_empty lex.value then [] else b' ' ∷ lex.value)

-- `Lexer::COMMANDS`
abbrev pub commands : List Bytes
commands =
    codes "write"
    ∷ codes "copy"
    ∷ codes "label"
    ∷ codes "jump"
    ∷ codes "jump_if"
    ∷ codes "jump_if_not"
    ∷ codes "jump_err"
    ∷ codes "cpu_exec"
    ∷ codes "var"
    ∷ codes "DEBUG_ON"
    ∷ codes "DEBUG_OFF"
    ∷ []

abbrev pub any_equal : Bytes → List Bytes → Bool
any_equal s [] = false
any_equal s (t ∷ ts) = beq t s || any_equal s ts

unfoldable pub is_command : Bytes → Bool
unfolding beq
is_command s = any_equal s commands

abbrev pub all_chars : (ℕ → Bool) → Bytes → Bool
all_chars p [] = true
all_chars p (c ∷ s) = p c && all_chars p s

abbrev is_name_char : ℕ → Bool
is_name_char c = is_alpha c || is_digit c || c == b'_'

-- `isValidName`
unfoldable pub is_valid_name : Bytes → Bool
is_valid_name [] = false
is_valid_name (c ∷ s) = is_alpha c && all_chars is_name_char (c ∷ s)

abbrev some_digits : Bytes → Bool
some_digits [] = false
some_digits (c ∷ s) = all_chars is_digit (c ∷ s)

-- `isNumber`
unfoldable pub is_number : Bytes → Bool
is_number [] = false
is_number (c ∷ s) = if c == b'-' then some_digits s else some_digits (c ∷ s)

-- A text without the quote at its end.
abbrev pub unquote_end : Bytes → Option Bytes
unquote_end [] = none
unquote_end (c ∷ []) = if c == b'"' then some [] else none
unquote_end (c ∷ d ∷ s) = elim (unquote_end (d ∷ s)) [ none ↦ none | some v ↦ some (c ∷ v) ]

-- The text between quotes: at least two characters, the first and the last a quote.
unfoldable pub unquote : Bytes → Option Bytes
unquote [] = none
unquote (c ∷ s) = if c == b'"' then unquote_end s else none

-- The text behind a prefix, if any is left.
abbrev behind : Option Bytes → Option Bytes
behind none = none
behind (some []) = none
behind (some (c ∷ s)) = some (c ∷ s)

-- The built-in symbols, then names.
unfoldable pub classify_symbol : Bytes → LexemeType
unfolding is_operation_symbol parse_operation is_sys_call_symbol parse_sys_call is_color_symbol
    parse_color is_keyboard_mode_symbol parse_keyboard_mode is_address_symbol parse_address
    is_valid_name
classify_symbol s =
    if is_operation_symbol s && is_some (parse_operation s)
    then operation
    else if is_sys_call_symbol s && is_some (parse_sys_call s)
    then sys_call
    else if is_color_symbol s && is_some (parse_color s)
    then color
    else if is_keyboard_mode_symbol s && is_some (parse_keyboard_mode s)
    then mode
    else if is_address_symbol s && is_some (parse_address s)
    then register
    else if is_valid_name s
    then name
    else error

-- The kind and the value of a token without its prefix.
unfoldable pub classify : Bytes → LexemeType × Bytes
unfolding unquote is_number strip_prefix beq is_command classify_symbol
classify s = elim (unquote s) [
  | some v ↦ (string, v)
  | none ↦ if is_number s then (number, s) else elim (behind (strip_prefix (codes "var:") s)) [
    | some v ↦ (variable, v)
    | none ↦ elim (behind (strip_prefix (codes "label:") s)) [
      | some v ↦ (label, v)
      | none ↦
          if beq s (codes "to")
          then (keyword_to, s)
          else if is_command s
          then (command, s)
          else (classify_symbol s, s)
    ]
  ]
]

abbrev lexeme : ℕ → LexemeType × Bytes → Lexeme
lexeme p (t, v) = record { prefix = p; type = t; value = v }

abbrev prefixed : Bytes → Lexeme
prefixed [] = lexeme b'_' (comment, [])
prefixed (c ∷ s) =
    if c == b'@' || c == b'*' then lexeme c (classify s) else lexeme b'_' (classify (c ∷ s))

-- `Lexer::parse`
unfoldable pub parse : Bytes → Lexeme
unfolding strip_prefix classify
parse token = if begins (codes "//") token then lexeme b'_' (comment, []) else prefixed token
