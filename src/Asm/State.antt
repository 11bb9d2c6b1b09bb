-- ===== src/Asm/State.antt =====
-- compiler.hpp, and of compiler.cpp the symbol table and `compilationError`: the state of the
-- assembler and the actions on it. Addresses and line numbers are counted from 0 upwards.
pub mod Leaves
use kagu_os.Prelude.{
  ℕ, ◌+◌, Bool, true, false, ◌||◌, Option, none, some, List, [], ◌∷◌, ◌++◌, ltb, if◌then◌else◌, ℤ,
  pos, negsuc,
}
use kagu_os.Std.Number.{to_string}
use kagu_os.Std.Text.{Bytes, codes, is_some, is_empty}
use kagu_os.Kagu.Registers.{
  user_disk, kernel_data, user_map, kernel_map, user_space_start, address, kernel_start,
}
use kagu_os.Asm.Lexer.{Lexeme}
use kagu_os.Asm.Symbols.{lookup_symbol, SymbolValue, integer, text}
use kagu_os.Std.Map.{lookup, insert}

-- `ParsedInstruction`
pub record ParsedInstruction : Type 0 where
  pub source_file : Bytes
  pub line_number : ℕ
  pub lexemes : List Lexeme

pub record LabelInfo : Type 0 where
  pub address : ℕ
  pub declaration_line : ℕ
  pub file : Bytes

pub record VariableInfo : Type 0 where
  pub address : ℕ
  pub declaration_address : ℕ
  pub declaration_line : ℕ
  pub file : Bytes

pub record ConstantInfo : Type 0 where
  pub raw_value : Bytes
  pub evaluated_value : Bytes
  pub address : ℕ

-- `SymbolTable`
pub record SymbolTable : Type 0 where
  pub user_symbols : List (Bytes × ℤ)

unfoldable pub has_symbol : Bytes → SymbolTable → Bool
unfolding lookup_symbol lookup
has_symbol name t = is_some (lookup_symbol name) || is_some (lookup name t.user_symbols)

abbrev pub has_integer : Option SymbolValue → Bool
has_integer none = false
has_integer (some (integer n)) = true
has_integer (some (text s)) = false

abbrev pub has_text : Option SymbolValue → Bool
has_text none = false
has_text (some (integer n)) = false
has_text (some (text s)) = true

unfoldable pub has_numeric_symbol : Bytes → SymbolTable → Bool
unfolding lookup_symbol lookup
has_numeric_symbol name t = has_integer (lookup_symbol name) || is_some (lookup name t.user_symbols)

unfoldable pub has_string_symbol : Bytes → Bool
unfolding lookup_symbol
has_string_symbol name = has_text (lookup_symbol name)

abbrev user_value : Option ℤ → ℤ
user_value none = negsuc 0
user_value (some n) = n

abbrev numeric_value : Option SymbolValue → Option ℤ → ℤ
numeric_value (some (integer n)) user = pos n
numeric_value (some (text s)) user = user_value user
numeric_value none user = user_value user

unfoldable pub get_numeric_symbol : Bytes → SymbolTable → ℤ
unfolding lookup_symbol lookup
get_numeric_symbol name t = numeric_value (lookup_symbol name) (lookup name t.user_symbols)

abbrev string_value : Option SymbolValue → Bytes
string_value (some (text s)) = s
string_value (some (integer n)) = []
string_value none = []

unfoldable pub get_string_symbol : Bytes → Bytes
unfolding lookup_symbol
get_string_symbol name = string_value (lookup_symbol name)

unfoldable pub add_user_symbol : Bytes → ℤ → SymbolTable → SymbolTable
unfolding insert
add_user_symbol name n t = record t { user_symbols = insert name n t.user_symbols }

-- `Compiler`, with the two output streams as texts
pub record Compiler : Type 0 where
  pub user_space : Bool
  pub debug_info : Bool
  pub first_instruction_no : ℕ
  pub next_instr_address : ℕ
  pub output_file : Bytes
  pub map_file : Bytes
  pub compilation_error_count : ℕ
  pub current_file : Bytes
  pub current_line_no : ℕ
  pub current_line : Bytes
  pub symbol_table : SymbolTable
  pub labels : List (Bytes × LabelInfo)
  pub variables : List (Bytes × VariableInfo)
  pub variables_ordered : List (Bytes × VariableInfo)
  pub constants : List ConstantInfo
  pub constants_index : List (Bytes × ℕ)
  pub parsed_instructions : List ParsedInstruction
  pub out : Bytes
  pub err : Bytes

-- `Compiler::Compiler`
unfoldable pub new : Bool → Bool → Compiler
new user_space debug_info =
    let first : ℕ = if user_space then user_space_start else address kernel_start in
    record {
      user_space = user_space;
      debug_info = debug_info;
      first_instruction_no = first;
      next_instr_address = first;
      output_file = if user_space then user_disk else kernel_data;
      map_file = if user_space then user_map else kernel_map;
      compilation_error_count = 0;
      current_file = [];
      current_line_no = 0;
      current_line = [];
      symbol_table = record { user_symbols = [] };
      labels = [];
      variables = [];
      variables_ordered = [];
      constants = [];
      constants_index = [];
      parsed_instructions = [];
      out = [];
      err = [];
    }

-- An action ends with a value, or with the program, which leaves after too many errors.
pub data Outcome {ℓ} (A : Type ℓ) : Type ℓ where
  done : A → Compiler → Outcome A
  exited : Compiler → Outcome A

abbrev pub Pass {ℓ} : Type ℓ → Type ℓ
Pass A = Compiler → Outcome A

abbrev pub continue {ℓ κ} :
    {A : Type ℓ} {B : Type κ} → (A → Compiler → Outcome B) → Outcome A → Outcome B
continue f (done a c) = f a c
continue f (exited c) = exited c

infixl 10 ◌>>=◌ ◌>>◌
abbrev pub ◌>>=◌ {ℓ κ} :
    {A : Type ℓ} {B : Type κ}
    → (Compiler → Outcome A)
    → (A → Compiler → Outcome B)
    → Compiler
    → Outcome B
◌>>=◌ p f c = continue f (p c)

abbrev pub ◌>>◌ {ℓ} : {B : Type ℓ} → Pass (Unit {0}) → (Compiler → Outcome B) → Compiler → Outcome B
p >> q = p >>= λ _. q

abbrev pub pure {ℓ} : {A : Type ℓ} → A → Pass A
pure a c = done a c

abbrev pub gets {ℓ} : {A : Type ℓ} → (Compiler → A) → Pass A
gets f c = done (f c) c

abbrev pub modify : (Compiler → Compiler) → Pass (Unit {0})
modify f c = done tt (f c)

-- `\033[` with a colour, a text and the reset sequence
abbrev pub tinted : Bytes → Bytes → Bytes
tinted color s = 27 ∷ b'[' ∷ (color ++ b'm' ∷ (s ++ 27 ∷ codes "[0m"))

-- What `compilationError` prints.
unfoldable pub error_text : Bytes → Bytes → Compiler → Bytes
error_text syntax info c =
    tinted (codes "93") (codes "Compilation error")
    ++ (codes " at " ++ (c.current_file ++ b':' ∷ (to_string (pos c.current_line_no) ++ 10 ∷ [])))
    ++ (tinted (codes "91") c.current_line ++ 10 ∷ [])
    ++ (if is_empty info then [] else tinted (codes "91") info ++ 10 ∷ [])
    ++ (codes "Expected syntax:\n" ++ (tinted (codes "92") syntax ++ 10 ∷ 10 ∷ []))

-- `compilationError`: the program leaves at the error behind the twentieth.
unfoldable pub compilation_error : Bytes → Bytes → Pass (Unit {0})
unfolding error_text
compilation_error syntax info c =
    let c' = record c {
      compilation_error_count = c.compilation_error_count + 1;
      err = c.err ++ error_text syntax info c;
    } in
    if ltb 20 (c.compilation_error_count + 1)
    then exited (record c' { err = c'.err ++ codes "Too many compilation errors, aborting\n" })
    else done tt c'
