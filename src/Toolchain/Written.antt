-- ===== src/Toolchain/Written.antt =====
-- What a `write` stores, by what stands in the source.
use kagu_os.Prelude.{◌≡◌, refl, ap, ◌∙◌, false, none, some, List, [], ◌∷◌, ◌++◌, ℕ, pos}
use kagu_os.Std.Text.{Bytes, codes, is_empty, strip_prefix}
use kagu_os.Std.Number.{to_string}
use kagu_os.Std.Map.{lookup}
use kagu_os.Kagu.Opcodes.{Operation, operation_code}
use kagu_os.Kagu.Keyboard.{KeyboardMode, keyboard_mode_value, read_line}
use kagu_os.Asm.Symbols.{lookup_symbol, integer}
use kagu_os.Asm.Symbols.Names.{
  symbol_of_operation, symbol_of_mode, lookup_symbol-symbol_of_operation,
  lookup_symbol-symbol_of_mode,
}
use kagu_os.Asm.Lexer.{LexemeType}
use kagu_os.Asm.Lines.{constant_of}
use kagu_os.Asm.Layout.{resolve_constant}
use kagu_os.Asm.State.{LabelInfo, ConstantInfo, SymbolTable, get_numeric_symbol, get_string_symbol}
use kagu_os.Asm.Lexer
use kagu_os.Kagu.Opcodes

-- What `write` of a lexeme of this kind and value stores, with the key of its constant and the text
-- that the constant has before the labels are known: a string stores its characters, a number its
-- digits, the symbol of an operation, a system call or a colour the decimal number that it stands for,
-- the symbol of a keyboard mode the name of the mode, and a label its address.
pub data Writes (labels : List (Bytes × LabelInfo))
    : LexemeType → Bytes → Bytes → Bytes → Bytes → Type 0 where
  of_string : (s : Bytes) → Writes labels Lexer.string s (b'"' ∷ (s ++ b'"' ∷ [])) s s
  of_number :
      (n : Bytes)
      → is_empty n ≡ false
      → strip_prefix (codes "LABEL:") n ≡ none
      → Writes labels Lexer.number n n n n
  of_operation :
      (op : Operation)
      → Writes labels Lexer.operation
          (symbol_of_operation op)
          (symbol_of_operation op)
          (to_string (pos (operation_code op)))
          (to_string (pos (operation_code op)))
  of_sys_call :
      (name : Bytes) (n : ℕ)
      → is_empty name ≡ false
      → strip_prefix (codes "LABEL:") name ≡ none
      → lookup_symbol name ≡ some (integer n)
      → Writes labels Lexer.sys_call name name (to_string (pos n)) (to_string (pos n))
  of_color :
      (name : Bytes) (n : ℕ)
      → is_empty name ≡ false
      → strip_prefix (codes "LABEL:") name ≡ none
      → lookup_symbol name ≡ some (integer n)
      → Writes labels Lexer.color name name (to_string (pos n)) (to_string (pos n))
  of_mode :
      (m : KeyboardMode)
      → Writes labels Lexer.mode
          (symbol_of_mode m)
          (symbol_of_mode m)
          (keyboard_mode_value m)
          (keyboard_mode_value m)
  of_label :
      (x : Bytes) (li : LabelInfo)
      → lookup x labels ≡ some li
      → Writes labels Lexer.label x (codes "LABEL:" ++ x) [] (to_string (pos li.address))

operation_key :
    (op : Operation)
    → (is_empty (symbol_of_operation op) ≡ false)
      × (strip_prefix (codes "LABEL:") (symbol_of_operation op) ≡ none)
unfolding symbol_of_operation strip_prefix
operation_key Opcodes.add = (refl, refl)
operation_key _ = (refl, refl)

mode_key :
    (m : KeyboardMode)
    → (is_empty (symbol_of_mode m) ≡ false)
      × (strip_prefix (codes "LABEL:") (symbol_of_mode m) ≡ none)
unfolding symbol_of_mode strip_prefix
mode_key read_line = (refl, refl)
mode_key _ = (refl, refl)

module _ (labels : List (Bytes × LabelInfo)) where
  pub Writes-key :
      (t : LexemeType) (v key first text : Bytes)
      → Writes labels t v key first text
      → is_empty key ≡ false
  Writes-key _ _ _ _ _ (of_string s) = refl
  Writes-key _ _ _ _ _ (of_number n full plain) = full
  Writes-key _ _ _ _ _ (of_operation op) = (operation_key op).0
  Writes-key _ _ _ _ _ (of_sys_call name n full plain at) = full
  Writes-key _ _ _ _ _ (of_color name n full plain at) = full
  Writes-key _ _ _ _ _ (of_mode m) = (mode_key m).0
  Writes-key _ _ _ _ _ (of_label x li at) = refl

  pub constant_of-Writes :
      (t : LexemeType) (v key first text : Bytes) (table : SymbolTable)
      → Writes labels t v key first text
      → constant_of t v table ≡ some (key, first)
  unfolding constant_of get_numeric_symbol get_string_symbol
  constant_of-Writes _ _ _ _ _ table (of_string s) = refl
  constant_of-Writes _ _ _ _ _ table (of_number n full plain) = refl
  constant_of-Writes _ _ _ _ _ table (of_operation op) =
      rw (lookup_symbol-symbol_of_operation op) refl
  constant_of-Writes _ _ _ _ _ table (of_sys_call name n full plain at) = rw at refl
  constant_of-Writes _ _ _ _ _ table (of_color name n full plain at) = rw at refl
  constant_of-Writes _ _ _ _ _ table (of_mode m) = rw (lookup_symbol-symbol_of_mode m) refl
  constant_of-Writes _ _ _ _ _ table (of_label x li at) = refl

  -- A constant whose key is that of no label keeps its text.
  resolved_plain :
      (ci : ConstantInfo)
      → strip_prefix (codes "LABEL:") ci.raw_value ≡ none
      → (resolve_constant labels ci).evaluated_value ≡ ci.evaluated_value
  unfolding resolve_constant
  resolved_plain ci h = rw h refl

  resolved_label :
      (ci : ConstantInfo) (x : Bytes) (li : LabelInfo)
      → ci.raw_value ≡ codes "LABEL:" ++ x
      → lookup x labels ≡ some li
      → (resolve_constant labels ci).evaluated_value ≡ to_string (pos li.address)
  unfolding resolve_constant strip_prefix
  resolved_label ci x li h at = rw (h, at) refl

  plain_key :
      (ci : ConstantInfo) (key : Bytes)
      → ci.raw_value ≡ key
      → strip_prefix (codes "LABEL:") key ≡ none
      → (resolve_constant labels ci).evaluated_value ≡ ci.evaluated_value
  plain_key ci key is h = resolved_plain ci (ap (strip_prefix (codes "LABEL:")) is ∙ h)

  pub resolve_constant-Writes :
      (t : LexemeType) (v key first text : Bytes) (ci : ConstantInfo)
      → Writes labels t v key first text
      → ci.raw_value ≡ key
      → ci.evaluated_value ≡ first
      → (resolve_constant labels ci).evaluated_value ≡ text
  resolve_constant-Writes _ _ _ _ _ ci (of_string s) k v =
      plain_key ci _ k (unfold strip_prefix in refl) ∙ v
  resolve_constant-Writes _ _ _ _ _ ci (of_number n full plain) k v = plain_key ci _ k plain ∙ v
  resolve_constant-Writes _ _ _ _ _ ci (of_operation op) k v =
      plain_key ci _ k (operation_key op).1 ∙ v
  resolve_constant-Writes _ _ _ _ _ ci (of_sys_call name n full plain at) k v =
      plain_key ci _ k plain ∙ v
  resolve_constant-Writes _ _ _ _ _ ci (of_color name n full plain at) k v =
      plain_key ci _ k plain ∙ v
  resolve_constant-Writes _ _ _ _ _ ci (of_mode m) k v = plain_key ci _ k (mode_key m).1 ∙ v
  resolve_constant-Writes _ _ _ _ _ ci (of_label x li at) k v = resolved_label ci x li k at
