-- ===== src/Asm/Symbols.antt =====
-- tools/kagu_asm/src/symbols.cpp and symbols.hpp: the names of symbols, read and printed.
pub mod Names
use kagu_os.Prelude.{ℕ, Bool, ◌||◌, Option, none, some, List, [], ◌∷◌, ◌==◌, if◌then◌else◌}
use kagu_os.Std.Text.{Bytes, strip_prefix, beq, codes, is_some}
use kagu_os.Kagu.SysCalls.{SysCall, sys_call_code}
use kagu_os.Kagu.Opcodes.{Operation, operation_code}
use kagu_os.Kagu.Keyboard.{KeyboardMode}
use kagu_os.Kagu.Colors.{Color, color_code}
use kagu_os.Kagu.Keyboard.{read_line, read_line_silently, read_char, read_char_silently}
use kagu_os.Std.Map.{lookup, name_of}
use kagu_os.Asm.Tables.{
  address_table, operation_table, sys_call_table, color_table, keyboard_mode_table, ModeEntry,
}
use kagu_os.Kagu.Registers.{Address, address}

-- `SymbolValue`
pub data SymbolValue : Type 0 where
  integer : ℕ → SymbolValue
  text : Bytes → SymbolValue

abbrev or_default : Option Bytes → Bytes → Bytes
or_default none s = s
or_default (some name) s = name

-- `name.substr(0, p.size()) == p`
abbrev pub begins : Bytes → Bytes → Bool
begins p s = is_some (strip_prefix p s)

unfoldable pub parse_address : Bytes → Option Address
unfolding lookup
parse_address name = lookup name address_table

unfoldable pub address_name : Address → Bytes
unfolding name_of
address_name a = or_default (name_of address (address a) address_table) (codes "UNKNOWN_ADDRESS")

-- A name of fewer than four characters is refused by its size, which none of the tests accepts.
unfoldable pub is_address_symbol : Bytes → Bool
unfolding strip_prefix beq
is_address_symbol name =
    begins (codes "REG_") name
    || begins (codes "SYS_") name
    || begins (codes "FREE_") name
    || beq name (codes "DISPLAY_BUFFER")
    || beq name (codes "DISPLAY_COLOR")
    || beq name (codes "DISPLAY_BACKGROUND")
    || beq name (codes "KEYBOARD_BUFFER")
    || beq name (codes "PROGRAM_COUNTER")
    || beq name (codes "KERNEL_START")

unfoldable pub parse_operation : Bytes → Option Operation
unfolding lookup
parse_operation name = lookup name operation_table

unfoldable pub operation_name : Operation → Bytes
unfolding name_of
operation_name op =
    or_default (name_of operation_code (operation_code op) operation_table) (codes "OP_UNKNOWN")

unfoldable pub is_operation_symbol : Bytes → Bool
unfolding strip_prefix
is_operation_symbol = begins (codes "OP_")

unfoldable pub parse_sys_call : Bytes → Option SysCall
unfolding lookup
parse_sys_call name = lookup name sys_call_table

unfoldable pub sys_call_name : SysCall → Bytes
unfolding name_of
sys_call_name sc =
    or_default (name_of sys_call_code (sys_call_code sc) sys_call_table) (codes "SYS_CALL_UNKNOWN")

unfoldable pub is_sys_call_symbol : Bytes → Bool
unfolding strip_prefix
is_sys_call_symbol = begins (codes "SYS_CALL_")

unfoldable pub parse_color : Bytes → Option Color
unfolding lookup
parse_color name = lookup name color_table

unfoldable pub color_name : Color → Bytes
unfolding name_of
color_name c = or_default (name_of color_code (color_code c) color_table) (codes "COLOR_UNKNOWN")

unfoldable pub is_color_symbol : Bytes → Bool
unfolding strip_prefix
is_color_symbol = begins (codes "COLOR_")

abbrev mode_code : KeyboardMode → ℕ
mode_code read_line = 0
mode_code read_line_silently = 1
mode_code read_char = 2
mode_code read_char_silently = 3

-- The entry of a mode, which has one name.
abbrev mode_of : Option ModeEntry → Option KeyboardMode
mode_of none = none
mode_of (some e) = some e.mode

unfoldable pub parse_keyboard_mode : Bytes → Option KeyboardMode
unfolding lookup
parse_keyboard_mode name = mode_of (lookup name keyboard_mode_table)

unfoldable pub keyboard_mode_name : KeyboardMode → Bytes
unfolding name_of
keyboard_mode_name m =
    or_default (name_of (λ (e : ModeEntry). mode_code e.mode) (mode_code m) keyboard_mode_table)
      (codes "KEYBOARD_READ_UNKNOWN")

abbrev value_in : KeyboardMode → List (Bytes × ModeEntry) → Bytes
value_in m [] = []
value_in m ((name, e) ∷ rest) = if mode_code e.mode == mode_code m then e.value else value_in m rest

unfoldable pub mode_value : KeyboardMode → Bytes
mode_value m = value_in m keyboard_mode_table

unfoldable pub is_keyboard_mode_symbol : Bytes → Bool
unfolding strip_prefix
is_keyboard_mode_symbol = begins (codes "KEYBOARD_READ_")

abbrev with_mode : Option KeyboardMode → Option SymbolValue
with_mode none = none
with_mode (some m) = some (text (mode_value m))

abbrev number {ℓ} : {A : Type ℓ} → (A → ℕ) → Option A → Option SymbolValue → Option SymbolValue
number f none other = other
number f (some a) other = some (integer (f a))

-- `lookupSymbol`: the tables in their order
unfoldable pub lookup_symbol : Bytes → Option SymbolValue
unfolding parse_address parse_operation parse_sys_call parse_color parse_keyboard_mode mode_value
lookup_symbol name = number address (parse_address name) (
    number operation_code (parse_operation name) (
      number sys_call_code (parse_sys_call name)
        (number color_code (parse_color name) (with_mode (parse_keyboard_mode name)))))
