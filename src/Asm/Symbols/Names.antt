-- ===== src/Asm/Symbols/Names.antt =====
-- The names of the symbols, printed and read, and the numbers behind them.
use kagu_os.Prelude.{ℕ, ◌≡◌, refl, some, pos}
use kagu_os.Kagu.SysCalls.{SysCall}
use kagu_os.Kagu.Keyboard.{KeyboardMode}
use kagu_os.Kagu.Colors.{Color}
use kagu_os.Std.Text.{beq, Bytes, codes}
use kagu_os.Kagu.Opcodes.{Operation, operation_of, operation_code, operation_of-operation_code}
use kagu_os.Kagu.Registers.{reg_a}
use kagu_os.Kagu.Colors.{no_color}
use kagu_os.Kagu.Keyboard.{
  read_line, read_line_silently, read_char, read_char_silently, keyboard_mode_value,
  parse_keyboard_mode-keyboard_mode_value, KeyboardMode,
}
use kagu_os.Kagu.Registers.{Address}
use kagu_os.Asm.Symbols.{
  parse_address, address_name, lookup_symbol, parse_operation, operation_name, parse_sys_call,
  sys_call_name, parse_color, color_name, parse_keyboard_mode, keyboard_mode_name, integer, text,
  Operation, beq, Color, KeyboardMode, SysCall, Bytes, operation_code,
}
use kagu_os.Kagu.Opcodes
use kagu_os.Kagu.SysCalls
use kagu_os.Kagu.Keyboard

parse_address-address_name : (a : Address) → parse_address (address_name a) ≡ some a
unfolding parse_address address_name beq
parse_address-address_name reg_a = refl
parse_address-address_name _ = refl

parse_operation-operation_name : (op : Operation) → parse_operation (operation_name op) ≡ some op
unfolding parse_operation operation_name beq
parse_operation-operation_name Opcodes.add = refl
parse_operation-operation_name _ = refl

parse_sys_call-sys_call_name : (sc : SysCall) → parse_sys_call (sys_call_name sc) ≡ some sc
unfolding parse_sys_call sys_call_name beq
parse_sys_call-sys_call_name SysCalls.exit = refl
parse_sys_call-sys_call_name _ = refl

parse_color-color_name : (c : Color) → parse_color (color_name c) ≡ some c
unfolding parse_color color_name beq
parse_color-color_name no_color = refl
parse_color-color_name _ = refl

parse_keyboard_mode-keyboard_mode_name :
    (m : KeyboardMode) → parse_keyboard_mode (keyboard_mode_name m) ≡ some m
unfolding parse_keyboard_mode keyboard_mode_name beq
parse_keyboard_mode-keyboard_mode_name read_line = refl
parse_keyboard_mode-keyboard_mode_name _ = refl

-- The name of every register, operation, system call, colour and keyboard mode is read back as what
-- it names.
names_round_trip :
    (a : Address) (op : Operation) (sc : SysCall) (c : Color) (m : KeyboardMode)
    → (parse_address (address_name a) ≡ some a)
      × (parse_operation (operation_name op) ≡ some op)
      × (parse_sys_call (sys_call_name sc) ≡ some sc)
      × (parse_color (color_name c) ≡ some c)
      × (parse_keyboard_mode (keyboard_mode_name m) ≡ some m)
names_round_trip a op sc c m = (
  parse_address-address_name a,
  parse_operation-operation_name op,
  parse_sys_call-sys_call_name sc,
  parse_color-color_name c,
  parse_keyboard_mode-keyboard_mode_name m,
)

-- The symbol of each operation and of each keyboard mode, as programs for the assembler spell it.
unfoldable pub symbol_of_operation : Operation → Bytes
symbol_of_operation Opcodes.add = codes "OP_ADD"
symbol_of_operation Opcodes.sub = codes "OP_SUB"
symbol_of_operation Opcodes.incr = codes "OP_INCR"
symbol_of_operation Opcodes.decr = codes "OP_DECR"
symbol_of_operation Opcodes.div = codes "OP_DIV"
symbol_of_operation Opcodes.modulo = codes "OP_MOD"
symbol_of_operation Opcodes.mul = codes "OP_MUL"
symbol_of_operation Opcodes.is_num = codes "OP_IS_NUM"
symbol_of_operation Opcodes.cmp_eq = codes "OP_CMP_EQ"
symbol_of_operation Opcodes.cmp_neq = codes "OP_CMP_NEQ"
symbol_of_operation Opcodes.cmp_lt = codes "OP_CMP_LT"
symbol_of_operation Opcodes.cmp_le = codes "OP_CMP_LE"
symbol_of_operation Opcodes.contains = codes "OP_CONTAINS"
symbol_of_operation Opcodes.get_length = codes "OP_GET_LENGTH"
symbol_of_operation Opcodes.starts_with = codes "OP_STARTS_WITH"
symbol_of_operation Opcodes.get_column = codes "OP_GET_COLUMN"
symbol_of_operation Opcodes.replace_column = codes "OP_REPLACE_COLUMN"
symbol_of_operation Opcodes.concat_with = codes "OP_CONCAT_WITH"
symbol_of_operation Opcodes.read_input = codes "OP_READ_INPUT"
symbol_of_operation Opcodes.display = codes "OP_DISPLAY"
symbol_of_operation Opcodes.display_ln = codes "OP_DISPLAY_LN"
symbol_of_operation Opcodes.read_block = codes "OP_READ_BLOCK"
symbol_of_operation Opcodes.write_block = codes "OP_WRITE_BLOCK"
symbol_of_operation Opcodes.set_background_color = codes "OP_SET_BACKGROUND_COLOR"
symbol_of_operation Opcodes.render_bitmap = codes "OP_RENDER_BITMAP"
symbol_of_operation Opcodes.sys_call = codes "OP_SYS_CALL"
symbol_of_operation Opcodes.sys_return = codes "OP_SYS_RETURN"
symbol_of_operation Opcodes.encrypt_data = codes "OP_ENCRYPT_DATA"
symbol_of_operation Opcodes.decrypt_data = codes "OP_DECRYPT_DATA"
symbol_of_operation Opcodes.nop = codes "OP_NOP"
symbol_of_operation Opcodes.halt = codes "OP_HALT"
symbol_of_operation Opcodes.unknown = codes "OP_UNKNOWN"

unfoldable pub symbol_of_mode : KeyboardMode → Bytes
symbol_of_mode read_line = codes "KEYBOARD_READ_LINE"
symbol_of_mode read_line_silently = codes "KEYBOARD_READ_LINE_SILENTLY"
symbol_of_mode read_char = codes "KEYBOARD_READ_CHAR"
symbol_of_mode read_char_silently = codes "KEYBOARD_READ_CHAR_SILENTLY"

pub lookup_symbol-symbol_of_operation :
    (op : Operation) → lookup_symbol (symbol_of_operation op) ≡ some (integer (operation_code op))
unfolding lookup_symbol symbol_of_operation beq
lookup_symbol-symbol_of_operation Opcodes.add = refl
lookup_symbol-symbol_of_operation _ = refl

pub lookup_symbol-symbol_of_mode :
    (m : KeyboardMode) → lookup_symbol (symbol_of_mode m) ≡ some (text (keyboard_mode_value m))
unfolding lookup_symbol symbol_of_mode beq keyboard_mode_value
lookup_symbol-symbol_of_mode read_line = refl
lookup_symbol-symbol_of_mode _ = refl

-- The assembler gives the symbol of an operation, as a program spells it, the number by which the
-- processor runs that operation, and the symbol of a keyboard mode the text by which the keyboard
-- reads in that mode.
pub symbols_agree :
    (op : Operation) (m : KeyboardMode)
    → ((n : ℕ) × (lookup_symbol (symbol_of_operation op) ≡ some (integer n))
        × (operation_of (pos n) ≡ some op))
      × ((s : Bytes) × (lookup_symbol (symbol_of_mode m) ≡ some (text s))
          × (Keyboard.parse_keyboard_mode s ≡ m))
symbols_agree op m = (
  (operation_code op, lookup_symbol-symbol_of_operation op, operation_of-operation_code op),
  (
    keyboard_mode_value m,
    lookup_symbol-symbol_of_mode m,
    parse_keyboard_mode-keyboard_mode_value m,
  ),
)
