-- ===== src/Kagu/Keyboard.antt =====
-- keyboard.hpp: the modes of the keyboard.
use kagu_os.Prelude.{◌≡◌, refl, ◌||◌, if◌then◌else◌}
use kagu_os.Std.Text.{Bytes, codes, beq}

pub data KeyboardMode : Type 0 where
  read_line read_line_silently read_char read_char_silently : KeyboardMode

unfoldable pub keyboard_mode_value : KeyboardMode → Bytes
keyboard_mode_value read_line = codes "KeyboardReadLine"
keyboard_mode_value read_line_silently = codes "KeyboardReadLineSilently"
keyboard_mode_value read_char = codes "KeyboardReadChar"
keyboard_mode_value read_char_silently = codes "KeyboardReadCharSilently"

unfoldable pub parse_keyboard_mode : Bytes → KeyboardMode
unfolding beq
parse_keyboard_mode value =
    if beq value (codes "KeyboardReadLine") || beq value (codes "KEYBOARD_READ_LINE")
    then read_line
    else if beq value (codes "KeyboardReadLineSilently")
        || beq value (codes "KEYBOARD_READ_LINE_SILENTLY")
    then read_line_silently
    else if beq value (codes "KeyboardReadChar") || beq value (codes "KEYBOARD_READ_CHAR")
    then read_char
    else if beq value (codes "KeyboardReadCharSilently")
        || beq value (codes "KEYBOARD_READ_CHAR_SILENTLY")
    then read_char_silently
    else read_line

-- The text of a mode is read back as the mode.
pub parse_keyboard_mode-keyboard_mode_value :
    (m : KeyboardMode) → parse_keyboard_mode (keyboard_mode_value m) ≡ m
unfolding parse_keyboard_mode keyboard_mode_value
parse_keyboard_mode-keyboard_mode_value read_line = refl
parse_keyboard_mode-keyboard_mode_value _ = refl
