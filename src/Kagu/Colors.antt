-- ===== src/Kagu/Colors.antt =====
-- colors.hpp: the colour codes, the terminal's escape sequences and the canvas characters.
use kagu_os.Prelude.{
  ℕ, ◌+◌, ◌-◌, ◌*◌, String, ◌≡◌, refl, inl, inr, Option, none, some, List, [], ◌∷◌, ◌++◌, leb, ◌==◌,
  if◌then◌else◌, Bool-cases, get_or,
}
use kagu_os.Std.Text.{Bytes, codes, is_digit}

-- `enum class Color`, by its numbers from `No` = 0 to `Pink` = 9
pub data Color : Type 0 where
  no_color green yellow red black blue magenta cyan white pink : Color

abbrev pub color_code : Color → ℕ
color_code no_color = 0
color_code green = 1
color_code yellow = 2
color_code red = 3
color_code black = 4
color_code blue = 5
color_code magenta = 6
color_code cyan = 7
color_code white = 8
color_code pink = 9

abbrev colors : List Color
colors = no_color ∷ green ∷ yellow ∷ red ∷ black ∷ blue ∷ magenta ∷ cyan ∷ white ∷ pink ∷ []

-- `fromInt<Color>`: a number with no enumerator takes the `default` of every switch, as `No` does.
unfoldable pub color_of : ℕ → Color
color_of n = get_or colors n no_color

-- an escape sequence: the character 27 and the text behind it
abbrev escape : String → Bytes
escape s = 27 ∷ codes s

abbrev pub reset : Bytes
reset = escape "[0m"

unfoldable pub get_foreground_color : Color → Bytes
get_foreground_color green = escape "[92m"
get_foreground_color yellow = escape "[93m"
get_foreground_color red = escape "[91m"
get_foreground_color black = escape "[30m"
get_foreground_color blue = escape "[94m"
get_foreground_color magenta = escape "[95m"
get_foreground_color cyan = escape "[96m"
get_foreground_color white = escape "[97m"
get_foreground_color pink = escape "[38;5;205m"
get_foreground_color no_color = reset

abbrev pub bg_default : Bytes
bg_default = escape "[49m"

unfoldable pub get_background_color : Color → Bytes
get_background_color green = escape "[48;5;2m"
get_background_color yellow = escape "[48;5;226m"
get_background_color red = escape "[48;5;1m"
get_background_color black = escape "[40m"
get_background_color blue = escape "[48;5;4m"
get_background_color magenta = escape "[48;5;5m"
get_background_color cyan = escape "[48;5;6m"
get_background_color white = escape "[47m"
get_background_color pink = escape "[48;5;205m"
get_background_color no_color = bg_default

unfoldable pub color_to_canvas_char : Color → ℕ
color_to_canvas_char green = b'g'
color_to_canvas_char yellow = b'y'
color_to_canvas_char red = b'r'
color_to_canvas_char black = b'B'
color_to_canvas_char blue = b'b'
color_to_canvas_char magenta = b'm'
color_to_canvas_char cyan = b'c'
color_to_canvas_char white = b'w'
color_to_canvas_char pink = b'p'
color_to_canvas_char no_color = b'n'

unfoldable pub canvas_char_to_color : ℕ → Color
canvas_char_to_color c =
    if c == b'g'
    then green
    else if c == b'y'
    then yellow
    else if c == b'r'
    then red
    else if c == b'B'
    then black
    else if c == b'b'
    then blue
    else if c == b'm'
    then magenta
    else if c == b'c'
    then cyan
    else if c == b'w'
    then white
    else if c == b'p'
    then pink
    else no_color

-- The switch has one more colour, orange, than `Color` has.
unfoldable pub get_background_color_char : ℕ → Bytes
get_background_color_char c =
    if c == b'g'
    then escape "[48;5;2m"
    else if c == b'y'
    then escape "[48;5;226m"
    else if c == b'r'
    then escape "[48;5;1m"
    else if c == b'B'
    then escape "[40m"
    else if c == b'b'
    then escape "[48;5;4m"
    else if c == b'm'
    then escape "[48;5;5m"
    else if c == b'c'
    then escape "[48;5;6m"
    else if c == b'w'
    then escape "[47m"
    else if c == b'p'
    then escape "[48;5;205m"
    else if c == b'o'
    then escape "[48;5;214m"
    else bg_default

-- The value of a text of digits alone; `none` at the first other character.
unfoldable pub digits_only : ℕ → Bytes → Option ℕ
digits_only acc [] = some acc
digits_only acc (c ∷ s) =
    let rest = digits_only (acc * 10 + (c - 48)) s in if is_digit c then rest else none

-- A value above 9 has no colour. `val` is an `int`: a text whose value does not fit one overflows,
-- which is undefined, and is read here as the number that it spells.
abbrev small_color : Option ℕ → Option Color
small_color none = none
small_color (some n) = if leb n 9 then some (color_of n) else none

unfoldable pub get_background_color_str : Bytes → Bytes
unfolding get_background_color get_background_color_char color_of digits_only
get_background_color_str [] = bg_default
get_background_color_str (c ∷ []) =
    if is_digit c then get_background_color (color_of (c - 48)) else get_background_color_char c
get_background_color_str (c ∷ d ∷ s) = elim (small_color (digits_only 0 (c ∷ d ∷ s))) [
  | none ↦ bg_default
  | some col ↦ get_background_color col
]

unfoldable pub color_str_to_canvas_char : Bytes → ℕ
unfolding color_to_canvas_char color_of digits_only
color_str_to_canvas_char [] = b'n'
color_str_to_canvas_char (c ∷ []) =
    if is_digit c then color_to_canvas_char (color_of (c - 48)) else c
color_str_to_canvas_char (c ∷ d ∷ s) = elim (small_color (digits_only 0 (c ∷ d ∷ s))) [
  | none ↦ b'n'
  | some col ↦ color_to_canvas_char col
]

unfoldable pub colorize : Bytes → Color → Bytes
unfolding get_foreground_color
colorize text color = get_foreground_color color ++ text ++ reset

unfoldable pub error_text : Bytes → Bytes
unfolding colorize
error_text text = colorize text red

unfoldable pub success_text : Bytes → Bytes
unfolding colorize
success_text text = colorize text green

unfoldable pub warning_text : Bytes → Bytes
unfolding colorize
warning_text text = colorize text yellow

unfoldable pub debug_text : Bytes → Bytes
unfolding colorize
debug_text text = colorize text cyan

-- A colour is read back from its canvas character, and both spell one background.
canvas_round_trip :
    (c : Color)
    → (canvas_char_to_color (color_to_canvas_char c) ≡ c)
      × (get_background_color_char (color_to_canvas_char c) ≡ get_background_color c)
unfolding canvas_char_to_color color_to_canvas_char get_background_color_char get_background_color
canvas_round_trip green = (refl, refl)
canvas_round_trip _ = (refl, refl)

small_color_agree :
    (o : Option Color)
    → get_background_color_char (elim o [ none ↦ b'n' | some col ↦ color_to_canvas_char col ])
      ≡ elim o [ none ↦ bg_default | some col ↦ get_background_color col ]
small_color_agree none = unfold get_background_color_char in refl
small_color_agree (some col) = (canvas_round_trip col).1

-- A background text, decimal or canvas character, sets the terminal and the canvas alike.
background_str_agree :
    (s : Bytes)
    → get_background_color_char (color_str_to_canvas_char s) ≡ get_background_color_str s
background_str_agree [] =
    unfold color_str_to_canvas_char get_background_color_str get_background_color_char in refl
background_str_agree (c ∷ []) = elim (Bool-cases (is_digit c)) [
  | inl h ↦
      unfold color_str_to_canvas_char get_background_color_str in
      rw h (canvas_round_trip (color_of (c - 48))).1
  | inr h ↦ unfold color_str_to_canvas_char get_background_color_str in rw h refl
]
background_str_agree (c ∷ d ∷ s) =
    unfold color_str_to_canvas_char get_background_color_str in
    small_color_agree (small_color (digits_only 0 (c ∷ d ∷ s)))
