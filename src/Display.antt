-- ===== src/Display.antt =====
-- tools/kagu_boot/src/display.cpp: the terminal, as the text written to the two output streams, and
-- the off-screen canvas, which is in Canvas. The sizes of the screen are not negative.
pub mod Bitmap
use kagu_os.Prelude.{
  ℕ, zero, suc, ◌+◌, Bool, true, false, ◌&&◌, ◌||◌, List, [], ◌∷◌, ◌++◌, ltb, ◌==◌, if◌then◌else◌,
  length, replicate, ℤ, pos_part, ◌+ℤ◌, leb_ℤ, pos,
}
use kagu_os.Std.Text.{Bytes, codes, beq, is_empty}
use kagu_os.Std.Fault.{Result, ok, fail, ◌>>=◌}
use kagu_os.Std.Number.{to_string, stoi, int_add}
use kagu_os.Kagu.Colors.{
  Color, no_color, red, color_of, reset, get_foreground_color, get_background_color,
  get_background_color_char, get_background_color_str, color_str_to_canvas_char, colorize,
}
use kagu_os.Canvas.{Canvas, is_blank, initialize, clear_pixels, resize, draw_rows, fit, row_at}

pub record Display : Type 0 where
  pub canvas : Canvas
  pub screen_width : ℕ
  pub screen_height : ℕ
  pub current_background : Color
  pub current_color : Color
  pub out : Bytes
  pub err : Bytes

-- `Display::Display`
unfoldable pub new : Display
new = record {
  canvas = record { pixels = []; width = 0; height = 0; background_color = b'n'; dirty = false };
  screen_width = 80;
  screen_height = 24;
  current_background = no_color;
  current_color = no_color;
  out = [];
  err = [];
}

-- `std::cout << text`
abbrev pub emit : Bytes → Display → Display
emit text d = record d { out = d.out ++ text }

abbrev is_no_color : Color → Bool
is_no_color no_color = true
is_no_color _ = false

colored : Bytes → Color → Bytes
colored text color = if is_no_color color then text else get_foreground_color color ++ text ++ reset

unfoldable pub print : Bytes → Color → Display → Display
unfolding colored
print text color d = emit (colored text color) d

unfoldable pub println : Bytes → Color → Display → Display
unfolding colored
println text color d = emit (colored text color ++ 10 ∷ []) d

-- The colour of a text: none where it is empty, zero, no number, or a number outside 0 to 8.
unfoldable pub text_color : Bytes → Color
unfolding color_of
text_color s = if is_empty s || beq s (codes "0") then no_color else elim (stoi s) [
  | fail e ↦ no_color
  | ok z ↦ if leb_ℤ (pos 0) z && leb_ℤ z (pos 8) then color_of (pos_part z) else no_color
]

unfoldable pub print_with_color_str : Bytes → Bytes → Bool → Display → Display
unfolding print println
print_with_color_str text color newline d =
    if newline then println text (text_color color) d else print text (text_color color) d

unfoldable pub set_background : Color → Display → Display
unfolding get_background_color
set_background color d = emit (get_background_color color) (record d { current_background = color })

-- `setBackgroundStr`: the escape sequence is returned, written, and given to the canvas as a character.
unfoldable pub set_background_str : Bytes → Display → Bytes × Display
set_background_str color d = (
  get_background_color_str color,
  record d {
    out = d.out ++ get_background_color_str color;
    canvas = record d.canvas { background_color = color_str_to_canvas_char color };
  },
)

unfoldable pub reset_background : Display → Display
unfolding set_background
reset_background = set_background no_color

-- `reset`, of the terminal and its colours
unfoldable pub reset_terminal : Display → Display
reset_terminal d = emit reset (record d { current_background = no_color; current_color = no_color })

-- The escape sequence that moves the cursor, whose coordinates count from 1.
unfoldable pub cursor_sequence : ℤ → ℤ → Bytes
cursor_sequence x y =
    27 ∷ (codes "[" ++ to_string (y +ℤ pos 1) ++ codes ";" ++ to_string (x +ℤ pos 1) ++ codes "H")

abbrev hide_cursor : Bytes
hide_cursor = 27 ∷ codes "[?25l"

unfoldable pub show_cursor : Display → Display
show_cursor = emit (27 ∷ codes "[?25h")

-- The rows that `fillScreen` writes from row `y` on.
fill_rows : ℕ → ℕ → ℕ → Bytes → Bytes
fill_rows zero width y bg = []
fill_rows (suc n) width y bg =
    cursor_sequence (pos 0) (pos y) ++ bg ++ replicate width 32 ++ fill_rows n width (y + 1) bg

unfoldable pub fill_screen : Display → Display
unfolding fill_rows cursor_sequence
fill_screen d =
    emit
      (fill_rows d.screen_height d.screen_width 0
          (get_background_color_char d.canvas.background_color)
        ++ reset)
      d

-- `clear`: the canvas is made anew at the size of the screen, in its background colour.
unfoldable pub clear : Display → Display
unfolding fill_screen initialize clear_pixels
clear d =
    let canvas =
      initialize d.screen_width d.screen_height d.canvas.background_color (clear_pixels d.canvas) in
    emit (cursor_sequence (pos 0) (pos 0)) (
      fill_screen
        (emit (hide_cursor ++ cursor_sequence (pos 0) (pos 0)) (record d { canvas = canvas })))

unfoldable pub set_canvas_background : ℕ → Display → Display
set_canvas_background color d = record d { canvas = record d.canvas { background_color = color } }

unfoldable pub set_canvas_size : ℕ → ℕ → Display → Display
unfolding resize
set_canvas_size width height d = record d {
  screen_width = width;
  screen_height = height;
  canvas = if is_blank d.canvas then d.canvas else resize width height d.canvas;
}

-- The length of the longest row.
unfoldable pub bitmap_width : List Bytes → ℕ
bitmap_width [] = 0
bitmap_width (row ∷ rows) =
    let w = bitmap_width rows in if ltb w (length row) then length row else w

-- `drawBitmap`: the canvas is made or widened so that the bitmap has room to the right and below.
unfoldable pub draw_bitmap : ℤ → ℤ → List Bytes → Display → Result Display
unfolding bitmap_width fit draw_rows
draw_bitmap x y bitmap d = if bitmap_width bitmap == 0 then ok d else do
  required_width ← int_add x (pos (bitmap_width bitmap))
  required_height ← int_add y (pos (length bitmap))
  ok (record d {
    canvas =
        draw_rows x y bitmap
          (fit required_width required_height d.screen_width d.screen_height d.canvas);
  })

-- `renderCanvasRow`: a colour is written where it differs from the one before.
render_cells : ℕ → Bytes → ℕ → ℕ → Bytes
render_cells zero row bg current = []
render_cells (suc n) [] bg current =
    (if bg == current then [] else get_background_color_char bg) ++ 32 ∷ render_cells n [] bg bg
render_cells (suc n) (p ∷ row) bg current =
    (if p == current then [] else get_background_color_char p) ++ 32 ∷ render_cells n row bg p

render_rows : ℕ → ℕ → ℤ → ℤ → Canvas → Bytes
render_rows zero row x y c = []
render_rows (suc n) row x y c =
    cursor_sequence x (y +ℤ pos row)
    ++ render_cells c.width (row_at row c) c.background_color 0
    ++ render_rows n (row + 1) x y c

unfoldable pub render : ℤ → ℤ → Display → Display
unfolding render_rows render_cells
render x y d = if is_blank d.canvas then d else record d {
  out = d.out ++ hide_cursor ++ render_rows d.canvas.height 0 x y d.canvas ++ reset;
  canvas = record d.canvas { dirty = false };
}

unfoldable pub render_origin : Display → Display
unfolding render
render_origin = render (pos 0) (pos 0)

-- A blank in the colour of each character.
unfoldable pub bitmap_cells : Bytes → Bytes
bitmap_cells [] = []
bitmap_cells (c ∷ line) = get_background_color_char c ++ b' ' ∷ bitmap_cells line

unfoldable pub render_bitmap_line : Bytes → Display → Display
unfolding bitmap_cells
render_bitmap_line line = emit (bitmap_cells line ++ (reset ++ 10 ∷ []))

-- `error`, on the error stream
unfoldable pub error : Bytes → Display → Display
unfolding colorize
error message d = record d { err = d.err ++ colorize message red ++ 10 ∷ [] }

unfoldable pub info : Bytes → Display → Display
info message d = emit (codes "[INFO] " ++ message ++ 10 ∷ []) d

unfoldable pub debug : Bytes → Bool → ℤ → Display → Display
debug message is_kernel pid d =
    emit
      ((if is_kernel
          then 27 ∷ codes "[34m[KERNEL]"
          else 27 ∷ (codes "[32m[PID " ++ to_string pid ++ codes "]"))
        ++ codes "[DEBUG] "
        ++ message
        ++ reset
        ++ 10 ∷ [])
      d
