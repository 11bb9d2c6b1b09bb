-- ===== src/Canvas.antt =====
-- The off-screen canvas of display.cpp: rows of colour characters.
pub mod Shape
pub mod Pixels
use kagu_os.Prelude.{
  ℕ, zero, suc, ◌-◌, Bool, true, false, ◌&&◌, ◌||◌, Option, none, some, List, [], ◌∷◌, ◌++◌, ltb,
  leb, ◌==◌, if◌then◌else◌, get_or, set, replicate, ℤ, pos_part, ◌+ℤ◌, ltb_ℤ, pos, negsuc,
}
use kagu_os.Std.Text.{Bytes}

pub record Canvas : Type 0 where
  pub pixels : List Bytes
  pub width : ℕ
  pub height : ℕ
  pub background_color : ℕ
  pub dirty : Bool

-- `Canvas::empty`
unfoldable pub is_blank : Canvas → Bool
is_blank c = c.width == 0 || c.height == 0

-- `Canvas::reset`
unfoldable pub clear_pixels : Canvas → Canvas
clear_pixels c = record c { pixels = []; width = 0; height = 0; dirty = false }

unfoldable pub fill_each : ℕ → ℕ → List Bytes → List Bytes
fill_each width color [] = []
fill_each width color (row ∷ rows) = replicate width color ∷ fill_each width color rows

unfoldable pub fill : Canvas → Canvas
unfolding fill_each
fill c = record c { pixels = fill_each c.width c.background_color c.pixels; dirty = true }

unfoldable pub initialize : ℕ → ℕ → ℕ → Canvas → Canvas
initialize w h bg c = record c {
  background_color = bg;
  width = w;
  height = h;
  pixels = replicate h (replicate w bg);
  dirty = true;
}

unfoldable pub widen : ℕ → ℕ → List Bytes → List Bytes
widen n color [] = []
widen n color (row ∷ rows) = (row ++ replicate n color) ∷ widen n color rows

-- `pixels.resize(n, row)`, which may also drop rows
unfoldable pub resize_rows : ℕ → Bytes → List Bytes → List Bytes
resize_rows zero row rows = []
resize_rows (suc n) row [] = row ∷ resize_rows n row []
resize_rows (suc n) row (r ∷ rows) = r ∷ resize_rows n row rows

unfoldable pub resize : ℕ → ℕ → Canvas → Canvas
unfolding widen resize_rows
resize w h c =
    if leb w c.width && leb h c.height
    then c
    else let widened =
        if ltb c.width w then widen (w - c.width) c.background_color c.pixels else c.pixels in
      record c {
        pixels =
            if ltb c.height h
            then resize_rows h (replicate w c.background_color) widened
            else widened;
        width = w;
        height = h;
        dirty = true;
      }

-- Whether a coordinate is from 0 to below a bound, with the number that it is.
abbrev pub inside : ℤ → ℕ → Option ℕ
inside (pos n) bound = if ltb n bound then some n else none
inside (negsuc n) bound = none

abbrev pub point : ℤ → ℤ → Canvas → Option (ℕ × ℕ)
point x y c = elim (inside x c.width) [
  | none ↦ none
  | some i ↦ elim (inside y c.height) [ none ↦ none | some j ↦ some (i, j) ]
]

unfoldable pub row_at : ℕ → Canvas → Bytes
row_at j c = get_or c.pixels j []

abbrev pub put : Option (ℕ × ℕ) → ℕ → Canvas → Canvas
put none color c = c
put (some (i, j)) color c = record c {
  pixels = set c.pixels j (set (get_or c.pixels j []) i color);
  dirty = true;
}

unfoldable pub set_pixel : ℤ → ℤ → ℕ → Canvas → Canvas
set_pixel x y color c = put (point x y c) color c

unfoldable pub get_pixel : ℤ → ℤ → Canvas → ℕ
get_pixel x y c = elim (point x y c) [
  | none ↦ c.background_color
  | some (i, j) ↦ get_or (get_or c.pixels j []) i 0
]

-- The two loops of `drawBitmap`.
unfoldable pub draw_row : ℤ → ℤ → Bytes → Canvas → Canvas
unfolding set_pixel
draw_row x y [] c = c
draw_row x y (p ∷ ps) c = draw_row (x +ℤ pos 1) y ps (set_pixel x y p c)

unfoldable pub draw_rows : ℤ → ℤ → List Bytes → Canvas → Canvas
unfolding draw_row
draw_rows x y [] c = record c { dirty = true }
draw_rows x y (row ∷ rows) c = draw_rows x (y +ℤ pos 1) rows (draw_row x y row c)

-- `std::max` of a size and a required size
abbrev pub at_least : ℕ → ℤ → ℕ
at_least n z = if ltb_ℤ (pos n) z then pos_part z else n

-- The canvas before a bitmap is drawn: made at the first bitmap, widened where it is too small.
unfoldable pub fit : ℤ → ℤ → ℕ → ℕ → Canvas → Canvas
unfolding initialize resize
fit need_w need_h sw sh c =
    if is_blank c
    then initialize (at_least sw need_w) (at_least sh need_h) c.background_color c
    else if ltb_ℤ (pos c.width) need_w || ltb_ℤ (pos c.height) need_h
    then resize (at_least c.width need_w) (at_least c.height need_h) c
    else c
