-- ===== src/Canvas/Shape.antt =====
-- The shape of the canvas of display.cpp: its rows against its width and height.
use kagu_os.Prelude.{
  ℕ, zero, suc, ◌+◌, ◌-◌, ◌≤◌, ◌≡◌, refl, ap, true, false, ◌&&◌, ◌||◌, Option, none, some, List, [],
  ◌∷◌, arith, ltb, leb, if◌then◌else◌, if_intro, length, get_or, set, replicate, length-append,
  length-set, length-replicate, All, All-replicate, All-set_get, ℤ, ◌+ℤ◌, ltb_ℤ, pos,
}
use kagu_os.Std.Text.{Bytes}
use kagu_os.Canvas.{
  Canvas, initialize, set_pixel, draw_row, draw_rows, widen, resize_rows, Bytes, point, put, resize,
  at_least, fit, is_blank,
}

-- As many rows as the canvas is high, each as long as it is wide.
pub record IsCanvas (c : Canvas) : Type 0 where
  pub rows : length c.pixels ≡ c.height
  pub columns : All (λ (row : Bytes). length row ≡ c.width) c.pixels

pub initialize-IsCanvas : (w h bg : ℕ) (c : Canvas) → IsCanvas (initialize w h bg c)
unfolding initialize
initialize-IsCanvas w h bg c = record {
  rows = omega (arith, length-replicate h (replicate w bg));
  columns =
      All-replicate (λ (row : Bytes). length row ≡ w) h (replicate w bg)
        (omega (arith, length-replicate w bg));
}

length-widen : (n color : ℕ) (rows : List Bytes) → length (widen n color rows) ≡ length rows
unfolding widen
length-widen n color [] = refl
length-widen n color (r ∷ rows) = ap suc (length-widen n color rows)

widen-columns :
    (w n w' color : ℕ) (rows : List Bytes)
    → w' ≡ w + n
    → All (λ (row : Bytes). length row ≡ w) rows
    → All (λ (row : Bytes). length row ≡ w') (widen n color rows)
unfolding widen
widen-columns w n w' color [] room h = tt
widen-columns w n w' color (r ∷ rows) room (hr, h) = (
  omega (arith, hr, room, length-append r (replicate n color), length-replicate n color),
  widen-columns w n w' color rows room h,
)

length-resize_rows : (n : ℕ) (row : Bytes) (rows : List Bytes) → length (resize_rows n row rows) ≡ n
unfolding resize_rows
length-resize_rows zero row rows = refl
length-resize_rows (suc n) row [] = ap suc (length-resize_rows n row [])
length-resize_rows (suc n) row (r ∷ rows) = ap suc (length-resize_rows n row rows)

resize_rows-columns :
    (w n : ℕ) (row : Bytes) (rows : List Bytes)
    → length row ≡ w
    → All (λ (row : Bytes). length row ≡ w) rows
    → All (λ (row : Bytes). length row ≡ w) (resize_rows n row rows)
unfolding resize_rows
resize_rows-columns w zero row rows hr h = tt
resize_rows-columns w (suc n) row [] hr h = (hr, resize_rows-columns w n row [] hr tt)
resize_rows-columns w (suc n) row (r ∷ rows) hr (h, hs) =
    (h, resize_rows-columns w n row rows hr hs)

put-IsCanvas : (p : Option (ℕ × ℕ)) (color : ℕ) (c : Canvas) → IsCanvas c → IsCanvas (put p color c)
put-IsCanvas none color c k = k
put-IsCanvas (some (i, j)) color c k = record {
  rows = omega (arith, k.rows, length-set c.pixels j (set (get_or c.pixels j []) i color));
  columns =
      All-set_get (λ (row : Bytes). length row ≡ c.width) (λ row. set row i color) c.pixels j []
        (λ row h. omega (arith, h, length-set row i color)) k.columns;
}

set_pixel-IsCanvas :
    (x y : ℤ) (color : ℕ) (c : Canvas) → IsCanvas c → IsCanvas (set_pixel x y color c)
unfolding set_pixel
set_pixel-IsCanvas x y color c k = put-IsCanvas (point x y c) color c k

draw_row-IsCanvas : (x y : ℤ) (ps : Bytes) (c : Canvas) → IsCanvas c → IsCanvas (draw_row x y ps c)
unfolding draw_row
draw_row-IsCanvas x y [] c k = k
draw_row-IsCanvas x y (p ∷ ps) c k =
    draw_row-IsCanvas (x +ℤ pos 1) y ps (set_pixel x y p c) (set_pixel-IsCanvas x y p c k)

pub draw_rows-IsCanvas :
    (x y : ℤ) (rows : List Bytes) (c : Canvas) → IsCanvas c → IsCanvas (draw_rows x y rows c)
unfolding draw_rows
draw_rows-IsCanvas x y [] c k = record { rows = k.rows; columns = k.columns }
draw_rows-IsCanvas x y (r ∷ rows) c k =
    draw_rows-IsCanvas x (y +ℤ pos 1) rows (draw_row x y r c) (draw_row-IsCanvas x y r c k)

-- The rows in the two stages of a resize.
widened-columns :
    (w : ℕ) (c : Canvas)
    → IsCanvas c
    → c.width ≤ w
    → All
        (λ (row : Bytes). length row ≡ w)
        (if ltb c.width w then widen (w - c.width) c.background_color c.pixels else c.pixels)
widened-columns w c k h =
    if_intro (λ (rows : List Bytes). All (λ (row : Bytes). length row ≡ w) rows) (ltb c.width w)
      (widen (w - c.width) c.background_color c.pixels) c.pixels
      (λ e.
        widen-columns c.width (w - c.width) w c.background_color c.pixels (omega arith) k.columns)
      (λ e. rw (← same e) k.columns)
  where
    same : ltb c.width w ≡ false → c.width ≡ w
    same e = ground arith

widened-length :
    (w : ℕ) (c : Canvas)
    → length (if ltb c.width w then widen (w - c.width) c.background_color c.pixels else c.pixels)
      ≡ length c.pixels
widened-length w c =
    if_intro (λ (rows : List Bytes). length rows ≡ length c.pixels) (ltb c.width w)
      (widen (w - c.width) c.background_color c.pixels) c.pixels
      (λ e. length-widen (w - c.width) c.background_color c.pixels) (λ e. refl)

resized_rows :
    (w h : ℕ) (c : Canvas) (rows : List Bytes)
    → length rows ≡ length c.pixels
    → IsCanvas c
    → c.height ≤ h
    → length (if ltb c.height h then resize_rows h (replicate w c.background_color) rows else rows)
      ≡ h
resized_rows w h c rows same k hh =
    if_intro (λ (rows' : List Bytes). length rows' ≡ h) (ltb c.height h)
      (resize_rows h (replicate w c.background_color) rows) rows
      (λ e. omega (arith, length-resize_rows h (replicate w c.background_color) rows))
      (λ e. omega (arith, same, k.rows, hh, not_lower e))
  where
    not_lower : ltb c.height h ≡ false → h ≤ c.height
    not_lower e = ground arith

resized_columns :
    (w h : ℕ) (c : Canvas) (rows : List Bytes)
    → All (λ (row : Bytes). length row ≡ w) rows
    → All
        (λ (row : Bytes). length row ≡ w)
        (if ltb c.height h then resize_rows h (replicate w c.background_color) rows else rows)
resized_columns w h c rows k =
    if_intro (λ (rows' : List Bytes). All (λ (row : Bytes). length row ≡ w) rows') (ltb c.height h)
      (resize_rows h (replicate w c.background_color) rows) rows
      (λ e.
        resize_rows-columns w h (replicate w c.background_color) rows
          (omega (arith, length-replicate w c.background_color)) k)
      (λ e. k)

-- A resize to a size that is no smaller either way, which is what `drawBitmap` asks for.
pub resize-IsCanvas :
    (w h : ℕ) (c : Canvas) → IsCanvas c → c.width ≤ w → c.height ≤ h → IsCanvas (resize w h c)
unfolding resize
resize-IsCanvas w h c k hw hh =
    let widened =
      if ltb c.width w then widen (w - c.width) c.background_color c.pixels else c.pixels in
    if_intro IsCanvas (leb w c.width && leb h c.height) c
      (record c {
        pixels =
            if ltb c.height h
            then resize_rows h (replicate w c.background_color) widened
            else widened;
        width = w;
        height = h;
        dirty = true;
      })
      (λ e. k)
      (λ e. record {
        rows = resized_rows w h c widened (widened-length w c) k hh;
        columns = resized_columns w h c widened (widened-columns w c k hw);
      })

at_least-le : (n : ℕ) (z : ℤ) → n ≤ at_least n z
at_least-le n z = ground arith

pub fit-IsCanvas : (nw nh : ℤ) (sw sh : ℕ) (c : Canvas) → IsCanvas c → IsCanvas (fit nw nh sw sh c)
unfolding fit
fit-IsCanvas nw nh sw sh c k =
    if_intro IsCanvas (is_blank c)
      (initialize (at_least sw nw) (at_least sh nh) c.background_color c)
      (if ltb_ℤ (pos c.width) nw || ltb_ℤ (pos c.height) nh
        then resize (at_least c.width nw) (at_least c.height nh) c
        else c)
      (λ e. initialize-IsCanvas (at_least sw nw) (at_least sh nh) c.background_color c)
      (λ e.
        if_intro IsCanvas (ltb_ℤ (pos c.width) nw || ltb_ℤ (pos c.height) nh)
          (resize (at_least c.width nw) (at_least c.height nh) c) c
          (λ e'.
            resize-IsCanvas (at_least c.width nw) (at_least c.height nh) c k
              (at_least-le c.width nw) (at_least-le c.height nh))
          (λ e'. k))
