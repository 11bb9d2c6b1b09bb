-- ===== src/Display/Bitmap.antt =====
-- `drawBitmap` of display.cpp: the canvas that it leaves.
use kagu_os.Prelude.{
  ℕ, ◌≡◌, refl, ◌∙◌, Bool-cases, inl, inr, true, false, ◌||◌, Option, none, some, List, [], ◌∷◌,
  arith, if◌then◌else◌, if_intro, length, ◌==◌, ℤ, ◌+ℤ◌, ltb_ℤ, leb_ℤ, pos,
}
use kagu_os.Std.Text.{Bytes}
use kagu_os.Std.Fault.{ok}
use kagu_os.Std.Number.{int_add}
use kagu_os.Canvas.{
  Canvas, is_blank, initialize, resize, set_pixel, draw_row, draw_rows, point, put, at_least, fit,
}
use kagu_os.Canvas.Shape.{IsCanvas, fit-IsCanvas, draw_rows-IsCanvas}
use kagu_os.Display.{Display, draw_bitmap, bitmap_width}

-- Two canvases of one size.
abbrev SameSize : Canvas → Canvas → Type 0
SameSize c c' = (c'.width ≡ c.width) × (c'.height ≡ c.height)

put-SameSize : (p : Option (ℕ × ℕ)) (color : ℕ) (c : Canvas) → SameSize c (put p color c)
put-SameSize none color c = (refl, refl)
put-SameSize (some (i, j)) color c = (refl, refl)

draw_row-SameSize : (x y : ℤ) (ps : Bytes) (c : Canvas) → SameSize c (draw_row x y ps c)
unfolding draw_row set_pixel
draw_row-SameSize x y [] c = (refl, refl)
draw_row-SameSize x y (p ∷ ps) c =
    let (w, h) = put-SameSize (point x y c) p c in
    let (w', h') = draw_row-SameSize (x +ℤ pos 1) y ps (put (point x y c) p c) in (w' ∙ w, h' ∙ h)

draw_rows-SameSize : (x y : ℤ) (rows : List Bytes) (c : Canvas) → SameSize c (draw_rows x y rows c)
unfolding draw_rows
draw_rows-SameSize x y [] c = (refl, refl)
draw_rows-SameSize x y (r ∷ rows) c =
    let (w, h) = draw_row-SameSize x y r c in
    let (w', h') = draw_rows-SameSize x (y +ℤ pos 1) rows (draw_row x y r c) in (w' ∙ w, h' ∙ h)

-- A canvas of this width and height.
abbrev IsSized : ℕ → ℕ → Canvas → Type 0
IsSized w h c = (c.width ≡ w) × (c.height ≡ h)

resize-IsSized :
    (nw nh : ℤ) (c : Canvas)
    → (ltb_ℤ (pos c.width) nw || ltb_ℤ (pos c.height) nh) ≡ true
    → IsSized
        (at_least c.width nw)
        (at_least c.height nh)
        (resize (at_least c.width nw) (at_least c.height nh) c)
unfolding resize
resize-IsSized nw nh c h = ground arith

fits-IsSized :
    (nw nh : ℤ) (c : Canvas)
    → (ltb_ℤ (pos c.width) nw || ltb_ℤ (pos c.height) nh) ≡ false
    → IsSized (at_least c.width nw) (at_least c.height nh) c
fits-IsSized nw nh c h = ground arith

-- The size of the canvas before the bitmap is drawn.
fit-IsSized :
    (nw nh : ℤ) (sw sh : ℕ) (c : Canvas)
    → IsSized
        (at_least (if is_blank c then sw else c.width) nw)
        (at_least (if is_blank c then sh else c.height) nh)
        (fit nw nh sw sh c)
unfolding fit
fit-IsSized nw nh sw sh c = elim (Bool-cases (is_blank c)) [
  | inl e ↦ rw e (unfold initialize in (refl, refl))
  | inr e ↦ rw e (
      if_intro (IsSized (at_least c.width nw) (at_least c.height nh))
        (ltb_ℤ (pos c.width) nw || ltb_ℤ (pos c.height) nh)
        (resize (at_least c.width nw) (at_least c.height nh) c) c (resize-IsSized nw nh c)
        (fits-IsSized nw nh c))
]

at_least_room : (n : ℕ) (z : ℤ) → leb_ℤ z (pos (at_least n z)) ≡ true
at_least_room n z = ground arith

-- Drawing a bitmap that is not empty, where the right and the lower edge are ints, keeps the canvas in
-- shape: exactly as many rows as it is high, each exactly as long as it is wide. A canvas that was
-- blank has the size of the screen, any other its old size, each enlarged where the bitmap needs
-- more, so that the bitmap ends inside it. What is not the canvas stays.
pub draw_bitmap-IsCanvas :
    (x y w h : ℤ) (bitmap : List Bytes) (d : Display)
    → IsCanvas d.canvas
    → (bitmap_width bitmap == 0) ≡ false
    → int_add x (pos (bitmap_width bitmap)) ≡ ok w
    → int_add y (pos (length bitmap)) ≡ ok h
    → (c : Canvas) × (draw_bitmap x y bitmap d ≡ ok (record d { canvas = c }))
      × IsCanvas c
      × (c.width ≡ at_least (if is_blank d.canvas then d.screen_width else d.canvas.width) w)
      × (c.height ≡ at_least (if is_blank d.canvas then d.screen_height else d.canvas.height) h)
      × (leb_ℤ w (pos c.width) ≡ true)
      × (leb_ℤ h (pos c.height) ≡ true)
unfolding draw_bitmap
draw_bitmap-IsCanvas x y w h bitmap d k full right lower =
    let fitted = fit w h d.screen_width d.screen_height d.canvas in
    let (fw, fh) = fit-IsSized w h d.screen_width d.screen_height d.canvas in
    let (rw', rh') = draw_rows-SameSize x y bitmap fitted in
    (
      draw_rows x y bitmap fitted,
      rw (full, right, lower) refl,
      draw_rows-IsCanvas x y bitmap fitted
          (fit-IsCanvas w h d.screen_width d.screen_height d.canvas k),
      rw' ∙ fw,
      rh' ∙ fh,
      rw (rw' ∙ fw) (at_least_room _ w),
      rw (rh' ∙ fh) (at_least_room _ h),
    )
