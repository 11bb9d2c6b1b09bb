-- ===== src/Canvas/Pixels.antt =====
-- The pixels of a canvas, read behind a write.
use kagu_os.Prelude.{
  ℕ, ◌<◌, ◌≡◌, refl, ap, ◌≢◌, ◌⊎◌, inl, inr, true, some, [], arith, ◌==◌, Bool-cases, length,
  get_or, set, get_or-set_self, get_or-set_ne, All-get_or, pos,
}
use kagu_os.Std.Text.{Bytes}
use kagu_os.Canvas.{Canvas, set_pixel, get_pixel, Bytes, point}
use kagu_os.Canvas.Shape.{IsCanvas}

module _ (x y : ℕ) (c : Canvas) (hx : x < c.width) (hy : y < c.height) where
  point_inside : point (pos x) (pos y) c ≡ some (x, y)
  point_inside = ground arith

  get_pixel_inside : get_pixel (pos x) (pos y) c ≡ get_or (get_or c.pixels y []) x 0
  unfolding get_pixel
  get_pixel_inside = rw (get_pixel, point_inside) refl

  set_pixel_inside :
      (color : ℕ)
      → set_pixel (pos x) (pos y) color c
        ≡ record c { pixels = set c.pixels y (set (get_or c.pixels y []) x color); dirty = true }
  unfolding set_pixel
  set_pixel_inside color = rw (set_pixel, point_inside) refl

-- On a canvas in shape, a pixel that is set inside it has its colour, and every other pixel inside
-- it has the colour it had.
pub get_pixel-set_pixel :
    (x y x' y' color : ℕ) (c : Canvas)
    → IsCanvas c
    → x < c.width
    → y < c.height
    → x' < c.width
    → y' < c.height
    → (get_pixel (pos x) (pos y) (set_pixel (pos x) (pos y) color c) ≡ color)
      × (((x ≢ x') ⊎ (y ≢ y'))
          → get_pixel (pos x') (pos y') (set_pixel (pos x) (pos y) color c)
            ≡ get_pixel (pos x') (pos y') c)
get_pixel-set_pixel x y x' y' color c k hx hy hx' hy' = (
  rw (set_pixel_inside x y c hx hy color, get_pixel_inside x y c' hx hy) (own),
  λ d.
      rw
        (
          set_pixel_inside x y c hx hy color,
          get_pixel_inside x' y' c' hx' hy',
          get_pixel_inside x' y' c hx' hy',
        )
        (other d),
)
  where
    c' : Canvas
    c' = record c { pixels = set c.pixels y (set (get_or c.pixels y []) x color); dirty = true }

    own : get_or (get_or c'.pixels y []) x 0 ≡ color
    own =
        rw
          (get_or-set_self c.pixels y (set (get_or c.pixels y []) x color) []
            (omega (arith, k.rows)))
          (get_or-set_self (get_or c.pixels y []) x color 0 (
            omega (
              arith,
              All-get_or (λ (row : Bytes). length row ≡ c.width) c.pixels y []
                  (omega (arith, k.rows)) k.columns,
            )))

    same_row :
        y ≡ y' → x ≢ x' → get_or (get_or c'.pixels y' []) x' 0 ≡ get_or (get_or c.pixels y' []) x' 0
    same_row e n =
        rw
          (
            ← e,
            get_or-set_self c.pixels y (set (get_or c.pixels y []) x color) []
                (omega (arith, k.rows)),
          )
          (get_or-set_ne (get_or c.pixels y []) x x' color 0 n)

    other :
        (x ≢ x') ⊎ (y ≢ y')
        → get_or (get_or c'.pixels y' []) x' 0 ≡ get_or (get_or c.pixels y' []) x' 0
    other d = elim (Bool-cases (y == y')) [
      | inl e ↦ same_row (ground arith) (ground arith)
      | inr e ↦
          ap (λ (row : Bytes). get_or row x' 0)
            (get_or-set_ne c.pixels y y' (set (get_or c.pixels y []) x color) [] (ground arith))
    ]
