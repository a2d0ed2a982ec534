-- ===== src/Fb/Rect.antt =====
-- `fb_draw_rect` and `fb_clear` of drivers/fb.c color exactly the pixels that they should.
use heaven_os.Prelude.{
  ℕ, zero, suc, ◌+◌, ◌^◌, ◌≤◌, ◌<◌, ◌≡◌, inl, inr, refl, ◌∙◌, ap, arith, ltb, leb, ◌&&◌, true, Bool,
  if◌then◌else◌, Bool-cases, false, some,
}
use heaven_os.Memory.{Bytes}
use heaven_os.Fb.{
  Fb, pixel_addr, fb_put_rect_fragment, rect_rows, fb_draw_rect, clear_rows, fb_clear, fill_pixels,
}
use heaven_os.Fb.Pixels.{pixel, HasRows, fragment-inside, fragment-outside}

-- Whether a pixel lies in `n` rows of `width` pixels from (x, y) on.
abbrev pub in_rect : ℕ → ℕ → ℕ → ℕ → ℕ → ℕ → Bool
in_rect x y width n px py = (leb x px && ltb px (x + width)) && (leb y py && ltb py (y + n))

-- One more row on top.
in_rect-cons :
    (x y width n px py color q : ℕ)
    → (if in_rect x (y + 1) width n px py
        then color
        else if in_rect x y width 1 px py
        then color
        else q)
      ≡ (if in_rect x y width (suc n) px py then color else q)
in_rect-cons x y width n px py color q = ground arith

module _ (fb : Fb) (rows : HasRows fb) (color : ℕ) (fits : color < 2 ^ 32) where
  fragment-pixel :
      (x y width px py : ℕ) (m : Bytes)
      → px < fb.width
      → py < fb.height
      → pixel fb px py (fb_put_rect_fragment fb color x y width m)
        ≡ (if in_rect x y width 1 px py then color else pixel fb px py m)
  fragment-pixel x y width px py m hx hy = elim (Bool-cases (in_rect x y width 1 px py)) [
    | inl e ↦
        let same : py ≡ y = ground arith in
        let top : y < fb.height = ground arith in
        rw (e, same)
          (fragment-inside fb rows color fits x y width px m hx top (ground arith) (ground arith))
    | inr e ↦ rw e (fragment-outside fb rows color fits x y width px py m hx (ground arith))
  ]

  pub rect_rows-pixel :
      (x width n y px py : ℕ) (m : Bytes)
      → px < fb.width
      → py < fb.height
      → pixel fb px py (rect_rows fb color x width n y m)
        ≡ (if in_rect x y width n px py then color else pixel fb px py m)
  unfolding rect_rows
  rect_rows-pixel x width zero y px py m hx hy = ground arith
  rect_rows-pixel x width (suc n) y px py m hx hy =
      rect_rows-pixel x width n (y + 1) px py (fb_put_rect_fragment fb color x y width m) hx hy
      ∙ ap (λ (q : ℕ). if in_rect x (y + 1) width n px py then color else q)
          (fragment-pixel x y width px py m hx hy)
      ∙ in_rect-cons x y width n px py color (pixel fb px py m)

-- Clearing is drawing full rows.
clear_rows-eq-rect_rows :
    (fb : Fb) (color n y : ℕ) (m : Bytes)
    → y + n ≤ fb.height
    → clear_rows fb color n y m ≡ rect_rows fb color 0 fb.width n y m
unfolding clear_rows rect_rows fb_put_rect_fragment
clear_rows-eq-rect_rows fb color zero y m h = refl
clear_rows-eq-rect_rows fb color (suc n) y m h =
    let on_screen : leb fb.height y ≡ false = ground arith in
    let whole : ltb fb.width (0 + fb.width) ≡ false = ground arith in
    rw (on_screen, whole)
      (clear_rows-eq-rect_rows fb color n (y + 1) (fill_pixels fb.width (pixel_addr fb 0 y) color m)
        (omega arith))

-- On an initialized framebuffer whose rows hold their pixels, `fb_draw_rect` with a color of 32 bits
-- gives the pixels of the screen that lie in the rectangle the color, and leaves all others.
pub fb_draw_rect-pixel :
    (fb : Fb) (color x y width height px py : ℕ) (m : Bytes)
    → fb.initialized ≡ true
    → HasRows fb
    → color < 2 ^ 32
    → px < fb.width
    → py < fb.height
    → (m' : Bytes) × (fb_draw_rect fb color x y width height m ≡ some m')
      × (pixel fb px py m' ≡ (if in_rect x y width height px py then color else pixel fb px py m))
unfolding fb_draw_rect
fb_draw_rect-pixel fb color x y width height px py m ready rows fits hx hy = (
  rect_rows fb color x width height y m,
  rw ready refl,
  rect_rows-pixel fb rows color fits x width height y px py m hx hy,
)

-- On an initialized framebuffer whose rows hold their pixels, `fb_clear` with a color of 32 bits
-- gives every pixel of the screen the color.
pub fb_clear-pixel :
    (fb : Fb) (color px py : ℕ) (m : Bytes)
    → fb.initialized ≡ true
    → HasRows fb
    → color < 2 ^ 32
    → px < fb.width
    → py < fb.height
    → (m' : Bytes) × (fb_clear fb color m ≡ some m') × (pixel fb px py m' ≡ color)
unfolding fb_clear clear_rows rect_rows fb_put_rect_fragment
fb_clear-pixel fb color px py m ready rows fits hx hy =
    let all : in_rect 0 0 fb.width fb.height px py ≡ true = ground arith in
    (
      rect_rows fb color 0 fb.width fb.height 0 m,
      rw ready (ap some (clear_rows-eq-rect_rows fb color fb.height 0 m (omega arith))),
      rect_rows-pixel fb rows color fits 0 fb.width fb.height 0 px py m hx hy ∙ rw all refl,
    )
