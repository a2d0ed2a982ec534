-- ===== src/Fb/Glyph.antt =====
-- `fb_draw_glyph` of drivers/fb.c draws the bits of a glyph.
use heaven_os.Prelude.{
  ℕ, zero, suc, ◌+◌, ◌-◌, ◌*◌, ◌/◌, ◌^◌, bit_and, ◌≤◌, ◌<◌, ◌≡◌, ◌⊎◌, inl, inr, refl, ◌∙◌, ap₂,
  arith, ltb, leb, ◌==◌, ◌&&◌, true, if◌then◌else◌, Bool-cases, some,
}
use heaven_os.Memory.{Bytes}
use heaven_os.Memory.Words.{load32, load32-store32, load32-store32_apart}
use heaven_os.Fb.{Fb, pixel_addr, glyph_row, glyph_rows, fb_draw_glyph}
use heaven_os.Fb.Pixels.{pixel, HasRows, rows_mono}

-- The color of a bit of a glyph's row.
abbrev pub glyph_color : ℕ → ℕ → ℕ → ℕ → ℕ
glyph_color bits fg_color bg_color w = if bit_and (bits / 2 ^ w) 1 == 0 then bg_color else fg_color

glyph_row-apart :
    (n w bits fg_color bg_color addr b : ℕ) (m : Bytes)
    → (b + 4 ≤ addr + w * 4) ⊎ (addr + (w + n) * 4 ≤ b)
    → load32 (glyph_row n w bits fg_color bg_color addr m) b ≡ load32 m b
unfolding glyph_row
glyph_row-apart zero w bits fg_color bg_color addr b m h = refl
glyph_row-apart (suc n) w bits fg_color bg_color addr b m h =
    glyph_row-apart n (w + 1) bits fg_color bg_color addr b _ (ground arith)
    ∙ load32-store32_apart m (addr + w * 4) _ b (ground arith)

module _ (fg_color bg_color : ℕ) (fg : fg_color < 2 ^ 32) (bg : bg_color < 2 ^ 32) where
  glyph_color-lt : (bits w : ℕ) → glyph_color bits fg_color bg_color w < 2 ^ 32
  glyph_color-lt bits w = elim (Bool-cases (bit_and (bits / 2 ^ w) 1 == 0)) [
    | inl e ↦ rw e bg
    | inr e ↦ rw e fg
  ]

  glyph_row-pixel :
      (n w bits addr i : ℕ) (m : Bytes)
      → i < n
      → load32 (glyph_row n w bits fg_color bg_color addr m) (addr + (w + i) * 4)
        ≡ glyph_color bits fg_color bg_color (w + i)
  unfolding glyph_row
  glyph_row-pixel zero w bits addr i m h = absurd (omega arith)
  glyph_row-pixel (suc n) w bits addr zero m h =
      let here : w + 0 ≡ w = omega arith in
      rw here (
        glyph_row-apart n (w + 1) bits fg_color bg_color addr (addr + w * 4) _ (inl (omega arith))
        ∙ load32-store32 m (addr + w * 4) (glyph_color bits fg_color bg_color w)
            (glyph_color-lt bits w))
  glyph_row-pixel (suc n) w bits addr (suc i) m h =
      let there : w + suc i ≡ w + 1 + i = omega arith in
      rw there (glyph_row-pixel n (w + 1) bits addr i _ (omega arith))

  module _ (fb : Fb) (rows : HasRows fb) (glyph : ℕ → ℕ) (x y : ℕ) (room : x + 8 ≤ fb.width) where
    -- The rows that are still to come leave a pixel of another row, or one beside the glyph.
    glyph_rows-apart :
        (n h px py : ℕ) (m : Bytes)
        → px < fb.width
        → (py < y + h) ⊎ (y + h + n ≤ py) ⊎ (px < x) ⊎ (x + 8 ≤ px)
        → pixel fb px py (glyph_rows fb n h glyph x y fg_color bg_color m) ≡ pixel fb px py m
    unfolding glyph_rows
    glyph_rows-apart zero h px py m hx out = refl
    glyph_rows-apart (suc n) h px py m hx out =
        glyph_rows-apart n (h + 1) px py _ hx (ground arith)
        ∙ glyph_row-apart 8 0 (glyph h) fg_color bg_color (pixel_addr fb x (y + h))
            (pixel_addr fb px py) m
            (ground (arith, rows_mono fb.pitch (y + h) py, rows_mono fb.pitch py (y + h)))

    top_row-pixel :
        (bits y' i : ℕ) (m : Bytes)
        → i < 8
        → pixel fb (x + i) y' (glyph_row 8 0 bits fg_color bg_color (pixel_addr fb x y') m)
          ≡ glyph_color bits fg_color bg_color i
    top_row-pixel bits y' i m hi =
        let at : pixel_addr fb (x + i) y' ≡ pixel_addr fb x y' + i * 4 = omega arith in
        let bit : 0 + i ≡ i = omega arith in
        rw at (rw bit at (glyph_row-pixel 8 0 bits (pixel_addr fb x y') i m hi))

    glyph_rows-pixel :
        (n h i j : ℕ) (m : Bytes)
        → i < 8
        → j < n
        → pixel fb (x + i) (y + (h + j)) (glyph_rows fb n h glyph x y fg_color bg_color m)
          ≡ glyph_color (glyph (h + j)) fg_color bg_color i
    unfolding glyph_rows
    glyph_rows-pixel zero h i j m hi hj = absurd (omega arith)
    glyph_rows-pixel (suc n) h i zero m hi hj =
        let here : h + 0 ≡ h = omega arith in
        rw here (
          glyph_rows-apart n (h + 1) (x + i) (y + h) _ (omega arith) (inl (omega arith))
          ∙ top_row-pixel (glyph h) (y + h) i m hi)
    glyph_rows-pixel (suc n) h i (suc j) m hi hj =
        let there : h + suc j ≡ h + 1 + j = omega arith in
        rw there (glyph_rows-pixel n (h + 1) i j _ hi (omega arith))

-- On an initialized framebuffer whose rows hold their pixels, `fb_draw_glyph` at a place with eight
-- columns left, with colors of 32 bits, gives pixel (i, j) of the glyph the foreground color when bit
-- i of its row j is set and the background color when not, and leaves every other pixel.
pub fb_draw_glyph-pixel :
    (fb : Fb) (glyph : ℕ → ℕ) (x y fg_color bg_color px py : ℕ) (m : Bytes)
    → fb.initialized ≡ true
    → HasRows fb
    → fg_color < 2 ^ 32
    → bg_color < 2 ^ 32
    → x + 8 ≤ fb.width
    → px < fb.width
    → (m' : Bytes) × (fb_draw_glyph fb glyph x y fg_color bg_color m ≡ some m')
      × (pixel fb px py m' ≡ (
          if (leb x px && ltb px (x + 8)) && (leb y py && ltb py (y + 8))
          then (if bit_and (glyph (py - y) / 2 ^ (px - x)) 1 == 0 then bg_color else fg_color)
          else pixel fb px py m))
unfolding fb_draw_glyph
fb_draw_glyph-pixel fb glyph x y fg_color bg_color px py m ready rows fg bg room hx = (
  glyph_rows fb 8 0 glyph x y fg_color bg_color m,
  rw ready refl,
  elim (Bool-cases ((leb x px && ltb px (x + 8)) && (leb y py && ltb py (y + 8)))) [
    | inl e ↦
        let at_x : px ≡ x + (px - x) = ground arith in
        let at_y : py ≡ y + (py - y) = ground arith in
        let row : 0 + (py - y) ≡ py - y = omega arith in
        rw e (
          ap₂ (λ (p q : ℕ). pixel fb p q (glyph_rows fb 8 0 glyph x y fg_color bg_color m)) at_x
            at_y
          ∙ (rw row at (
              glyph_rows-pixel fg_color bg_color fg bg fb rows glyph x y room 8 0 (px - x) (py - y)
                m (ground arith) (ground arith))))
    | inr e ↦ rw e (
        glyph_rows-apart fg_color bg_color fg bg fb rows glyph x y room 8 0 px py m hx
          (ground arith))
  ],
)
