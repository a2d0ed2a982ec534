-- ===== src/Fb/Pixels.antt =====
-- The pixels of the framebuffer of drivers/fb.c, and what filling a part of a row does to them.
use heaven_os.Prelude.{
  ℕ, zero, suc, ◌+◌, ◌-◌, ◌*◌, ◌^◌, ◌≤◌, ◌<◌, ◌≡◌, ◌≢◌, ◌⊎◌, inl, inr, refl, ◌∙◌, arith, ltb, leb,
  false, if◌then◌else◌, Bool-cases, dec_lt,
}
use heaven_os.Memory.{Bytes}
use heaven_os.Memory.Words.{load32, store32, load32-store32, store32-outside, load32-store32_apart}
use heaven_os.Fb.{Fb, pixel_addr, fill_pixels, fb_put_rect_fragment}

abbrev pub pixel : Fb → ℕ → ℕ → Bytes → ℕ
pixel fb x y m = load32 m (pixel_addr fb x y)

-- Every row holds its pixels.
abbrev pub HasRows : Fb → Type 0
HasRows fb = 4 * fb.width ≤ fb.pitch

pub rows_mono : (p y y' : ℕ) → y < y' → y * p + p ≤ y' * p
rows_mono p y y' h = grind arith

pub fill_pixels-outside :
    (n addr color : ℕ) (m : Bytes) (b : ℕ)
    → (b < addr) ⊎ (addr + 4 * n ≤ b)
    → fill_pixels n addr color m b ≡ m b
unfolding fill_pixels
fill_pixels-outside zero addr color m b h = refl
fill_pixels-outside (suc n) addr color m b h =
    fill_pixels-outside n (addr + 4) color (store32 m addr color) b (ground arith)
    ∙ store32-outside m addr color b (ground arith)

pub fill_pixels-apart :
    (n addr color : ℕ) (m : Bytes) (b : ℕ)
    → (b + 4 ≤ addr) ⊎ (addr + 4 * n ≤ b)
    → load32 (fill_pixels n addr color m) b ≡ load32 m b
unfolding fill_pixels
fill_pixels-apart zero addr color m b h = refl
fill_pixels-apart (suc n) addr color m b h =
    fill_pixels-apart n (addr + 4) color (store32 m addr color) b (ground arith)
    ∙ load32-store32_apart m addr color b (ground arith)

pub fill_pixels-pixel :
    (n addr color : ℕ) (m : Bytes) (i : ℕ)
    → color < 2 ^ 32
    → i < n
    → load32 (fill_pixels n addr color m) (addr + 4 * i) ≡ color
unfolding fill_pixels
fill_pixels-pixel zero addr color m i fits h = absurd (omega arith)
fill_pixels-pixel (suc n) addr color m zero fits h =
    let here : addr + 4 * 0 ≡ addr = omega arith in
    rw here (
      fill_pixels-apart n (addr + 4) color (store32 m addr color) addr (inl (omega arith))
      ∙ load32-store32 m addr color fits)
fill_pixels-pixel (suc n) addr color m (suc i) fits h =
    let there : addr + 4 * suc i ≡ addr + 4 + 4 * i = omega arith in
    rw there (fill_pixels-pixel n (addr + 4) color (store32 m addr color) i fits (omega arith))

module _ (fb : Fb) (rows : HasRows fb) (color : ℕ) (fits : color < 2 ^ 32) where
  -- A fragment colors its pixels of the row, and no other pixel of the screen.
  pub fragment-inside :
      (x y width px : ℕ) (m : Bytes)
      → px < fb.width
      → y < fb.height
      → x ≤ px
      → px < x + width
      → pixel fb px y (fb_put_rect_fragment fb color x y width m) ≡ color
  unfolding fb_put_rect_fragment
  fragment-inside x y width px m hx hy lo hi =
      let on_screen : leb fb.height y ≡ false = ground arith in
      let at : pixel_addr fb px y ≡ pixel_addr fb x y + 4 * (px - x) = omega arith in
      rw (on_screen, at)
        (fill_pixels-pixel (if ltb fb.width (x + width) then fb.width - x else width)
          (pixel_addr fb x y) color m (px - x) fits (ground arith))

  pub fragment-outside :
      (x y width px py : ℕ) (m : Bytes)
      → px < fb.width
      → (px < x) ⊎ (x + width ≤ px) ⊎ (py ≢ y)
      → pixel fb px py (fb_put_rect_fragment fb color x y width m) ≡ pixel fb px py m
  unfolding fb_put_rect_fragment fill_pixels
  fragment-outside x y width px py m hx out = elim (Bool-cases (leb fb.height y)) [
    | inl off ↦ rw off refl
    | inr on ↦ rw on (elim (dec_lt x fb.width) [
      | yes p ↦
          fill_pixels-apart count (pixel_addr fb x y) color m (pixel_addr fb px py)
            (ground (arith, rows_mono fb.pitch y py, rows_mono fb.pitch py y))
      | no p ↦ let empty : count ≡ 0 = ground arith in rw empty refl
    ])
  ]
    where
      count : ℕ
      count = if ltb fb.width (x + width) then fb.width - x else width
