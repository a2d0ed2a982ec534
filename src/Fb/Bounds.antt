-- ===== src/Fb/Bounds.antt =====
-- The operations of drivers/fb.c write into the framebuffer only.
use heaven_os.Prelude.{
  ℕ, zero, suc, ◌+◌, ◌-◌, ◌*◌, ◌≤◌, ◌<◌, ◌≡◌, ◌⊎◌, inl, inr, refl, ◌∙◌, arith, ltb, leb, true,
  if◌then◌else◌, Bool-cases, dec_lt, some, some_injective, subst,
}
use heaven_os.FrameAlloc.{kassert-eq-some}
use heaven_os.Memory.{Bytes, memmove}
use heaven_os.Memory.Words.{store32-outside}
use heaven_os.Memory.Move.{memmove-copied}
use heaven_os.Fb.{
  Fb, pixel_addr, fill_pixels, fb_put_rect_fragment, rect_rows, fb_draw_rect, glyph_row, glyph_rows,
  fb_draw_glyph, fb_scroll_up,
}
use heaven_os.Fb.Pixels.{HasRows, rows_mono, fill_pixels-outside}

-- An address that is no byte of the framebuffer.
abbrev pub IsOffScreen : Fb → ℕ → Type 0
IsOffScreen fb a = (a < fb.addr) ⊎ (fb.addr + fb.pitch * fb.height ≤ a)

-- The bytes of pixels (x, y) to (x + n, y) of the screen are bytes of the framebuffer.
row-in :
    (fb : Fb)
    → HasRows fb
    → (x y n a : ℕ) → x + n ≤ fb.width
    → y < fb.height
    → IsOffScreen fb a
    → (a < pixel_addr fb x y) ⊎ (pixel_addr fb x y + 4 * n ≤ a)
row-in fb rows x y n a hx hy out =
    let last : y * fb.pitch + fb.pitch ≤ fb.height * fb.pitch = rows_mono fb.pitch y fb.height hy in
    let size : fb.height * fb.pitch ≡ fb.pitch * fb.height = grind arith in ground arith

fragment-off :
    (fb : Fb)
    → HasRows fb
    → (color x y width a : ℕ) (m : Bytes) → IsOffScreen fb a
    → fb_put_rect_fragment fb color x y width m a ≡ m a
unfolding fb_put_rect_fragment fill_pixels
fragment-off fb rows color x y width a m out = elim (Bool-cases (leb fb.height y)) [
  | inl off ↦ rw off refl
  | inr on ↦ rw on (elim (dec_lt fb.width x) [
    | yes p ↦ let none_left : count ≡ 0 = ground arith in rw none_left refl
    | no p ↦
        fill_pixels-outside count (pixel_addr fb x y) color m a
          (row-in fb rows x y count a (ground arith) (ground arith) out)
  ])
]
  where
    count : ℕ
    count = if ltb fb.width (x + width) then fb.width - x else width

pub rect_rows-off :
    (fb : Fb)
    → HasRows fb
    → (color x width n y a : ℕ) (m : Bytes) → IsOffScreen fb a
    → rect_rows fb color x width n y m a ≡ m a
unfolding rect_rows
rect_rows-off fb rows color x width zero y a m out = refl
rect_rows-off fb rows color x width (suc n) y a m out =
    rect_rows-off fb rows color x width n (y + 1) a (fb_put_rect_fragment fb color x y width m) out
    ∙ fragment-off fb rows color x y width a m out

-- On an initialized framebuffer whose rows hold their pixels, `fb_draw_rect` with any rectangle
-- succeeds and changes no byte outside the framebuffer.
pub fb_draw_rect-off :
    (fb : Fb) (color x y width height a : ℕ) (m : Bytes)
    → fb.initialized ≡ true
    → HasRows fb
    → IsOffScreen fb a
    → (m' : Bytes) × (fb_draw_rect fb color x y width height m ≡ some m') × (m' a ≡ m a)
unfolding fb_draw_rect
fb_draw_rect-off fb color x y width height a m ready rows out = (
  rect_rows fb color x width height y m,
  rw ready refl,
  rect_rows-off fb rows color x width height y a m out,
)

glyph_row-outside :
    (n w bits fg_color bg_color addr a : ℕ) (m : Bytes)
    → (a < addr + w * 4) ⊎ (addr + (w + n) * 4 ≤ a)
    → glyph_row n w bits fg_color bg_color addr m a ≡ m a
unfolding glyph_row
glyph_row-outside zero w bits fg_color bg_color addr a m h = refl
glyph_row-outside (suc n) w bits fg_color bg_color addr a m h =
    glyph_row-outside n (w + 1) bits fg_color bg_color addr a _ (ground arith)
    ∙ store32-outside m (addr + w * 4) _ a (ground arith)

glyph_rows-off :
    (fb : Fb)
    → HasRows fb
    → (n h : ℕ) (glyph : ℕ → ℕ) (x y fg_color bg_color a : ℕ) (m : Bytes) → x + 8 ≤ fb.width
    → y + h + n ≤ fb.height
    → IsOffScreen fb a
    → glyph_rows fb n h glyph x y fg_color bg_color m a ≡ m a
unfolding glyph_rows
glyph_rows-off fb rows zero h glyph x y fg_color bg_color a m hx hy out = refl
glyph_rows-off fb rows (suc n) h glyph x y fg_color bg_color a m hx hy out =
    glyph_rows-off fb rows n (h + 1) glyph x y fg_color bg_color a _ hx (omega arith) out
    ∙ glyph_row-outside 8 0 (glyph h) fg_color bg_color (pixel_addr fb x (y + h)) a m
        (ground (arith, row-in fb rows x (y + h) 8 a hx (omega arith) out))

pub glyph-some :
    (fb : Fb) (glyph : ℕ → ℕ) (x y fg_color bg_color : ℕ) (m : Bytes)
    → fb.initialized ≡ true
    → (m' : Bytes) × (fb_draw_glyph fb glyph x y fg_color bg_color m ≡ some m')
unfolding fb_draw_glyph
glyph-some fb glyph x y fg_color bg_color m ready =
    (glyph_rows fb 8 0 glyph x y fg_color bg_color m, rw ready refl)

-- A glyph with room for it changes no byte outside the framebuffer.
pub glyph-off :
    (fb : Fb) (glyph : ℕ → ℕ) (x y fg_color bg_color a : ℕ) (m m' : Bytes)
    → fb_draw_glyph fb glyph x y fg_color bg_color m ≡ some m'
    → HasRows fb
    → x + 8 ≤ fb.width
    → y + 8 ≤ fb.height
    → IsOffScreen fb a
    → m' a ≡ m a
unfolding fb_draw_glyph
glyph-off fb glyph x y fg_color bg_color a m m' e rows hx hy out =
    let same : glyph_rows fb 8 0 glyph x y fg_color bg_color m ≡ m' =
      some_injective (kassert-eq-some fb.initialized e).1 in
    subst (λ (q : Bytes). q a ≡ m a) same
      (glyph_rows-off fb rows 8 0 glyph x y fg_color bg_color a m hx (omega arith) out)

pub scroll-some :
    (fb : Fb) (height color : ℕ) (m : Bytes)
    → fb.initialized ≡ true
    → (m' : Bytes) × (fb_scroll_up fb height color m ≡ some m')
unfolding fb_scroll_up
scroll-some fb height color m ready = (
  rect_rows fb color 0 fb.width height (fb.height - height)
      (memmove fb.addr (fb.addr + fb.pitch * height) (fb.pitch * (fb.height - height)) m),
  rw ready refl,
)

-- Scrolling by at most the height of the screen changes no byte outside the framebuffer.
pub scroll-off :
    (fb : Fb) (height color a : ℕ) (m m' : Bytes)
    → fb_scroll_up fb height color m ≡ some m'
    → HasRows fb
    → height ≤ fb.height
    → IsOffScreen fb a
    → m' a ≡ m a
unfolding fb_scroll_up
scroll-off fb height color a m m' e rows le out =
    let shorter : fb.pitch * (fb.height - height) ≤ fb.pitch * fb.height = grind arith in
    let same = some_injective (kassert-eq-some fb.initialized e).1 in
    subst (λ (q : Bytes). q a ≡ m a) same
      (rect_rows-off fb rows color 0 fb.width height (fb.height - height) a _ out
        ∙ memmove-copied fb.addr (fb.addr + fb.pitch * height) (fb.pitch * (fb.height - height)) m a
        ∙ ground arith)
