-- ===== src/Fb/Scroll.antt =====
-- `fb_scroll_up` of drivers/fb.c moves the screen up.
use heaven_os.Prelude.{
  ℕ, ◌+◌, ◌-◌, ◌*◌, ◌^◌, ◌≤◌, ◌<◌, ◌≡◌, inl, inr, refl, ◌∙◌, arith, ltb, true, false, if◌then◌else◌,
  Bool-cases, some,
}
use heaven_os.Memory.{Bytes, memmove}
use heaven_os.Memory.Move.{memmove-copied}
use heaven_os.Fb.{Fb, pixel_addr, rect_rows, fb_scroll_up}
use heaven_os.Fb.Pixels.{pixel, HasRows, rows_mono}
use heaven_os.Fb.Rect.{in_rect, rect_rows-pixel}

module _ (fb : Fb) (rows : HasRows fb) (height : ℕ) (le : height ≤ fb.height) (m : Bytes) where
  scrolled : Bytes
  scrolled = memmove fb.addr (fb.addr + fb.pitch * height) (fb.pitch * (fb.height - height)) m

  scrolled-at :
      (px py a : ℕ)
      → px < fb.width
      → py + height < fb.height
      → pixel_addr fb px py ≤ a
      → a < pixel_addr fb px py + 4
      → scrolled a ≡ m (a + fb.pitch * height)
  unfolding scrolled
  scrolled-at px py a hx hy lo hi =
      let far : py * fb.pitch + fb.pitch ≤ (fb.height - height) * fb.pitch =
        rows_mono fb.pitch py (fb.height - height) (omega arith) in
      let size : (fb.height - height) * fb.pitch ≡ fb.pitch * (fb.height - height) = grind arith in
      let start : ltb a fb.addr ≡ false = ground arith in
      let end : ltb a (fb.addr + fb.pitch * (fb.height - height)) ≡ true = ground arith in
      let source : fb.addr + fb.pitch * height + (a - fb.addr) ≡ a + fb.pitch * height =
        ground arith in
      memmove-copied fb.addr (fb.addr + fb.pitch * height) (fb.pitch * (fb.height - height)) m a
      ∙ rw (start, end, source) refl

  scrolled-pixel :
      (px py : ℕ)
      → px < fb.width
      → py + height < fb.height
      → pixel fb px py scrolled ≡ pixel fb px (py + height) m
  scrolled-pixel px py hx hy =
      let at : pixel_addr fb px (py + height) ≡ pixel_addr fb px py + fb.pitch * height =
        grind arith in
      let a = pixel_addr fb px py in
      let shift : (i : ℕ) → a + i + fb.pitch * height ≡ a + fb.pitch * height + i =
        λ i. omega arith in
      rw
        (
          at,
          scrolled-at px py a hx hy (omega arith) (omega arith),
          scrolled-at px py (a + 1) hx hy (omega arith) (omega arith),
          scrolled-at px py (a + 2) hx hy (omega arith) (omega arith),
          scrolled-at px py (a + 3) hx hy (omega arith) (omega arith),
          shift 1,
          shift 2,
          shift 3,
        )
        refl

-- On an initialized framebuffer whose rows hold their pixels, `fb_scroll_up` by at most the height
-- of the screen moves every pixel up by the distance, and gives the rows that come free at the
-- bottom the color, of 32 bits.
pub fb_scroll_up-pixel :
    (fb : Fb) (height color px py : ℕ) (m : Bytes)
    → fb.initialized ≡ true
    → HasRows fb
    → color < 2 ^ 32
    → height ≤ fb.height
    → px < fb.width
    → py < fb.height
    → (m' : Bytes) × (fb_scroll_up fb height color m ≡ some m')
      × (pixel fb px py m'
          ≡ (if ltb (py + height) fb.height then pixel fb px (py + height) m else color))
unfolding fb_scroll_up scrolled
fb_scroll_up-pixel fb height color px py m ready rows fits le hx hy = (
  rect_rows fb color 0 fb.width height (fb.height - height) (scrolled fb rows height le m),
  rw ready refl,
  rect_rows-pixel fb rows color fits 0 fb.width height (fb.height - height) px py
        (scrolled fb rows height le m) hx hy
      ∙ elim (Bool-cases (ltb (py + height) fb.height)) [
        | inl e ↦
            let keep : in_rect 0 (fb.height - height) fb.width height px py ≡ false =
              ground arith in
            rw (e, keep) (scrolled-pixel fb rows height le m px py hx (ground arith))
        | inr e ↦
            let new : in_rect 0 (fb.height - height) fb.width height px py ≡ true = ground arith in
            rw (e, new) refl
      ],
)
