-- ===== src/Fb.antt =====
-- drivers/fb.c: the framebuffer, a window of memory of `pitch` bytes for each row with four bytes
-- for each pixel. Coordinates and sizes are not negative. `none` is a panic of an assertion.
pub mod Pixels
pub mod Bounds
pub mod Rect
pub mod Scroll
pub mod Glyph
mod Tests
use heaven_os.Prelude.{
  ℕ, zero, suc, ◌+◌, ◌-◌, ◌*◌, ◌/◌, ◌%◌, ◌^◌, bit_and, Bool, true, false, ltb, leb, ◌==◌, ◌&&◌, not,
  if◌then◌else◌, Option, none, some,
}
use heaven_os.Memory.{Bytes, memcpy, memmove}
use heaven_os.Memory.Words.{store32}
use heaven_os.FrameAlloc.{kassert, ◌>>=◌, ◌>>◌, sub64}

abbrev pub fb_color_black : ℕ
fb_color_black = 0

abbrev pub fb_color_white : ℕ
fb_color_white = 0xffffff

abbrev pub fb_color_red : ℕ
fb_color_red = 0xff0000

-- What the Multiboot tag says of the framebuffer.
pub record FbInfo : Type 0 where
  pub addr : ℕ
  pub pitch : ℕ
  pub width : ℕ
  pub heigth : ℕ
  pub depth : ℕ
  pub type : ℕ

pub record Fb : Type 0 where
  pub initialized : Bool
  pub addr : ℕ
  pub width : ℕ
  pub height : ℕ
  pub pitch : ℕ
  pub buf_size : ℕ

abbrev pub fb_init : Option FbInfo → Option Fb
fb_init none = none
fb_init (some info) = do
  kassert ((info.type == 1) && (info.depth == 32))
  some (record {
    initialized = true;
    addr = (0xffff888000000000 + info.addr) % 2 ^ 64;
    width = info.width;
    height = info.heigth;
    pitch = info.pitch;
    buf_size = info.pitch * info.heigth;
  })

abbrev pub fb_get_size : Fb → Option (ℕ × ℕ)
fb_get_size fb = do kassert fb.initialized; some (fb.width, fb.height)

-- `fb_addr + y * fb_pitch + x * sizeof(fb_color_t)`
abbrev pub pixel_addr : Fb → ℕ → ℕ → ℕ
pixel_addr fb x y = fb.addr + y * fb.pitch + x * 4

-- `n` pixels of one color from an address on.
pub fill_pixels : ℕ → ℕ → ℕ → Bytes → Bytes
fill_pixels zero addr color m = m
fill_pixels (suc n) addr color m = fill_pixels n (addr + 4) color (store32 m addr color)

pub fb_put_rect_fragment : Fb → ℕ → ℕ → ℕ → ℕ → Bytes → Bytes
fb_put_rect_fragment fb color x y width m =
    if leb fb.height y
    then m
    else fill_pixels (if ltb fb.width (x + width) then fb.width - x else width) (pixel_addr fb x y)
        color m

-- The size of the copy is a `size_t`, which a pixel behind the row turns into a huge one.
abbrev pub fb_put_line_fragment : Fb → ℕ → ℕ → ℕ → ℕ → Bytes → Bytes
fb_put_line_fragment fb data_addr x y width m =
    if leb fb.height y
    then m
    else memcpy (pixel_addr fb x y) data_addr
        (if ltb fb.width (x + width) then sub64 (4 * fb.width) (4 * x) else 4 * width) m

-- The loop of `fb_draw_rect` over `n` rows from `y` on.
pub rect_rows : Fb → ℕ → ℕ → ℕ → ℕ → ℕ → Bytes → Bytes
rect_rows fb color x width zero y m = m
rect_rows fb color x width (suc n) y m =
    rect_rows fb color x width n (y + 1) (fb_put_rect_fragment fb color x y width m)

pub fb_draw_rect : Fb → ℕ → ℕ → ℕ → ℕ → ℕ → Bytes → Option Bytes
fb_draw_rect fb color x y width height m = do
  kassert fb.initialized
  some (rect_rows fb color x width height y m)

-- The loop of `fb_draw` over `n` rows from `y` on.
abbrev pub draw_rows : Fb → ℕ → ℕ → ℕ → ℕ → ℕ → Bytes → Bytes
draw_rows fb data_addr x width zero y m = m
draw_rows fb data_addr x width (suc n) y m =
    draw_rows fb (data_addr + 4 * width) x width n (y + 1)
      (fb_put_line_fragment fb data_addr x y width m)

abbrev pub fb_draw : Fb → ℕ → ℕ → ℕ → ℕ → ℕ → Bytes → Option Bytes
fb_draw fb data_addr x y width height m = do
  kassert fb.initialized
  kassert (not (data_addr == 0))
  some (draw_rows fb data_addr x width height y m)

-- The loop of `fb_clear` over `n` rows from `y` on.
pub clear_rows : Fb → ℕ → ℕ → ℕ → Bytes → Bytes
clear_rows fb color zero y m = m
clear_rows fb color (suc n) y m =
    clear_rows fb color n (y + 1) (fill_pixels fb.width (pixel_addr fb 0 y) color m)

pub fb_clear : Fb → ℕ → Bytes → Option Bytes
fb_clear fb color m = do kassert fb.initialized; some (clear_rows fb color fb.height 0 m)

-- The pixels `w` and up, `n` of them, of one row of a glyph at an address.
pub glyph_row : ℕ → ℕ → ℕ → ℕ → ℕ → ℕ → Bytes → Bytes
glyph_row zero w bits fg_color bg_color addr m = m
glyph_row (suc n) w bits fg_color bg_color addr m =
    glyph_row n (w + 1) bits fg_color bg_color addr
      (store32 m (addr + w * 4) (if bit_and (bits / 2 ^ w) 1 == 0 then bg_color else fg_color))

-- The rows `h` and up, `n` of them, of a glyph.
pub glyph_rows : Fb → ℕ → ℕ → (ℕ → ℕ) → ℕ → ℕ → ℕ → ℕ → Bytes → Bytes
glyph_rows fb zero h glyph x y fg_color bg_color m = m
glyph_rows fb (suc n) h glyph x y fg_color bg_color m =
    glyph_rows fb n (h + 1) glyph x y fg_color bg_color
      (glyph_row 8 0 (glyph h) fg_color bg_color (pixel_addr fb x (y + h)) m)

pub fb_draw_glyph : Fb → (ℕ → ℕ) → ℕ → ℕ → ℕ → ℕ → Bytes → Option Bytes
fb_draw_glyph fb glyph x y fg_color bg_color m = do
  kassert fb.initialized
  some (glyph_rows fb 8 0 glyph x y fg_color bg_color m)

pub fb_scroll_up : Fb → ℕ → ℕ → Bytes → Option Bytes
fb_scroll_up fb height color m = do
  kassert fb.initialized
  some (
      rect_rows fb color 0 fb.width height (fb.height - height)
        (memmove fb.addr (fb.addr + fb.pitch * height) (fb.pitch * (fb.height - height)) m))
