-- ===== src/Fb/Tests.antt =====
-- Runs of drivers/fb.c, and its theorems at them.
use heaven_os.Prelude.{◌+◌, ◌≡◌, refl, true, some, arith, none}
use heaven_os.Memory.{Bytes}
use heaven_os.Fb.{
  Fb, FbInfo, fb_init, fb_draw_rect, fb_draw_glyph, fb_scroll_up, fb_color_red, fb_color_white,
}
use heaven_os.Fb.Pixels.{pixel}
use heaven_os.Fb.Rect.{fb_draw_rect-pixel}
use heaven_os.Fb.Scroll.{fb_scroll_up-pixel}
use heaven_os.Fb.Glyph.{fb_draw_glyph-pixel}

-- 16 columns, 20 rows, and four bytes behind each row.
abbrev screen : Fb
screen = record {
  initialized = true;
  addr = 1000;
  width = 16;
  height = 20;
  pitch = 68;
  buf_size = 1360;
}

abbrev dark : Bytes
dark a = 0

abbrev rgb : FbInfo
rgb = record { addr = 0xfd000000; pitch = 3200; width = 800; heigth = 600; depth = 32; type = 1 }

no_tag : fb_init none ≡ none
no_tag = refl

wrong_depth :
    fb_init
      (some (record { addr = 0xb8000; pitch = 160; width = 80; heigth = 25; depth = 16; type = 2 }))
    ≡ none
wrong_depth = refl

fb_draw_rect-pixel_example :
    (m' : Bytes) × (fb_draw_rect screen fb_color_red 12 3 9 5 dark ≡ some m')
    × (pixel screen 15 7 m' ≡ fb_color_red)
fb_draw_rect-pixel_example =
    fb_draw_rect-pixel screen fb_color_red 12 3 9 5 15 7 dark refl (omega arith) (omega arith)
      (omega arith) (omega arith)

fb_scroll_up-pixel_example :
    (m' : Bytes) × (fb_scroll_up screen 8 fb_color_red dark ≡ some m')
    × (pixel screen 3 12 m' ≡ fb_color_red)
fb_scroll_up-pixel_example =
    fb_scroll_up-pixel screen 8 fb_color_red 3 12 dark refl (omega arith) (omega arith)
      (omega arith) (omega arith) (omega arith)

fb_draw_glyph-pixel_example :
    (m' : Bytes) × (fb_draw_glyph screen (λ h. h + 1) 8 8 fb_color_white fb_color_red dark
      ≡ some m')
    × (pixel screen 9 9 m' ≡ fb_color_white)
fb_draw_glyph-pixel_example =
    fb_draw_glyph-pixel screen (λ h. h + 1) 8 8 fb_color_white fb_color_red 9 9 dark refl
      (omega arith) (omega arith) (omega arith) (omega arith) (omega arith)
