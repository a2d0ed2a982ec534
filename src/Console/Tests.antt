-- ===== src/Console/Tests.antt =====
-- Runs of kernel/console.c, and its theorems at them.
use heaven_os.Prelude.{
  ℕ, ◌+◌, ◌-◌, ◌*◌, ◌≤◌, ◌≡◌, refl, true, some, none, arith, inl, ltb, if◌then◌else◌,
}
use heaven_os.Memory.{Bytes}
use heaven_os.Fb.{Fb, fb_color_white, fb_color_black}
use heaven_os.Console.{Cons, cons_write_color, draw_char}
use heaven_os.Console.Font.{font}
use heaven_os.Console.Cursor.{HasGrid, IsReady}
use heaven_os.Console.Write.{IsText, cons_write_color-IsReady}
use heaven_os.Console.Text.{IsString}
use heaven_os.Console.Grid.{Terminal, blank, Shows, type_bytes}
use heaven_os.Console.Refine.{cons_write_color-type_bytes}

-- Three columns and two lines of characters.
abbrev screen : Fb
screen = record {
  initialized = true;
  addr = 1000;
  width = 24;
  height = 16;
  pitch = 96;
  buf_size = 1536;
}

-- The letters from `A` on from address 100 to 103, and a NUL byte.
abbrev letters : Bytes
letters a = if ltb a 100 then 0 else if ltb a 104 then a - 35 else 0

abbrev before : Cons
before = record { initialized = true; width = 0; height = 0; row = 0; col = 0; mem = letters }

abbrev console : Cons
console = record { initialized = true; width = 3; height = 2; row = 0; col = 0; mem = letters }

grid : HasGrid screen console
grid = record {
  cons_ready = refl;
  fb_ready = refl;
  rows = omega arith;
  wide = omega arith;
  high = omega arith;
  some_col = omega arith;
  row_in = omega arith;
}

ready : IsReady screen console
ready = (grid, omega arith)

text : IsText screen letters 100 4
text = record { nonnull = omega arith; ascii = λ i h. ground arith; off = λ i h. inl (omega arith) }

string : IsString screen letters 100 4
string = record {
  text = text;
  nonzero = λ i h. ground arith;
  end = refl;
  end_off = inl (omega arith);
}

abbrev empty_terminal : Terminal
empty_terminal = record { width = 3; height = 2; row = 0; col = 0; cells = λ r c. blank }

dark : (a : ℕ) → 1000 ≤ a → letters a ≡ 0
dark a h = ground arith

shows : Shows screen console empty_terminal
shows = record {
  same_width = refl;
  same_height = refl;
  same_row = refl;
  same_col = refl;
  pixels = λ r c i j hr hc hi hj.
      let a = 1000 + (8 * r + j) * 96 + (8 * c + i) * 4 in
      omega (
        arith,
        dark a (omega arith),
        dark (a + 1) (omega arith),
        dark (a + 2) (omega arith),
        dark (a + 3) (omega arith),
      );
}

-- A byte above 127 is a negative character, and no index of the font.
no_glyph : (fg_color bg_color : ℕ) → draw_char screen 200 0 0 fg_color bg_color letters ≡ none
unfolding draw_char font
no_glyph fg_color bg_color = refl

cons_write_color-IsReady_example :
    (s' : Cons) × (cons_write_color screen 100 4 fb_color_white fb_color_black console ≡ some s')
    × IsReady screen s'
    × (s'.mem 101 ≡ letters 101)
cons_write_color-IsReady_example =
    cons_write_color-IsReady screen 100 4 fb_color_white fb_color_black 101 console ready text
      (inl (omega arith))

cons_write_color-type_bytes_example :
    (s' : Cons) × (cons_write_color screen 100 4 fb_color_white fb_color_black console ≡ some s')
    × Shows screen s' (type_bytes fb_color_white fb_color_black 4 100 letters empty_terminal)
cons_write_color-type_bytes_example =
    cons_write_color-type_bytes screen 100 4 fb_color_white fb_color_black console empty_terminal
      (omega arith) (omega arith) ready (omega arith) text shows
