-- ===== src/Console.antt =====
-- kernel/console.c: a grid of characters on the framebuffer, with a cursor.
pub mod Font
pub mod Cursor
pub mod Write
pub mod Text
pub mod Grid
pub mod Cells
pub mod Refine
mod Tests
use heaven_os.Prelude.{
  ℕ, zero, suc, ◌+◌, ◌-◌, ◌*◌, ◌/◌, Bool, true, false, not, ltb, ◌==◌, if◌then◌else◌, Option, none,
  some, List, get_elem?,
}
use heaven_os.Memory.{Bytes}
use heaven_os.FrameAlloc.{kassert, ◌>>=◌, ◌>>◌}
use heaven_os.Fb.{Fb, fb_get_size, fb_draw_glyph, fb_scroll_up, fb_color_black, fb_color_white}
use heaven_os.Console.Font.{font}

abbrev pub font_width : ℕ
font_width = 8

abbrev pub font_height : ℕ
font_height = 8

-- The console's variables, and the memory that it draws into.
pub record Cons : Type 0 where
  pub initialized : Bool
  pub width : ℕ
  pub height : ℕ
  pub row : ℕ
  pub col : ℕ
  pub mem : Bytes

abbrev pub cons_init : Fb → Cons → Option Cons
cons_init fb s = do
  (w, h) ← fb_get_size fb
  some (record {
    initialized = true;
    width = w / font_width;
    height = h / font_height;
    row = s.row;
    col = s.col;
    mem = s.mem;
  })

-- The console with the cursor at a row and a column, over a memory.
abbrev pub moved : ℕ → ℕ → Bytes → Cons → Cons
moved row col m s = record {
  initialized = s.initialized;
  width = s.width;
  height = s.height;
  row = row;
  col = col;
  mem = m;
}

-- `(unsigned int)c`, of a byte that is a signed character.
abbrev pub char_index : ℕ → ℕ
char_index c = if ltb c 128 then c else 4294967040 + c

abbrev pub glyph_row_at : List ℕ → ℕ → ℕ
glyph_row_at glyph h = from_option (get_elem? glyph h)
  where
    from_option : Option ℕ → ℕ
    from_option none = 0
    from_option (some b) = b

-- `none` also when the character has no glyph in the font.
pub draw_char : Fb → ℕ → ℕ → ℕ → ℕ → ℕ → Bytes → Option Bytes
draw_char fb c row col fg_color bg_color m = do
  glyph ← get_elem? font (char_index c)
  fb_draw_glyph fb (glyph_row_at glyph) (font_width * col) (font_height * row) fg_color bg_color m

pub cons_newline_and_return : Fb → Cons → Option Cons
cons_newline_and_return fb s =
    if s.row + 1 == s.height
    then (do m ← fb_scroll_up fb font_height fb_color_black s.mem; some (moved s.row 0 m s))
    else some (moved (s.row + 1) 0 s.mem s)

-- The default case of the switch of `cons_putchar_color`.
pub cons_put_glyph : Fb → ℕ → ℕ → ℕ → Cons → Option Cons
cons_put_glyph fb c fg_color bg_color s = do
  m ← draw_char fb c s.row s.col fg_color bg_color s.mem
  let s' : Cons = moved s.row (s.col + 1) m s
  if s.col + 1 == s.width then cons_newline_and_return fb s' else some s'

-- The switch of `cons_putchar_color`.
pub putchar_switch : Fb → ℕ → ℕ → ℕ → Cons → Option Cons
putchar_switch fb c fg_color bg_color s =
    if c == 10
    then cons_newline_and_return fb s
    else if c == 13
    then some (moved 0 s.col s.mem s)
    else cons_put_glyph fb c fg_color bg_color s

abbrev pub cons_putchar_color : Fb → ℕ → ℕ → ℕ → Cons → Option Cons
cons_putchar_color fb c fg_color bg_color s = do
  kassert s.initialized
  putchar_switch fb c fg_color bg_color s

abbrev pub cons_putchar : Fb → ℕ → Cons → Option Cons
cons_putchar fb c s = do
  kassert s.initialized
  cons_putchar_color fb c fb_color_white fb_color_black s

-- The loop of `cons_write_color` over `n` characters from an address on.
pub write_loop : Fb → ℕ → ℕ → ℕ → ℕ → Cons → Option Cons
write_loop fb fg_color bg_color zero data_addr s = some s
write_loop fb fg_color bg_color (suc n) data_addr s = do
  s' ← cons_putchar_color fb (s.mem data_addr) fg_color bg_color s
  write_loop fb fg_color bg_color n (data_addr + 1) s'

pub cons_write_color : Fb → ℕ → ℕ → ℕ → ℕ → Cons → Option Cons
cons_write_color fb data_addr size fg_color bg_color s = do
  kassert s.initialized
  kassert (not (data_addr == 0))
  write_loop fb fg_color bg_color size data_addr s

abbrev pub cons_write : Fb → ℕ → ℕ → Cons → Option Cons
cons_write fb data_addr size s = do
  kassert s.initialized
  kassert (not (data_addr == 0))
  cons_write_color fb data_addr size fb_color_white fb_color_black s

-- The loop of `cons_print_color` on fuel.
pub print_loop : Fb → ℕ → ℕ → ℕ → ℕ → Cons → Option Cons
print_loop fb fg_color bg_color zero str s = none
print_loop fb fg_color bg_color (suc fuel) str s =
    let rest = λ (s' : Cons). print_loop fb fg_color bg_color fuel (str + 1) s' in
    if s.mem str == 0
    then some s
    else (cons_putchar_color fb (s.mem str) fg_color bg_color s >>= rest)

pub cons_print_color : ℕ → Fb → ℕ → ℕ → ℕ → Cons → Option Cons
cons_print_color fuel fb str fg_color bg_color s = do
  kassert s.initialized
  kassert (not (str == 0))
  print_loop fb fg_color bg_color fuel str s

abbrev pub cons_print : ℕ → Fb → ℕ → Cons → Option Cons
cons_print fuel fb str s = do
  kassert s.initialized
  kassert (not (str == 0))
  cons_print_color fuel fb str fb_color_white fb_color_black s
