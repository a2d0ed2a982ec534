-- ===== src/Console/Grid.antt =====
-- kernel/console.c refines a terminal that knows characters and no pixels.
use heaven_os.Prelude.{
  ℕ, zero, suc, ◌+◌, ◌*◌, ◌<◌, ◌≡◌, ◌==◌, ◌&&◌, if◌then◌else◌, Option, some, none, List, get_elem?,
}
use heaven_os.Memory.{Bytes}
use heaven_os.Fb.{Fb, fb_color_black}
use heaven_os.Fb.Pixels.{pixel}
use heaven_os.Fb.Glyph.{glyph_color}
use heaven_os.Console.{Cons, glyph_row_at}
use heaven_os.Console.Font.{font}

-- What a cell shows: nothing, or a character in two colors.
pub data Cell : Type 0 where
  blank : Cell
  shown : ℕ → ℕ → ℕ → Cell

pub record Terminal : Type 0 where
  pub width : ℕ
  pub height : ℕ
  pub row : ℕ
  pub col : ℕ
  pub cells : ℕ → ℕ → Cell

-- A line feed: to the start of the next line, where the last line scrolls all lines up.
abbrev pub line_feed : Terminal → Terminal
line_feed t =
    if t.row + 1 == t.height
    then record {
      width = t.width;
      height = t.height;
      row = t.row;
      col = 0;
      cells = λ r c. if r + 1 == t.height then blank else t.cells (r + 1) c;
    }
    else record { width = t.width; height = t.height; row = t.row + 1; col = 0; cells = t.cells }

-- A character in the cell of the cursor, which moves right.
abbrev pub put_cell : ℕ → ℕ → ℕ → Terminal → Terminal
put_cell ch fg_color bg_color t = record {
  width = t.width;
  height = t.height;
  row = t.row;
  col = t.col + 1;
  cells = λ r c. if (r == t.row) && (c == t.col) then shown ch fg_color bg_color else t.cells r c;
}

-- A character at the cursor; behind the last column a line feed follows.
abbrev pub type_glyph : ℕ → ℕ → ℕ → Terminal → Terminal
type_glyph ch fg_color bg_color t =
    let t' = put_cell ch fg_color bg_color t in if t.col + 1 == t.width then line_feed t' else t'

abbrev pub type_char : ℕ → ℕ → ℕ → Terminal → Terminal
type_char ch fg_color bg_color t =
    if ch == 10
    then line_feed t
    else if ch == 13
    then record { width = t.width; height = t.height; row = 0; col = t.col; cells = t.cells }
    else type_glyph ch fg_color bg_color t

-- The bytes of memory from an address on, typed one after the other.
abbrev pub type_bytes : ℕ → ℕ → ℕ → ℕ → Bytes → Terminal → Terminal
type_bytes fg_color bg_color zero data_addr m t = t
type_bytes fg_color bg_color (suc n) data_addr m t =
    type_bytes fg_color bg_color n (data_addr + 1) m (type_char (m data_addr) fg_color bg_color t)

abbrev glyph_of : Option (List ℕ) → ℕ → ℕ
glyph_of none h = 0
glyph_of (some glyph) h = glyph_row_at glyph h

-- The color of pixel (i, j) of a cell.
abbrev pub cell_color : Cell → ℕ → ℕ → ℕ
cell_color blank i j = fb_color_black
cell_color (shown ch fg_color bg_color) i j =
    glyph_color (glyph_of (get_elem? font ch) j) fg_color bg_color i

-- The console has the cursor of the terminal, and the screen shows its cells.
pub record Shows (fb : Fb) (s : Cons) (t : Terminal) : Type 0 where
  pub same_width : s.width ≡ t.width
  pub same_height : s.height ≡ t.height
  pub same_row : s.row ≡ t.row
  pub same_col : s.col ≡ t.col
  pub pixels :
      (r c i j : ℕ)
      → r < s.height
      → c < s.width
      → i < 8
      → j < 8
      → pixel fb (8 * c + i) (8 * r + j) s.mem ≡ cell_color (t.cells r c) i j
