-- ===== src/Console/Cells.antt =====
-- What drawing a character and scrolling in kernel/console.c do to the cells of the terminal.
use heaven_os.Prelude.{
  ℕ, ◌+◌, ◌-◌, ◌*◌, ◌^◌, ◌<◌, ◌≡◌, inl, inr, refl, ◌∙◌, arith, ltb, leb, ◌==◌, ◌&&◌, true, false,
  if◌then◌else◌, Bool-cases, some, of_answer,
}
use heaven_os.Memory.{Bytes}
use heaven_os.Fb.{Fb, fb_draw_glyph, fb_scroll_up, fb_color_black}
use heaven_os.Fb.Pixels.{pixel}
use heaven_os.Fb.Glyph.{glyph_color, fb_draw_glyph-pixel}
use heaven_os.Fb.Scroll.{fb_scroll_up-pixel}
use heaven_os.Console.{Cons, char_index, glyph_row_at, draw_char}
use heaven_os.Console.Font.{font-ascii}
use heaven_os.Console.Cursor.{HasGrid, IsReady}
use heaven_os.Console.Grid.{blank, shown, Terminal, cell_color, Shows}

pub scrolled-pixel :
    (fb : Fb) (s : Cons) (t : Terminal) (m : Bytes) (r c i j : ℕ)
    → HasGrid fb s
    → s.height * 8 ≡ fb.height
    → Shows fb s t
    → fb_scroll_up fb 8 fb_color_black s.mem ≡ some m
    → r < s.height
    → c < s.width
    → i < 8
    → j < 8
    → pixel fb (8 * c + i) (8 * r + j) m
      ≡ cell_color (if r + 1 == t.height then blank else t.cells (r + 1) c) i j
scrolled-pixel fb s t m r c i j g whole shows scrolled hr hc hi hj =
    of_answer
      (λ (m' : Bytes). pixel fb (8 * c + i) (8 * r + j) m' ≡ (
        if ltb (8 * r + j + 8) fb.height
        then pixel fb (8 * c + i) (8 * r + j + 8) s.mem
        else fb_color_black))
      (fb_scroll_up-pixel fb 8 fb_color_black (8 * c + i) (8 * r + j) s.mem g.fb_ready g.rows
        (omega arith) (omega (arith, g.row_in)) (omega (arith, g.wide)) (omega arith))
      scrolled
    ∙ elim (Bool-cases (r + 1 == t.height)) [
      | inl e ↦
          let new : ltb (8 * r + j + 8) fb.height ≡ false = ground (arith, shows.same_height) in
          rw (e, new) refl
      | inr e ↦
          let kept : ltb (8 * r + j + 8) fb.height ≡ true = ground (arith, shows.same_height) in
          let from : 8 * r + j + 8 ≡ 8 * (r + 1) + j = omega arith in
          rw (e, kept, from)
            (shows.pixels (r + 1) c i j (ground (arith, shows.same_height)) hc hi hj)
    ]

-- A drawn character is in the cell of the cursor.
pub drawn-pixel :
    (fb : Fb) (fg_color bg_color : ℕ) (s : Cons) (t : Terminal) (ch : ℕ) (m : Bytes) (r c i j : ℕ)
    → fg_color < 2 ^ 32
    → bg_color < 2 ^ 32
    → IsReady fb s
    → ch < 128
    → Shows fb s t
    → draw_char fb ch s.row s.col fg_color bg_color s.mem ≡ some m
    → r < s.height
    → c < s.width
    → i < 8
    → j < 8
    → pixel fb (8 * c + i) (8 * r + j) m
      ≡ cell_color
          (if (r == t.row) && (c == t.col) then shown ch fg_color bg_color else t.cells r c)
          i
          j
unfolding draw_char
drawn-pixel fb fg_color bg_color s t ch m r c i j fg bg (g, col_in) ascii shows drawn hr hc hi hj =
    let (glyph, found) = font-ascii ch ascii in
    let at : char_index ch ≡ ch = ground arith in
    let drawn' : fb_draw_glyph fb (glyph_row_at glyph) (8 * s.col) (8 * s.row) fg_color bg_color
          s.mem
        ≡ some m =
      rw (at, found) at drawn in
    of_answer
      (λ (m' : Bytes). pixel fb (8 * c + i) (8 * r + j) m' ≡ (
        if (leb (8 * s.col) (8 * c + i) && ltb (8 * c + i) (8 * s.col + 8))
          && (leb (8 * s.row) (8 * r + j) && ltb (8 * r + j) (8 * s.row + 8))
        then glyph_color (glyph_row_at glyph (8 * r + j - 8 * s.row)) fg_color bg_color
            (8 * c + i - 8 * s.col)
        else pixel fb (8 * c + i) (8 * r + j) s.mem))
      (fb_draw_glyph-pixel fb (glyph_row_at glyph) (8 * s.col) (8 * s.row) fg_color bg_color
        (8 * c + i) (8 * r + j) s.mem g.fb_ready g.rows fg bg (omega (arith, g.wide))
        (omega (arith, g.wide)))
      drawn'
    ∙ elim (Bool-cases ((r == t.row) && (c == t.col))) [
      | inl e ↦
          let inside : ((leb (8 * s.col) (8 * c + i) && ltb (8 * c + i) (8 * s.col + 8))
                && (leb (8 * s.row) (8 * r + j) && ltb (8 * r + j) (8 * s.row + 8)))
              ≡ true =
            ground (arith, shows.same_row, shows.same_col) in
          let x : 8 * c + i - 8 * s.col ≡ i = ground (arith, shows.same_row, shows.same_col) in
          let y : 8 * r + j - 8 * s.row ≡ j = ground (arith, shows.same_row, shows.same_col) in
          rw (e, inside, x, y, found) refl
      | inr e ↦
          let outside : ((leb (8 * s.col) (8 * c + i) && ltb (8 * c + i) (8 * s.col + 8))
                && (leb (8 * s.row) (8 * r + j) && ltb (8 * r + j) (8 * s.row + 8)))
              ≡ false =
            ground (arith, shows.same_row, shows.same_col) in
          rw (e, outside) (shows.pixels r c i j hr hc hi hj)
    ]
