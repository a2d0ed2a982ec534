-- ===== src/Console/Cursor.antt =====
-- kernel/console.c: the cursor stays in the grid, and only the framebuffer is written.
use heaven_os.Prelude.{
  ℕ, ◌+◌, ◌*◌, ◌≤◌, ◌<◌, ◌≡◌, inl, inr, refl, sym, ◌∙◌, subst, arith, ◌==◌, true, Bool, Bool-cases,
  Option, some,
}
use heaven_os.Memory.{Bytes}
use heaven_os.FrameAlloc.{kassert, ◌>>◌}
use heaven_os.Fb.{Fb, fb_color_black}
use heaven_os.Fb.Pixels.{HasRows}
use heaven_os.Fb.Bounds.{IsOffScreen, glyph-some, glyph-off, scroll-some, scroll-off}
use heaven_os.Console.{
  Cons, moved, char_index, glyph_row_at, draw_char, cons_newline_and_return, cons_put_glyph,
  cons_putchar_color, putchar_switch,
}
use heaven_os.Console.Font.{font-ascii}

-- The grid lies on the screen of an initialized framebuffer, and the cursor is in one of its rows.
pub record HasGrid (fb : Fb) (s : Cons) : Type 0 where
  pub cons_ready : s.initialized ≡ true
  pub fb_ready : fb.initialized ≡ true
  pub rows : HasRows fb
  pub wide : s.width * 8 ≤ fb.width
  pub high : s.height * 8 ≤ fb.height
  pub some_col : 0 < s.width
  pub row_in : s.row < s.height

-- The cursor is on a cell of the grid.
abbrev pub IsReady : Fb → Cons → Type 0
IsReady fb s = HasGrid fb s × (s.col < s.width)

-- No byte outside the framebuffer differs.
abbrev pub Keeps : Fb → Bytes → Bytes → Type 0
Keeps fb m m' = (a : ℕ) → IsOffScreen fb a → m' a ≡ m a

-- A call of the console succeeds, and leaves a cursor on the grid and what is not on the screen.
abbrev pub IsSafe : Fb → Cons → Option Cons → Type 0
IsSafe fb s o = (s' : Cons) × (o ≡ some s') × IsReady fb s' × Keeps fb s.mem s'.mem

pub grid-moved :
    {fb : Fb} {s : Cons} (row col : ℕ) (m : Bytes)
    → HasGrid fb s
    → row < s.height
    → HasGrid fb (moved row col m s)
grid-moved row col m g h = record {
  cons_ready = g.cons_ready;
  fb_ready = g.fb_ready;
  rows = g.rows;
  wide = g.wide;
  high = g.high;
  some_col = g.some_col;
  row_in = h;
}

newline-IsSafe : (fb : Fb) (s : Cons) → HasGrid fb s → IsSafe fb s (cons_newline_and_return fb s)
unfolding cons_newline_and_return
newline-IsSafe fb s g = elim (Bool-cases (s.row + 1 == s.height)) [
  | inl e ↦
      let (m, scrolled) = scroll-some fb 8 fb_color_black s.mem g.fb_ready in
      (
        moved s.row 0 m s,
        rw (e, scrolled) refl,
        (grid-moved s.row 0 m g g.row_in, g.some_col),
        λ a out.
            scroll-off fb 8 fb_color_black a s.mem m scrolled g.rows
              (omega (arith, g.high, g.row_in)) out,
      )
  | inr e ↦ (
    moved (s.row + 1) 0 s.mem s,
    rw e refl,
    (grid-moved (s.row + 1) 0 s.mem g (ground (arith, g.row_in)), g.some_col),
    λ a out. refl,
  )
]

pub draw_char-some :
    (fb : Fb) (s : Cons) (c fg_color bg_color : ℕ)
    → IsReady fb s
    → c < 128
    → (m : Bytes) × (draw_char fb c s.row s.col fg_color bg_color s.mem ≡ some m) × Keeps fb s.mem m
unfolding draw_char
draw_char-some fb s c fg_color bg_color (g, col_in) ascii =
    let (glyph, found) = font-ascii c ascii in
    let at : char_index c ≡ c = ground arith in
    let (m, drawn) =
      glyph-some fb (glyph_row_at glyph) (8 * s.col) (8 * s.row) fg_color bg_color s.mem
        g.fb_ready in
    (
      m,
      rw (at, found) drawn,
      λ a out.
          glyph-off fb (glyph_row_at glyph) (8 * s.col) (8 * s.row) fg_color bg_color a s.mem m
            drawn g.rows (omega (arith, g.wide)) (omega (arith, g.high, g.row_in)) out,
    )

put_glyph-IsSafe :
    (fb : Fb) (s : Cons) (c fg_color bg_color : ℕ)
    → IsReady fb s
    → c < 128
    → IsSafe fb s (cons_put_glyph fb c fg_color bg_color s)
unfolding cons_put_glyph
put_glyph-IsSafe fb s c fg_color bg_color (g, col_in) ascii =
    let (m, drawn, kept) = draw_char-some fb s c fg_color bg_color (g, col_in) ascii in
    let g' = grid-moved s.row (s.col + 1) m g g.row_in in
    rw drawn (elim (Bool-cases (s.col + 1 == s.width)) [
      | inl e ↦
          let (s', returned, ready, kept') = newline-IsSafe fb (moved s.row (s.col + 1) m s) g' in
          (s', rw e returned, ready, λ a out. kept' a out ∙ kept a out)
      | inr e ↦ (moved s.row (s.col + 1) m s, rw e refl, (g', ground arith), kept)
    ])

switch-IsSafe :
    (fb : Fb) (s : Cons) (c fg_color bg_color : ℕ)
    → IsReady fb s
    → c < 128
    → IsSafe fb s (putchar_switch fb c fg_color bg_color s)
unfolding putchar_switch
switch-IsSafe fb s c fg_color bg_color (g, col_in) ascii = elim (Bool-cases (c == 10)) [
  | inl e ↦ rw e (newline-IsSafe fb s g)
  | inr e ↦ rw e (elim (Bool-cases (c == 13)) [
    | inl e' ↦ rw e' (
      moved 0 s.col s.mem s,
      refl,
      (grid-moved 0 s.col s.mem g (omega (arith, g.row_in)), col_in),
      λ a out. refl,
    )
    | inr e' ↦ rw e' (put_glyph-IsSafe fb s c fg_color bg_color (g, col_in) ascii)
  ])
]

pub putchar-IsSafe :
    (fb : Fb) (s : Cons) (c fg_color bg_color : ℕ)
    → IsReady fb s
    → c < 128
    → IsSafe fb s (cons_putchar_color fb c fg_color bg_color s)
putchar-IsSafe fb s c fg_color bg_color (g, col_in) ascii =
    subst (λ (b : Bool). IsSafe fb s (kassert b >> putchar_switch fb c fg_color bg_color s))
      (sym g.cons_ready) (switch-IsSafe fb s c fg_color bg_color (g, col_in) ascii)
