-- ===== src/Console/Refine.antt =====
-- The operations of kernel/console.c do on the screen what those of the terminal do on its cells.
use heaven_os.Prelude.{
  ℕ, zero, suc, ◌+◌, ◌*◌, ◌^◌, ◌<◌, ◌≡◌, inl, inr, refl, sym, ◌∙◌, subst, arith, ◌==◌, true, false,
  Bool, Bool-cases, Option, some, of_answer,
}
use heaven_os.Memory.{Bytes}
use heaven_os.FrameAlloc.{kassert, ◌>>◌}
use heaven_os.Fb.{Fb, fb_color_black}
use heaven_os.Fb.Bounds.{scroll-some}
use heaven_os.Console.{
  Cons, moved, cons_newline_and_return, cons_put_glyph, cons_putchar_color, putchar_switch,
  write_loop, cons_write_color,
}
use heaven_os.Console.Write.{IsText, text_head, IsText-tail}
use heaven_os.Console.Cursor.{grid-moved, draw_char-some, HasGrid, IsReady, putchar-IsSafe}
use heaven_os.Console.Grid.{Terminal, put_cell, line_feed, type_glyph, type_char, type_bytes, Shows}
use heaven_os.Console.Cells.{scrolled-pixel, drawn-pixel}

-- A call returns a console that shows a terminal.
abbrev Yields : Fb → Option Cons → Terminal → Type 0
Yields fb o t = (s' : Cons) × (o ≡ some s') × Shows fb s' t

height-line_feed : (t : Terminal) → (line_feed t).height ≡ t.height
height-line_feed t = elim (Bool-cases (t.row + 1 == t.height)) [
  | inl e ↦ rw e refl
  | inr e ↦ rw e refl
]

height-type_char :
    (ch fg_color bg_color : ℕ) (t : Terminal) → (type_char ch fg_color bg_color t).height ≡ t.height
height-type_char ch fg_color bg_color t = elim (Bool-cases (ch == 10)) [
  | inl e ↦ rw e (height-line_feed t)
  | inr e ↦ elim (Bool-cases (ch == 13)) [
    | inl e' ↦ rw (e, e') refl
    | inr e' ↦ elim (Bool-cases (t.col + 1 == t.width)) [
      | inl wrap ↦ rw (e, e', wrap) (height-line_feed (put_cell ch fg_color bg_color t))
      | inr stay ↦ rw (e, e', stay) refl
    ]
  ]
]

newline-line_feed :
    (fb : Fb) (s : Cons) (t : Terminal)
    → HasGrid fb s
    → s.height * 8 ≡ fb.height
    → Shows fb s t
    → Yields fb (cons_newline_and_return fb s) (line_feed t)
unfolding cons_newline_and_return
newline-line_feed fb s t g whole shows = elim (Bool-cases (s.row + 1 == s.height)) [
  | inl e ↦
      let (m, scrolled) = scroll-some fb 8 fb_color_black s.mem g.fb_ready in
      let e' : (t.row + 1 == t.height) ≡ true = ground (arith, shows.same_row, shows.same_height) in
      (
        moved s.row 0 m s,
        rw (e, scrolled) refl,
        rw e' (record {
          same_width = shows.same_width;
          same_height = shows.same_height;
          same_row = shows.same_row;
          same_col = refl;
          pixels = λ r c i j hr hc hi hj.
              scrolled-pixel fb s t m r c i j g whole shows scrolled hr hc hi hj;
        }),
      )
  | inr e ↦
      let e' : (t.row + 1 == t.height) ≡ false =
        ground (arith, shows.same_row, shows.same_height) in
      (
        moved (s.row + 1) 0 s.mem s,
        rw e refl,
        rw e' (record {
          same_width = shows.same_width;
          same_height = shows.same_height;
          same_row = omega (arith, shows.same_row);
          same_col = refl;
          pixels = shows.pixels;
        }),
      )
]

module _ (fb : Fb) (fg_color bg_color : ℕ) (fg : fg_color < 2 ^ 32) (bg : bg_color < 2 ^ 32) where
  put_glyph-type_glyph :
      (s : Cons) (t : Terminal) (ch : ℕ)
      → IsReady fb s
      → s.height * 8 ≡ fb.height
      → ch < 128
      → Shows fb s t
      → Yields fb (cons_put_glyph fb ch fg_color bg_color s) (type_glyph ch fg_color bg_color t)
  unfolding cons_put_glyph
  put_glyph-type_glyph s t ch (g, col_in) whole ascii shows =
      let (m, drawn, kept) = draw_char-some fb s ch fg_color bg_color (g, col_in) ascii in
      let after : Cons = moved s.row (s.col + 1) m s in
      let typed = put_cell ch fg_color bg_color t in
      let shows' : Shows fb after typed = record {
        same_width = shows.same_width;
        same_height = shows.same_height;
        same_row = shows.same_row;
        same_col = omega (arith, shows.same_col);
        pixels = λ r c i j hr hc hi hj.
            drawn-pixel fb fg_color bg_color s t ch m r c i j fg bg (g, col_in) ascii shows drawn hr
              hc hi hj;
      } in
      let g' : HasGrid fb after = grid-moved s.row (s.col + 1) m g g.row_in in
      rw drawn (elim (Bool-cases (s.col + 1 == s.width)) [
        | inl e ↦
            let e' : (t.col + 1 == t.width) ≡ true =
              ground (arith, shows.same_col, shows.same_width) in
            rw (e, e') (newline-line_feed fb after typed g' whole shows')
        | inr e ↦
            let e' : (t.col + 1 == t.width) ≡ false =
              ground (arith, shows.same_col, shows.same_width) in
            rw (e, e') (after, refl, shows')
      ])

  switch-type_char :
      (s : Cons) (t : Terminal) (ch : ℕ)
      → IsReady fb s
      → s.height * 8 ≡ fb.height
      → ch < 128
      → Shows fb s t
      → Yields fb (putchar_switch fb ch fg_color bg_color s) (type_char ch fg_color bg_color t)
  unfolding putchar_switch
  switch-type_char s t ch (g, col_in) whole ascii shows = elim (Bool-cases (ch == 10)) [
    | inl e ↦ rw e (newline-line_feed fb s t g whole shows)
    | inr e ↦ elim (Bool-cases (ch == 13)) [
      | inl e' ↦
          rw (e, e')
            (
              moved 0 s.col s.mem s,
              refl,
              record {
                same_width = shows.same_width;
                same_height = shows.same_height;
                same_row = refl;
                same_col = shows.same_col;
                pixels = shows.pixels;
              },
            )
      | inr e' ↦ rw (e, e') (put_glyph-type_glyph s t ch (g, col_in) whole ascii shows)
    ]
  ]

  put-type_char :
      (s : Cons) (t : Terminal) (ch : ℕ)
      → IsReady fb s
      → s.height * 8 ≡ fb.height
      → ch < 128
      → Shows fb s t
      → Yields fb (cons_putchar_color fb ch fg_color bg_color s) (type_char ch fg_color bg_color t)
  put-type_char s t ch (g, col_in) whole ascii shows =
      subst
        (λ (b : Bool).
          Yields fb (kassert b >> putchar_switch fb ch fg_color bg_color s)
            (type_char ch fg_color bg_color t))
        (sym g.cons_ready) (switch-type_char s t ch (g, col_in) whole ascii shows)

  -- The loop types the bytes that a memory `m` has where the text is.
  loop-type_bytes :
      (n data_addr : ℕ) (s : Cons) (t : Terminal) (m : Bytes)
      → IsReady fb s
      → t.height * 8 ≡ fb.height
      → IsText fb s.mem data_addr n
      → ((i : ℕ) → i < n → s.mem (data_addr + i) ≡ m (data_addr + i))
      → Shows fb s t
      → Yields fb
          (write_loop fb fg_color bg_color n data_addr s)
          (type_bytes fg_color bg_color n data_addr m t)
  unfolding write_loop
  loop-type_bytes zero data_addr s t m ready whole text same shows = (s, refl, shows)
  loop-type_bytes (suc n) data_addr s t m ready whole text same shows =
      let ch = s.mem data_addr in
      let first : data_addr + 0 ≡ data_addr = omega arith in
      let next : (i : ℕ) → data_addr + 1 + i ≡ data_addr + suc i = λ i. omega arith in
      let read : ch ≡ m data_addr = rw first at (same 0 (omega arith)) in
      let ascii : ch < 128 = text_head data_addr n text in
      let (s1, put, ready1, kept) = putchar-IsSafe fb s ch fg_color bg_color ready ascii in
      let shows1 : Shows fb s1 (type_char ch fg_color bg_color t) =
        of_answer (λ (s' : Cons). Shows fb s' (type_char ch fg_color bg_color t))
          (put-type_char s t ch ready (rw shows.same_height whole) ascii shows) put in
      let (s2, wrote, shows2) =
        loop-type_bytes n (data_addr + 1) s1 (type_char ch fg_color bg_color t) m ready1
          (omega (arith, height-type_char ch fg_color bg_color t, whole))
          (IsText-tail data_addr n text kept)
          (λ i h. rw (next i) (
            kept (data_addr + suc i) (text.off (suc i) (omega (arith, h)))
            ∙ same (suc i) (omega (arith, h))))
          shows1 in
      (s2, rw put wrote, rw (sym read) shows2)

-- When the height of the screen is that of the grid, the cursor is on the grid, the colors have 32
-- bits, and the screen shows the cells of a terminal, then `cons_write_color` of a text of ASCII
-- characters that is not on the screen returns a console that shows the terminal after the
-- characters were typed on it, one after the other.
pub cons_write_color-type_bytes :
    (fb : Fb) (data_addr size fg_color bg_color : ℕ) (s : Cons) (t : Terminal)
    → fg_color < 2 ^ 32
    → bg_color < 2 ^ 32
    → IsReady fb s
    → t.height * 8 ≡ fb.height
    → IsText fb s.mem data_addr size
    → Shows fb s t
    → (s' : Cons) × (cons_write_color fb data_addr size fg_color bg_color s ≡ some s')
      × Shows fb s' (type_bytes fg_color bg_color size data_addr s.mem t)
unfolding cons_write_color
cons_write_color-type_bytes fb data_addr size fg_color bg_color s t fg bg (g, col_in) whole text
      shows =
    let given : (data_addr == 0) ≡ false = ground (arith, text.nonnull) in
    rw given (
      subst
        (λ (b : Bool).
          Yields fb (kassert b >> write_loop fb fg_color bg_color size data_addr s)
            (type_bytes fg_color bg_color size data_addr s.mem t))
        (sym g.cons_ready)
        (loop-type_bytes fb fg_color bg_color fg bg size data_addr s t s.mem (g, col_in) whole text
          (λ i h. refl) shows))
