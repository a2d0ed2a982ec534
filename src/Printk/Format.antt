-- ===== src/Printk/Format.antt =====
-- `vprintk_color` of kernel/printk.c, on formats of ASCII characters and numbers.
use heaven_os.Prelude.{
  ℕ, suc, ◌+◌, ◌*◌, ◌%◌, ◌^◌, ◌≤◌, ◌<◌, ◌≡◌, ◌≢◌, ◌⊎◌, ◌==◌, if◌then◌else◌, refl, arith, Bool, true,
  false, inl, inr, Bool-cases, Option, some, none, List, ◌∷◌, [], length,
}
use heaven_os.Memory.{Bytes}
use heaven_os.Fb.{Fb}
use heaven_os.Fb.Bounds.{IsOffScreen}
use heaven_os.Console.{Cons, moved, cons_write_color}
use heaven_os.Console.Cursor.{IsReady, grid-moved, putchar-IsSafe}
use heaven_os.Console.Write.{IsText, write-IsSafe}
use heaven_os.Printk.{
  Printer, format_directive, format_char, format_loop, vprintk_color, printk_buf_size,
}
use heaven_os.Printk.Bounds.{FitsBuf, bprintu64-Fills, bprints64-Fills}

-- What is left of a format when the printer is idle (true) or behind a `%` (false), with a number of
-- arguments left: ASCII characters, and the directives `%u`, `%x` and `%d`, each with its argument.
pub data IsFormat : Bool → List ℕ → ℕ → Type 0 where
  finished : {args : ℕ} → IsFormat true [] args
  literal :
      {c args : ℕ} {fmt : List ℕ}
      → c < 128
      → c ≢ 37
      → IsFormat true fmt args
      → IsFormat true (c ∷ fmt) args
  percent : {args : ℕ} {fmt : List ℕ} → IsFormat false fmt args → IsFormat true (37 ∷ fmt) args
  number :
      {c args : ℕ} {fmt : List ℕ}
      → (c ≡ 117) ⊎ (c ≡ 120) ⊎ (c ≡ 100)
      → IsFormat true fmt args
      → IsFormat false (c ∷ fmt) (suc args)

-- The buffer is not on the screen, and not at the null pointer.
abbrev pub HasBuf : Fb → ℕ → Type 0
HasBuf fb buf =
    (0 < buf) × ((buf + printk_buf_size ≤ fb.addr) ⊎ (fb.addr + fb.pitch * fb.height ≤ buf))

buf_off : (fb : Fb) (buf i : ℕ) → HasBuf fb buf → i < printk_buf_size → IsOffScreen fb (buf + i)
buf_off fb buf i h lt = ground arith

-- The variables of the printer.
abbrev state : Cons → Bool → Option ℕ → List ℕ → Printer
state s idle size args = record { cons = s; idle = idle; size = size; args = args }

-- A step returns a printer with the cursor on the grid.
abbrev Steps : Fb → Bool → List ℕ → Option Printer → Type 0
Steps fb idle args o =
    (s' : Cons) × (size' : Option ℕ) × (o ≡ some (state s' idle size' args)) × IsReady fb s'

module _ (fuel : ℕ) (fb : Fb) (buf : ℕ) (off : HasBuf fb buf) (fg_color bg_color : ℕ) where
  -- What fits the buffer is shown.
  write_buf :
      (s : Cons) (n : ℕ) (m : Bytes)
      → IsReady fb s
      → FitsBuf buf n s.mem m
      → (s' : Cons) × ((if n == 0
            then some (moved s.row s.col m s)
            else cons_write_color fb buf n fg_color bg_color (moved s.row s.col m s))
          ≡ some s')
        × IsReady fb s'
  write_buf s n m (g, col_in) fits =
      let g' = grid-moved s.row s.col m g g.row_in in
      let text : IsText fb m buf n = record {
        nonnull = ground (arith, off);
        ascii = fits.ascii;
        off = λ i h. buf_off fb buf i off (omega (arith, h, fits.few));
      } in
      elim (Bool-cases (n == 0)) [
        | inl e ↦ rw e (moved s.row s.col m s, refl, (g', col_in))
        | inr e ↦
            let (s', wrote, ready, kept) =
              write-IsSafe fb buf n fg_color bg_color (moved s.row s.col m s) (g', col_in) text in
            rw e (s', wrote, ready)
      ]

  number-Steps :
      (s : Cons) (size : Option ℕ) (c v : ℕ) (args : List ℕ)
      → IsReady fb s
      → (c ≡ 117) ⊎ (c ≡ 120) ⊎ (c ≡ 100)
      → Steps fb true args
          (format_char fuel fb buf fg_color bg_color c (state s false size (v ∷ args)))
  unfolding format_char format_directive
  number-Steps s size c v args ready (inl e) = rw e (
      let (n, m, printed, fits) =
        bprintu64-Fills 10 buf (v % 2 ^ 32) 10 s.mem (omega arith) (omega arith) (omega arith)
          (omega arith) (omega arith) in
      let (s', wrote, ready') = write_buf s n m ready fits in
      (s', some n, rw (printed, wrote) refl, ready'))
  number-Steps s size c v args ready (inr (inl e)) = rw e (
      let (n, m, printed, fits) =
        bprintu64-Fills 8 buf (v % 2 ^ 32) 16 s.mem (omega arith) (omega arith) (omega arith)
          (omega arith) (omega arith) in
      let (s', wrote, ready') = write_buf s n m ready fits in
      (s', some n, rw (printed, wrote) refl, ready'))
  number-Steps s size c v args ready (inr (inr e)) = rw e (
      let (n, m, printed, fits) = bprints64-Fills buf (v % 2 ^ 32) s.mem (omega arith) in
      let (s', wrote, ready') = write_buf s n m ready fits in
      (s', some n, rw (printed, wrote) refl, ready'))

  literal-Steps :
      (s : Cons) (size : Option ℕ) (c : ℕ) (args : List ℕ)
      → IsReady fb s
      → c < 128
      → c ≢ 37
      → Steps fb true args (format_char fuel fb buf fg_color bg_color c (state s true size args))
  unfolding format_char
  literal-Steps s size c args ready ascii ne =
      let (s', put, ready', kept) = putchar-IsSafe fb s c fg_color bg_color ready ascii in
      let plain : (c == 37) ≡ false = ground (arith, ne) in (s', size, rw (plain, put) refl, ready')

  loop-Steps :
      (idle : Bool) (fmt args : List ℕ) (s : Cons) (size : Option ℕ)
      → IsReady fb s
      → IsFormat idle fmt (length args)
      → (p : Printer) × (format_loop fuel fb buf fg_color bg_color fmt (state s idle size args)
          ≡ some p)
        × IsReady fb p.cons
  unfolding format_loop format_char
  loop-Steps true [] args s size ready f = (state s true size args, refl, ready)
  loop-Steps false [] args s size ready f = elim f [ ]
  loop-Steps true (c ∷ fmt) args s size ready (literal ascii ne f) =
      let (s', size', step, ready') = literal-Steps s size c args ready ascii ne in
      let (p, rest, ready'') = loop-Steps true fmt args s' size' ready' f in
      (p, rw step rest, ready'')
  loop-Steps true (c ∷ fmt) args s size ready (percent f) = loop-Steps false fmt args s size ready f
  loop-Steps false (c ∷ fmt) [] s size ready f = elim f [ ]
  loop-Steps false (c ∷ fmt) (v ∷ args) s size ready (number which f) =
      let (s', size', step, ready') = number-Steps s size c v args ready which in
      let (p, rest, ready'') = loop-Steps true fmt args s' size' ready' f in
      (p, rw step rest, ready'')

-- From a cursor on the grid, with a buffer of 11 bytes that is not on the screen, `vprintk_color` of a
-- format of ASCII characters and of directives `%u`, `%x` and `%d` with an argument for each one
-- succeeds and leaves the cursor on the grid.
pub vprintk_color-IsReady :
    (fuel : ℕ) (fb : Fb) (buf : ℕ) (fmt args : List ℕ) (fg_color bg_color : ℕ) (s : Cons)
    → HasBuf fb buf
    → IsFormat true fmt (length args)
    → IsReady fb s
    → (s' : Cons) × (vprintk_color fuel fb buf fmt args fg_color bg_color s ≡ some s')
      × IsReady fb s'
unfolding vprintk_color
vprintk_color-IsReady fuel fb buf fmt args fg_color bg_color s off f (g, col_in) =
    let (p, printed, ready) =
      loop-Steps fuel fb buf off fg_color bg_color true fmt args s none (g, col_in) f in
    (p.cons, simp (g.cons_ready, printed) refl, ready)
