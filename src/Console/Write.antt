-- ===== src/Console/Write.antt =====
-- kernel/console.c: `cons_write_color` and `cons_init` keep the cursor on the grid.
use heaven_os.Prelude.{
  ℕ, zero, suc, ◌+◌, ◌≤◌, ◌<◌, ◌≡◌, ◌≢◌, refl, sym, ◌∙◌, subst, arith, ◌==◌, true, false, Bool, ◌/◌,
  some,
}
use heaven_os.Memory.{Bytes}
use heaven_os.FrameAlloc.{kassert, ◌>>◌}
use heaven_os.Fb.{Fb}
use heaven_os.Fb.Pixels.{HasRows}
use heaven_os.Fb.Bounds.{IsOffScreen}
use heaven_os.Console.{Cons, write_loop, cons_write_color, cons_init}
use heaven_os.Console.Cursor.{IsReady, Keeps, IsSafe, putchar-IsSafe}

-- The bytes of a text of ASCII characters, none of them on the screen, and not at the null pointer.
pub record IsText (fb : Fb) (m : Bytes) (data_addr size : ℕ) : Type 0 where
  pub nonnull : data_addr ≢ 0
  pub ascii : (i : ℕ) → i < size → m (data_addr + i) < 128
  pub off : (i : ℕ) → i < size → IsOffScreen fb (data_addr + i)

-- What is left of a text after its first character was shown.
pub IsText-tail :
    {fb : Fb} {m m' : Bytes} (data_addr size : ℕ)
    → IsText fb m data_addr (suc size)
    → Keeps fb m m'
    → IsText fb m' (data_addr + 1) size
IsText-tail {fb = fb} {m = m} data_addr size text kept = record {
  nonnull = omega arith;
  ascii = λ i h.
      let shift = next i in
      rw (shift, kept (data_addr + suc i) (text.off (suc i) (omega (arith, h))))
        (text.ascii (suc i) (omega (arith, h)));
  off = λ i h. rw (next i) (text.off (suc i) (omega (arith, h)));
}
  where
    next : (i : ℕ) → data_addr + 1 + i ≡ data_addr + suc i
    next i = omega arith

pub text_head :
    {fb : Fb} {m : Bytes} (data_addr size : ℕ)
    → IsText fb m data_addr (suc size)
    → m data_addr < 128
text_head data_addr size text =
    let first : data_addr + 0 ≡ data_addr = omega arith in rw first at (text.ascii 0 (omega arith))

loop-IsSafe :
    (fb : Fb) (fg_color bg_color n data_addr : ℕ) (s : Cons)
    → IsReady fb s
    → IsText fb s.mem data_addr n
    → IsSafe fb s (write_loop fb fg_color bg_color n data_addr s)
unfolding write_loop
loop-IsSafe fb fg_color bg_color zero data_addr s ready text = (s, refl, ready, λ a out. refl)
loop-IsSafe fb fg_color bg_color (suc n) data_addr s ready text =
    let (s1, put, ready1, kept1) =
      putchar-IsSafe fb s (s.mem data_addr) fg_color bg_color ready (text_head data_addr n text) in
    let (s2, wrote, ready2, kept2) =
      loop-IsSafe fb fg_color bg_color n (data_addr + 1) s1 ready1
        (IsText-tail data_addr n text kept1) in
    (s2, rw put wrote, ready2, λ a out. kept2 a out ∙ kept1 a out)

pub write-IsSafe :
    (fb : Fb) (data_addr size fg_color bg_color : ℕ) (s : Cons)
    → IsReady fb s
    → IsText fb s.mem data_addr size
    → IsSafe fb s (cons_write_color fb data_addr size fg_color bg_color s)
unfolding cons_write_color
write-IsSafe fb data_addr size fg_color bg_color s (g, col_in) text =
    let given : (data_addr == 0) ≡ false = ground (arith, text.nonnull) in
    rw given (
      subst
        (λ (b : Bool). IsSafe fb s (kassert b >> write_loop fb fg_color bg_color size data_addr s))
        (sym g.cons_ready) (loop-IsSafe fb fg_color bg_color size data_addr s (g, col_in) text))

-- From a cursor on the grid, `cons_write_color` of a text of ASCII characters that is not on the
-- screen succeeds, leaves the cursor on the grid, and changes no byte outside the framebuffer.
pub cons_write_color-IsReady :
    (fb : Fb) (data_addr size fg_color bg_color a : ℕ) (s : Cons)
    → IsReady fb s
    → IsText fb s.mem data_addr size
    → IsOffScreen fb a
    → (s' : Cons) × (cons_write_color fb data_addr size fg_color bg_color s ≡ some s')
      × IsReady fb s'
      × (s'.mem a ≡ s.mem a)
cons_write_color-IsReady fb data_addr size fg_color bg_color a s ready text out =
    let (s', wrote, ready', kept) = write-IsSafe fb data_addr size fg_color bg_color s ready text in
    (s', wrote, ready', kept a out)

-- After `cons_init` on an initialized framebuffer that holds at least one character, whose rows hold
-- their pixels, the cursor, which starts at the origin, is on the grid.
pub cons_init-IsReady :
    (fb : Fb) (s : Cons)
    → fb.initialized ≡ true
    → HasRows fb
    → 8 ≤ fb.width
    → 8 ≤ fb.height
    → s.row ≡ 0
    → s.col ≡ 0
    → (s' : Cons) × (cons_init fb s ≡ some s') × IsReady fb s'
cons_init-IsReady fb s ready rows wide high row col = (
  record {
    initialized = true;
    width = fb.width / 8;
    height = fb.height / 8;
    row = s.row;
    col = s.col;
    mem = s.mem;
  },
  rw ready refl,
  (
    record {
      cons_ready = refl;
      fb_ready = ready;
      rows = rows;
      wide = omega (arith, wide);
      high = omega (arith, high);
      some_col = omega (arith, wide);
      row_in = omega (arith, row, high);
    },
    omega (arith, col, wide),
  ),
)
