-- ===== src/Console/Text.antt =====
-- `cons_print_color` of kernel/console.c writes the characters of a string.
use heaven_os.Prelude.{
  ℕ, zero, suc, ◌+◌, ◌<◌, ◌≡◌, ◌≢◌, refl, ◌∙◌, ap, arith, ◌==◌, true, false, not, Option, some,
}
use heaven_os.Memory.{Bytes}
use heaven_os.FrameAlloc.{kassert, ◌>>◌}
use heaven_os.Fb.{Fb}
use heaven_os.Fb.Bounds.{IsOffScreen}
use heaven_os.Console.{Cons, write_loop, cons_write_color, print_loop, cons_print_color}
use heaven_os.Console.Write.{IsText, text_head, IsText-tail, write-IsSafe}
use heaven_os.Console.Cursor.{IsReady, Keeps, putchar-IsSafe}

-- A string of ASCII characters and a NUL byte, none of them on the screen.
pub record IsString (fb : Fb) (m : Bytes) (str len : ℕ) : Type 0 where
  pub text : IsText fb m str len
  pub nonzero : (i : ℕ) → i < len → m (str + i) ≢ 0
  pub end : m (str + len) ≡ 0
  pub end_off : IsOffScreen fb (str + len)

IsString-tail :
    {fb : Fb} {m m' : Bytes} (str len : ℕ)
    → IsString fb m str (suc len)
    → Keeps fb m m'
    → IsString fb m' (str + 1) len
IsString-tail {fb = fb} {m = m} str len s kept = record {
  text = IsText-tail str len s.text kept;
  nonzero = λ i h.
      rw (next i, kept (str + suc i) (s.text.off (suc i) (omega (arith, h))))
        (s.nonzero (suc i) (omega (arith, h)));
  end = rw (next len) (kept (str + suc len) s.end_off ∙ s.end);
  end_off = rw (next len) s.end_off;
}
  where
    next : (i : ℕ) → str + 1 + i ≡ str + suc i
    next i = omega arith

print_loop-write_loop :
    (fb : Fb) (fg_color bg_color fuel len str : ℕ) (s : Cons)
    → IsReady fb s
    → IsString fb s.mem str len
    → len < fuel
    → print_loop fb fg_color bg_color fuel str s ≡ write_loop fb fg_color bg_color len str s
unfolding print_loop write_loop
print_loop-write_loop fb fg_color bg_color zero len str s ready string enough = absurd (omega arith)
print_loop-write_loop fb fg_color bg_color (suc fuel) zero str s ready string enough =
    let here : str + 0 ≡ str = omega arith in
    let stop : s.mem str ≡ 0 = rw here at string.end in
    let end : (s.mem str == 0) ≡ true = ground (arith, stop) in rw end refl
print_loop-write_loop fb fg_color bg_color (suc fuel) (suc len) str s ready string enough =
    let here : str + 0 ≡ str = omega arith in
    let more : s.mem str ≢ 0 = rw here at (string.nonzero 0 (omega arith)) in
    let going : (s.mem str == 0) ≡ false = ground (arith, more) in
    let (s1, put, ready1, kept) =
      putchar-IsSafe fb s (s.mem str) fg_color bg_color ready (text_head str len string.text) in
    rw (going, put)
      (print_loop-write_loop fb fg_color bg_color fuel len (str + 1) s1 ready1
        (IsString-tail str len string kept) (omega arith))

-- From a cursor on the grid, on fuel that exceeds the length of a string of ASCII characters that is
-- not on the screen, `cons_print_color` of the string returns what `cons_write_color` of its
-- characters without the NUL byte returns, and that is a result, with the cursor on the grid.
pub cons_print_color-cons_write_color :
    (fb : Fb) (fuel len str fg_color bg_color : ℕ) (s : Cons)
    → IsReady fb s
    → IsString fb s.mem str len
    → len < fuel
    → (s' : Cons) × (cons_print_color fuel fb str fg_color bg_color s ≡ some s')
      × (cons_write_color fb str len fg_color bg_color s ≡ some s')
      × IsReady fb s'
unfolding cons_print_color cons_write_color
cons_print_color-cons_write_color fb fuel len str fg_color bg_color s (g, col_in) string enough =
    let (s', wrote, ready, kept) =
      write-IsSafe fb str len fg_color bg_color s (g, col_in) string.text in
    let same =
      print_loop-write_loop fb fg_color bg_color fuel len str s (g, col_in) string enough in
    (
      s',
      ap (λ (k : Option Cons). kassert s.initialized >> (kassert (not (str == 0)) >> k)) same
          ∙ wrote,
      wrote,
      ready,
    )
