-- ===== src/Printk/Tests.antt =====
-- Runs of kernel/printk.c, and its theorems at them.
use heaven_os.Prelude.{
  ℕ, ◌≤◌, ◌<◌, ◌≡◌, refl, true, false, some, none, arith, inl, inr, List, [], ◌∷◌,
}
use heaven_os.Memory.{Bytes}
use heaven_os.Fb.{Fb, fb_color_white, fb_color_black}
use heaven_os.Console.{Cons}
use heaven_os.Console.Cursor.{IsReady}
use heaven_os.Printk.{
  bprintu64, bprints64, bprintptr, sign_extend, printk_buf_size, format_directive, vprintk_color,
}
use heaven_os.Printk.Digits.{number_value}
use heaven_os.Printk.Number.{bprintu64-number_value}
use heaven_os.Printk.Bounds.{print_integers-bounds, bprintptr-overflow}
use heaven_os.Printk.Format.{IsFormat, finished, literal, percent, number, vprintk_color-IsReady}

abbrev zeros : Bytes
zeros a = 0

-- Three columns and two lines of characters.
abbrev screen : Fb
screen = record {
  initialized = true;
  addr = 1000;
  width = 24;
  height = 16;
  pitch = 96;
  buf_size = 1536;
}

abbrev console : Cons
console = record { initialized = true; width = 3; height = 2; row = 1; col = 2; mem = zeros }

ready : IsReady screen console
ready = (
  record {
    cons_ready = refl;
    fb_ready = refl;
    rows = omega arith;
    wide = omega arith;
    high = omega arith;
    some_col = omega arith;
    row_in = omega arith;
  },
  omega arith,
)

-- "A%d"
abbrev format : List ℕ
format = 65 ∷ 37 ∷ 100 ∷ []

format-IsFormat : IsFormat true format 1
format-IsFormat = literal (omega arith) (omega arith) (percent (number (inr (inr refl)) finished))

-- `%i` after no other directive reads a size that was never set.
size_unset :
    format_directive 9 screen 200 1 0 105
      (record { cons = console; idle = false; size = none; args = [] })
    ≡ none
unfolding format_directive
size_unset = refl

bprintu64-number_value_example :
    (n : ℕ) × (m' : Bytes) × (bprintu64 200 4095 10 zeros ≡ some (n, m'))
    × (n ≤ 10)
    × (number_value 10 m' 200 n ≡ 4095)
    × (m' 199 ≡ 0)
bprintu64-number_value_example =
    bprintu64-number_value 10 200 4095 10 199 zeros (omega arith) (omega arith) (omega arith)
      (omega arith) (omega arith) (inl (omega arith))

print_integers-bounds_example :
    ((n : ℕ) × (m' : Bytes) × (bprints64 200 (sign_extend 4294967286) 10 zeros ≡ some (n, m'))
      × (n ≤ 11)
      × (m' 211 ≡ 0))
    × ((n : ℕ) × (m' : Bytes) × (bprintu64 200 4294967286 10 zeros ≡ some (n, m'))
        × (n ≤ 10)
        × (m' 211 ≡ 0))
    × ((n : ℕ) × (m' : Bytes) × (bprintu64 200 4294967286 16 zeros ≡ some (n, m'))
        × (n ≤ 8)
        × (m' 211 ≡ 0))
print_integers-bounds_example =
    print_integers-bounds 200 4294967286 211 zeros (omega arith) (inr (omega arith))

bprintptr-overflow_example :
    (n : ℕ) × (m' : Bytes) × (bprintptr 200 0xffff888000001000 zeros ≡ some (n, m'))
    × (printk_buf_size < n)
bprintptr-overflow_example =
    bprintptr-overflow 200 0xffff888000001000 zeros (omega arith) (omega arith)

vprintk_color-IsReady_example :
    (s' : Cons) × (vprintk_color 9 screen 200 format
        (4294967286 ∷ [])
        fb_color_white
        fb_color_black
        console
      ≡ some s')
    × IsReady screen s'
vprintk_color-IsReady_example =
    vprintk_color-IsReady 9 screen 200 format (4294967286 ∷ []) fb_color_white fb_color_black
      console (omega arith, inl (omega arith)) format-IsFormat ready
