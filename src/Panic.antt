-- ===== src/Panic.antt =====
-- kernel/panic.c: the messages of a panic. What is returned is the console where the processor halts;
-- `none` is a failure of the printing itself. The location and the strings of arguments are addresses.
use heaven_os.Prelude.{ℕ, if◌then◌else◌, Option, some, List, [], ◌∷◌}
use heaven_os.FrameAlloc.{◌>>=◌}
use heaven_os.Fb.{Fb, fb_color_white, fb_color_red}
use heaven_os.Console.{Cons}
use heaven_os.Printk.{printk_color, vprintk_color, printk}

-- "Kernel panic at %s: "
abbrev pub panic_format : List ℕ
panic_format =
    75 ∷ 101 ∷ 114 ∷ 110 ∷ 101 ∷ 108 ∷ 32 ∷ 112 ∷ 97 ∷ 110 ∷ 105 ∷ 99 ∷ 32 ∷ 97 ∷ 116 ∷ 32 ∷ 37
    ∷ 115 ∷ 58 ∷ 32 ∷ []

abbrev pub panic : ℕ → Fb → ℕ → ℕ → List ℕ → List ℕ → Cons → Option Cons
panic fuel fb buf location fmt args s =
    if s.initialized
    then (do
      s ← printk_color fuel fb buf fb_color_white fb_color_red panic_format (location ∷ []) s
      s ← vprintk_color fuel fb buf fmt args fb_color_white fb_color_red s
      printk fuel fb buf (10 ∷ []) [] s)
    else some s
