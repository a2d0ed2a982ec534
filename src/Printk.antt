-- ===== src/Printk.antt =====
-- kernel/printk.c: formatted printing on the console. A string constant is the list of its bytes, an
-- argument of a variadic function a register of 64 bits, and the buffer of `vprintk_color` stands at
-- an address of its own. `none` is a panic, or a read that C leaves undefined.
pub mod Digits
pub mod Reverse
pub mod Number
pub mod Bounds
pub mod Format
mod Tests
use heaven_os.Prelude.{
  ℕ, zero, suc, ◌+◌, ◌-◌, ◌*◌, ◌/◌, ◌%◌, ◌^◌, bit_xor, Bool, true, false, ltb, leb, ◌==◌,
  if◌then◌else◌, update, Option, none, some, List, [], ◌∷◌, get_elem?,
}
use heaven_os.Memory.{Bytes}
use heaven_os.FrameAlloc.{kassert, ◌>>=◌, ◌>>◌}
use heaven_os.Fb.{Fb, fb_color_black, fb_color_white}
use heaven_os.Console.{Cons, moved, cons_putchar_color, cons_write_color, cons_print_color}

abbrev pub printk_buf_size : ℕ
printk_buf_size = 11

-- '0' to '9' and 'a' to 'f'
abbrev pub digits : List ℕ
digits = 48 ∷ 49 ∷ 50 ∷ 51 ∷ 52 ∷ 53 ∷ 54 ∷ 55 ∷ 56 ∷ 57 ∷ 97 ∷ 98 ∷ 99 ∷ 100 ∷ 101 ∷ 102 ∷ []

-- "no error", "not implemented" (1), "out of memory" (2) and "invalid value" (3)
abbrev pub errcode_str : List (List ℕ)
errcode_str =
    (110 ∷ 111 ∷ 32 ∷ 101 ∷ 114 ∷ 114 ∷ 111 ∷ 114 ∷ [])
    ∷ (110 ∷ 111 ∷ 116 ∷ 32 ∷ 105 ∷ 109 ∷ 112 ∷ 108 ∷ 101 ∷ 109 ∷ 101 ∷ 110 ∷ 116 ∷ 101 ∷ 100 ∷ [])
    ∷ (111 ∷ 117 ∷ 116 ∷ 32 ∷ 111 ∷ 102 ∷ 32 ∷ 109 ∷ 101 ∷ 109 ∷ 111 ∷ 114 ∷ 121 ∷ [])
    ∷ (105 ∷ 110 ∷ 118 ∷ 97 ∷ 108 ∷ 105 ∷ 100 ∷ 32 ∷ 118 ∷ 97 ∷ 108 ∷ 117 ∷ 101 ∷ [])
    ∷ []

-- The first loop of `bprintu64` on fuel: the digits from the last one on.
pub put_digits : ℕ → ℕ → ℕ → ℕ → ℕ → Bytes → Option (ℕ × Bytes)
put_digits zero buf bytes a base m = if a == 0 then some (bytes, m) else none
put_digits (suc fuel) buf bytes a base m =
    let rest =
      λ (c : ℕ). put_digits fuel buf (bytes + 1) (a / base) base (update m (buf + bytes) c) in
    if a == 0 then some (bytes, m) else (get_elem? digits (a % base) >>= rest)

-- Three times `^=` between two bytes.
pub xor_swap : ℕ → ℕ → Bytes → Bytes
xor_swap p q m =
    let m1 = update m p (bit_xor (m p) (m q)) in
    let m2 = update m1 q (bit_xor (m1 q) (m1 p)) in update m2 p (bit_xor (m2 p) (m2 q))

-- `n` rounds of the second loop of `bprintu64`, from index `i` on.
pub reverse_loop : ℕ → ℕ → ℕ → ℕ → Bytes → Bytes
reverse_loop zero i bytes buf m = m
reverse_loop (suc n) i bytes buf m =
    reverse_loop n (i + 1) bytes buf (xor_swap (buf + i) (buf + (bytes - i - 1)) m)

-- The rounds of a 64-bit number, of a base of at least two.
abbrev pub digit_fuel : ℕ
digit_fuel = 64

pub bprintu64 : ℕ → ℕ → ℕ → Bytes → Option (ℕ × Bytes)
bprintu64 buf a base m = if a == 0 then some (1, update m buf 48) else (do
  (bytes, m') ← put_digits digit_fuel buf 0 a base m
  some (bytes, reverse_loop (bytes / 2) 0 bytes buf m'))

-- `a` is the two's complement of an `int64_t`.
pub bprints64 : ℕ → ℕ → ℕ → Bytes → Option (ℕ × Bytes)
bprints64 buf a base m =
    if leb (2 ^ 63) a
    then (do
      (bytes, m') ← bprintu64 (buf + 1) ((2 ^ 64 - a) % 2 ^ 64) base (update m buf 45)
      some (1 + bytes, m'))
    else bprintu64 buf a base m

-- The loop of `bprintstr`.
abbrev put_chars : ℕ → ℕ → List ℕ → Bytes → ℕ × Bytes
put_chars buf length [] m = (length, m)
put_chars buf length (c ∷ cur) m = put_chars buf (length + 1) cur (update m (buf + length) c)

pub bprintstr : ℕ → List ℕ → Bytes → ℕ × Bytes
bprintstr buf str m = put_chars buf 0 str m

pub bprintptr : ℕ → ℕ → Bytes → Option (ℕ × Bytes)
unfolding bprintstr
bprintptr buf ptr m =
    if ptr == 0 then some (bprintstr buf (40 ∷ 110 ∷ 105 ∷ 108 ∷ 41 ∷ []) m) else (do
      let (bytes, m') = bprintstr buf (48 ∷ 120 ∷ []) m
      (count, m'') ← bprintu64 (buf + bytes) ptr 16 m'
      some (bytes + count, m''))

-- The variables of `vprintk_color`, with the console and the arguments that are left. A `size` that
-- was not set yet is `none`.
pub record Printer : Type 0 where
  pub cons : Cons
  pub idle : Bool
  pub size : Option ℕ
  pub args : List ℕ

-- `va_arg`; `none` when no argument is left.
abbrev pub va_arg : List ℕ → Option (ℕ × List ℕ)
va_arg [] = none
va_arg (v ∷ args) = some (v, args)

-- The conversion of an `int32_t` to an `int64_t`.
abbrev pub sign_extend : ℕ → ℕ
sign_extend v = if ltb v (2 ^ 31) then v else v + (2 ^ 64 - 2 ^ 32)

-- `cons_print_color` of a string constant.
abbrev pub print_constant : Fb → ℕ → ℕ → List ℕ → Cons → Option Cons
print_constant fb fg_color bg_color [] s = some s
print_constant fb fg_color bg_color (c ∷ str) s = do
  s' ← cons_putchar_color fb c fg_color bg_color s
  print_constant fb fg_color bg_color str s'

abbrev over : Bytes → Cons → Cons
over m s = moved s.row s.col m s

-- A directive that fills the buffer from an argument.
abbrev fill_buf : (ℕ → Bytes → Option (ℕ × Bytes)) → Printer → Option Printer
fill_buf print p = do
  (v, args) ← va_arg p.args
  (size, m) ← print v p.cons.mem
  some (record { cons = over m p.cons; idle = p.idle; size = some size; args = args })

-- The switch on the character behind a `%`. Of `-s32value` as an index, any value but 0 to 3 is out of
-- the table.
pub format_directive : ℕ → Fb → ℕ → ℕ → ℕ → ℕ → Printer → Option Printer
format_directive fuel fb buf fg_color bg_color c p =
    if c == 117
    then fill_buf (λ v. bprintu64 buf (v % 2 ^ 32) 10) p
    else if c == 120
    then fill_buf (λ v. bprintu64 buf (v % 2 ^ 32) 16) p
    else if c == 100
    then fill_buf (λ v. bprints64 buf (sign_extend (v % 2 ^ 32)) 10) p
    else if c == 112
    then fill_buf (λ v. bprintptr buf v) p
    else if c == 115
    then (do
      (str, args) ← va_arg p.args
      cons ← cons_print_color fuel fb str fg_color bg_color p.cons
      some (record { cons = cons; idle = p.idle; size = some 0; args = args }))
    else if c == 105
    then (do
      (v, args) ← va_arg p.args
      str ← get_elem? errcode_str ((2 ^ 32 - v % 2 ^ 32) % 2 ^ 32)
      cons ← print_constant fb fg_color bg_color str p.cons
      some (record { cons = cons; idle = p.idle; size = p.size; args = args }))
    else some (record { cons = p.cons; idle = p.idle; size = some 0; args = p.args })

-- A character of the format.
pub format_char : ℕ → Fb → ℕ → ℕ → ℕ → ℕ → Printer → Option Printer
format_char fuel fb buf fg_color bg_color c p =
    if p.idle
    then (if c == 37
        then some (record { cons = p.cons; idle = false; size = p.size; args = p.args })
        else (do
          cons ← print_constant fb fg_color bg_color (c ∷ []) p.cons
          some (record { cons = cons; idle = p.idle; size = p.size; args = p.args })))
    else (do
      p' ← format_directive fuel fb buf fg_color bg_color c p
      size ← p'.size
      cons ←
          if size == 0 then some p'.cons else cons_write_color fb buf size fg_color bg_color p'.cons
      some (record { cons = cons; idle = true; size = some size; args = p'.args }))

-- The loop of `vprintk_color` over the format.
pub format_loop : ℕ → Fb → ℕ → ℕ → ℕ → List ℕ → Printer → Option Printer
format_loop fuel fb buf fg_color bg_color [] p = some p
format_loop fuel fb buf fg_color bg_color (c ∷ fmt) p = do
  p' ← format_char fuel fb buf fg_color bg_color c p
  format_loop fuel fb buf fg_color bg_color fmt p'

-- `fuel` bounds the length of the string of a `%s`.
pub vprintk_color : ℕ → Fb → ℕ → List ℕ → List ℕ → ℕ → ℕ → Cons → Option Cons
vprintk_color fuel fb buf fmt args fg_color bg_color s = do
  kassert s.initialized
  p ←
      format_loop fuel fb buf fg_color bg_color fmt
        (record { cons = s; idle = true; size = none; args = args })
  some p.cons

abbrev pub vprintk : ℕ → Fb → ℕ → List ℕ → List ℕ → Cons → Option Cons
vprintk fuel fb buf fmt args s = do
  kassert s.initialized
  vprintk_color fuel fb buf fmt args fb_color_white fb_color_black s

abbrev pub printk_color : ℕ → Fb → ℕ → ℕ → ℕ → List ℕ → List ℕ → Cons → Option Cons
printk_color fuel fb buf fg_color bg_color fmt args s = do
  kassert s.initialized
  vprintk_color fuel fb buf fmt args fg_color bg_color s

abbrev pub printk : ℕ → Fb → ℕ → List ℕ → List ℕ → Cons → Option Cons
printk fuel fb buf fmt args s = do kassert s.initialized; vprintk fuel fb buf fmt args s
