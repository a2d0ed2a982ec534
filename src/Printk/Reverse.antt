-- ===== src/Printk/Reverse.antt =====
-- The exchange of bytes by exclusive or in `bprintu64` of kernel/printk.c, and the loop around it.
use heaven_os.Prelude.{
  ℕ, zero, suc, ◌+◌, ◌-◌, ◌*◌, ◌/◌, ◌%◌, ◌≤◌, ◌<◌, ◌≡◌, ◌≢◌, bit_xor, ltb, ◌==◌, if◌then◌else◌,
  refl, ◌∙◌, ap, arith, ◌⊎◌,
}
use heaven_os.Prelude.Bits.{bit_xor_digit}
use heaven_os.Memory.{Bytes}
use heaven_os.Printk.{xor_swap, reverse_loop}

xor_cancel_bound : (n x y : ℕ) → x ≤ n → y ≤ n → bit_xor y (bit_xor x y) ≡ x
xor_cancel_bound zero x y hx hy =
    let x0 : x ≡ 0 = omega arith in let y0 : y ≡ 0 = omega arith in rw (x0, y0) refl
xor_cancel_bound (suc n) x y hx hy =
    let half = xor_cancel_bound n (x / 2) (y / 2) (omega arith) (omega arith) in
    let q = bit_xor (x / 2) (y / 2) in
    let e = bit_xor_digit x y in
    let high : bit_xor x y / 2 ≡ q = omega (arith, e) in
    let low : bit_xor x y % 2 ≡ (x % 2 + y % 2) % 2 = omega (arith, e) in
    bit_xor_digit y (bit_xor x y) ∙ rw (high, low, half) (omega arith)

xor_cancel : (x y : ℕ) → bit_xor y (bit_xor x y) ≡ x
xor_cancel x y = xor_cancel_bound (x + y) x y (omega arith) (omega arith)

xor_comm_bound : (n x y : ℕ) → x ≤ n → y ≤ n → bit_xor x y ≡ bit_xor y x
xor_comm_bound zero x y hx hy =
    let x0 : x ≡ 0 = omega arith in let y0 : y ≡ 0 = omega arith in rw (x0, y0) refl
xor_comm_bound (suc n) x y hx hy = omega (
  arith,
  bit_xor_digit x y,
  bit_xor_digit y x,
  xor_comm_bound n (x / 2) (y / 2) (omega arith) (omega arith),
)

xor_comm : (x y : ℕ) → bit_xor x y ≡ bit_xor y x
xor_comm x y = xor_comm_bound (x + y) x y (omega arith) (omega arith)

xor_cancel_left : (x y : ℕ) → bit_xor (bit_xor x y) x ≡ y
xor_cancel_left x y = xor_comm (bit_xor x y) x ∙ ap (bit_xor x) (xor_comm x y) ∙ xor_cancel y x

-- Two different bytes change places.
pub xor_swap-eq :
    (p q : ℕ) (m : Bytes) (a : ℕ)
    → p ≢ q
    → xor_swap p q m a ≡ (if a == p then m q else if a == q then m p else m a)
unfolding xor_swap
xor_swap-eq p q m a ne = ground (arith, xor_cancel (m p) (m q), xor_cancel_left (m p) (m q))

-- Byte `a` of the buffer after `n` rounds from `i` on.
abbrev mirrored : ℕ → ℕ → ℕ → ℕ → Bytes → ℕ → ℕ
mirrored n i bytes buf m a =
    if ltb a (buf + i)
    then m a
    else if ltb a (buf + i + n)
    then m (buf + (bytes - 1 - (a - buf)))
    else if ltb a (buf + (bytes - i - n))
    then m a
    else if ltb a (buf + (bytes - i))
    then m (buf + (bytes - 1 - (a - buf)))
    else m a

reverse_loop-mirrored :
    (n i bytes buf : ℕ) (m : Bytes) (a : ℕ)
    → 2 * (i + n) ≤ bytes
    → reverse_loop n i bytes buf m a ≡ mirrored n i bytes buf m a
unfolding reverse_loop
reverse_loop-mirrored zero i bytes buf m a h = ground arith
reverse_loop-mirrored (suc n) i bytes buf m a h =
    let p = buf + i in
    let q = buf + (bytes - i - 1) in
    let swap : (b : ℕ) → xor_swap p q m b ≡ (if b == p then m q else if b == q then m p else m b) =
      λ b. xor_swap-eq p q m b (ground arith) in
    reverse_loop-mirrored n (i + 1) bytes buf (xor_swap p q m) a (omega arith)
    ∙ ground (arith, swap a, swap (buf + (bytes - 1 - (a - buf))))

-- The second loop of `bprintu64` reverses the digits,
pub reverse-inside :
    (bytes buf i : ℕ) (m : Bytes)
    → i < bytes
    → reverse_loop (bytes / 2) 0 bytes buf m (buf + i) ≡ m (buf + (bytes - 1 - i))
reverse-inside bytes buf i m h =
    reverse_loop-mirrored (bytes / 2) 0 bytes buf m (buf + i) (omega arith) ∙ ground arith

-- and changes nothing else.
pub reverse-outside :
    (bytes buf : ℕ) (m : Bytes) (a : ℕ)
    → (a < buf) ⊎ (buf + bytes ≤ a)
    → reverse_loop (bytes / 2) 0 bytes buf m a ≡ m a
reverse-outside bytes buf m a h =
    reverse_loop-mirrored (bytes / 2) 0 bytes buf m a (omega arith) ∙ ground arith
