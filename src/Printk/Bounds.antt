-- ===== src/Printk/Bounds.antt =====
-- What the directives of kernel/printk.c write into the buffer of 11 bytes.
use heaven_os.Prelude.{
  ℕ, ◌+◌, ◌-◌, ◌%◌, ◌^◌, ◌≤◌, ◌<◌, ◌≡◌, ◌⊎◌, leb, ◌==◌, update, refl, ◌∙◌, arith, false, inl, inr,
  Bool-cases, Option, some, dec_le,
}
use native.Mathlib.Nat.{pow-le-pow_right}
use heaven_os.Memory.{Bytes}
use heaven_os.Printk.{bprintu64, bprints64, bprintptr, sign_extend, printk_buf_size}
use heaven_os.Printk.Number.{bprintu64-IsPrinted}

-- A call fills the buffer with ASCII characters, and writes no byte outside it.
pub record FitsBuf (buf n : ℕ) (m m' : Bytes) : Type 0 where
  pub few : n ≤ printk_buf_size
  pub ascii : (i : ℕ) → i < n → m' (buf + i) < 128
  pub outside : (b : ℕ) → (b < buf) ⊎ (buf + printk_buf_size ≤ b) → m' b ≡ m b

abbrev pub Fills : ℕ → Bytes → Option (ℕ × Bytes) → Type 0
Fills buf m o = (n : ℕ) × (m' : Bytes) × (o ≡ some (n, m')) × FitsBuf buf n m m'

pub bprintu64-Fills :
    (k buf a base : ℕ) (m : Bytes)
    → 2 ≤ base
    → base ≤ 16
    → 0 < k
    → k ≤ 11
    → a < base ^ k
    → Fills buf m (bprintu64 buf a base m)
bprintu64-Fills k buf a base m two sixteen some_digit enough lt =
    let (n, m', wrote, few, r) =
      bprintu64-IsPrinted k buf a base m two sixteen some_digit (omega arith) lt in
    (
      n,
      m',
      wrote,
      record {
        few = omega arith;
        ascii = r.ascii;
        outside = λ b h. r.outside b (ground (arith, h));
      },
    )

pub bprints64-Fills :
    (buf v : ℕ) (m : Bytes) → v < 2 ^ 32 → Fills buf m (bprints64 buf (sign_extend v) 10 m)
unfolding bprints64
bprints64-Fills buf v m lt = elim (Bool-cases (leb (2 ^ 63) (sign_extend v))) [
  | inl e ↦
      let small : (2 ^ 64 - sign_extend v) % 2 ^ 64 < 10 ^ 10 = ground arith in
      let (n, m', wrote, few, r) =
        bprintu64-IsPrinted 10 (buf + 1) ((2 ^ 64 - sign_extend v) % 2 ^ 64) 10 (update m buf 45)
          (omega arith) (omega arith) (omega arith) (omega arith) small in
      let sign : m' buf ≡ 45 = r.outside buf (inl (omega arith)) ∙ ground arith in
      rw (e, wrote)
        (
          1 + n,
          m',
          refl,
          record {
            few = omega arith;
            ascii = λ i h. elim (Bool-cases (i == 0)) [
              | inl first ↦ let at : buf + i ≡ buf = ground arith in rw (at, sign) (omega arith)
              | inr later ↦
                  let at : buf + i ≡ buf + 1 + (i - 1) = ground arith in
                  rw at (r.ascii (i - 1) (ground (arith, h)))
            ];
            outside = λ b h. r.outside b (ground (arith, h)) ∙ ground (arith, h);
          },
        )
  | inr e ↦ rw e (
      bprintu64-Fills 10 buf (sign_extend v) 10 m (omega arith) (omega arith) (omega arith)
        (omega arith) (ground arith))
]

-- The number of an `int32_t` printed in decimal, and that of a `uint32_t` in decimal or hexadecimal,
-- take at most 11 bytes, and no byte outside the buffer of 11 bytes is changed.
pub print_integers-bounds :
    (buf v b : ℕ) (m : Bytes)
    → v < 2 ^ 32
    → (b < buf) ⊎ (buf + printk_buf_size ≤ b)
    → ((n : ℕ) × (m' : Bytes) × (bprints64 buf (sign_extend v) 10 m ≡ some (n, m'))
        × (n ≤ 11)
        × (m' b ≡ m b))
      × ((n : ℕ) × (m' : Bytes) × (bprintu64 buf v 10 m ≡ some (n, m')) × (n ≤ 10) × (m' b ≡ m b))
      × ((n : ℕ) × (m' : Bytes) × (bprintu64 buf v 16 m ≡ some (n, m')) × (n ≤ 8) × (m' b ≡ m b))
print_integers-bounds buf v b m lt apart =
    let (n, m1, wrote, fits) = bprints64-Fills buf v m lt in
    let (n2, m2, wrote2, few2, r2) =
      bprintu64-IsPrinted 10 buf v 10 m (omega arith) (omega arith) (omega arith) (omega arith)
        (omega arith) in
    let (n3, m3, wrote3, few3, r3) =
      bprintu64-IsPrinted 8 buf v 16 m (omega arith) (omega arith) (omega arith) (omega arith)
        (omega arith) in
    (
      (n, m1, wrote, fits.few, fits.outside b apart),
      (n2, m2, wrote2, few2, r2.outside b (ground arith)),
      (n3, m3, wrote3, few3, r3.outside b (ground arith)),
    )

-- A pointer of at least 2^36, such as any address of the kernel, takes more bytes than the buffer of
-- 11 bytes has, when `bprintptr` prints it.
pub bprintptr-overflow :
    (buf ptr : ℕ) (m : Bytes)
    → 2 ^ 36 ≤ ptr
    → ptr < 2 ^ 64
    → (n : ℕ) × (m' : Bytes) × (bprintptr buf ptr m ≡ some (n, m')) × (printk_buf_size < n)
unfolding bprintptr
bprintptr-overflow buf ptr m big lt =
    let nonzero : (ptr == 0) ≡ false = ground arith in
    let (n, m', wrote, few, r) =
      bprintu64-IsPrinted 16 (buf + (0 + 1 + 1)) ptr 16
        (update (update m (buf + 0) 48) (buf + (0 + 1)) 120) (omega arith) (omega arith)
        (omega arith) (omega arith) (omega arith) in
    let long : 9 < n = elim (dec_le n 9) [
      | yes short ↦
          absurd (omega (arith, r.complete, pow-le-pow_right {n = 16} (omega arith) short))
      | no more ↦ omega arith
    ] in
    rw (nonzero, wrote) (0 + 1 + 1 + n, m', refl, omega arith)
