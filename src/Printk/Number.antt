-- ===== src/Printk/Number.antt =====
-- The numbers that kernel/printk.c prints are read back from their digits.
use heaven_os.Prelude.{
  ℕ, zero, suc, ◌+◌, ◌-◌, ◌*◌, ◌/◌, ◌^◌, ◌≤◌, ◌<◌, ◌≡◌, ◌⊎◌, ◌==◌, update, refl, ◌∙◌, arith, inl,
  inr, Bool-cases, some,
}
use native.Mathlib.Nat.{one-le-pow}
use heaven_os.Memory.{Bytes}
use heaven_os.Printk.{reverse_loop, bprintu64}
use heaven_os.Printk.Reverse.{reverse-inside, reverse-outside}
use heaven_os.Printk.Digits.{number_value, reversed_value, IsReversed, put_digits-IsReversed}

-- Digits that mirror the digits from `c` on.
number_value-mirror :
    (base n b c : ℕ) (m m' : Bytes)
    → ((i : ℕ) → i < n → m' (b + i) ≡ m (c + (n - 1 - i)))
    → number_value base m' b n ≡ reversed_value base m c n
number_value-mirror base zero b c m m' same = refl
number_value-mirror base (suc n) b c m m' same =
    let first : c + (suc n - 1 - n) ≡ c = omega arith in
    let last : m' (b + n) ≡ m c = rw first at (same n (omega arith)) in
    let others : (i : ℕ) → i < n → m' (b + i) ≡ m (c + 1 + (n - 1 - i)) = λ i h.
      let shift : c + (suc n - 1 - i) ≡ c + 1 + (n - 1 - i) = omega (arith, h) in
      rw shift at (same i (omega (arith, h))) in
    rw (last, number_value-mirror base n b (c + 1) m m' others) (omega arith)

-- `n` digits of `a` from `buf` on, without a zero in front, and the rest of memory as it was.
pub record IsPrinted (a base buf n : ℕ) (m m' : Bytes) : Type 0 where
  pub value : number_value base m' buf n ≡ a
  pub complete : a < base ^ n
  pub minimal : (n ≡ 1) ⊎ (base ^ n ≤ a * base)
  pub ascii : (i : ℕ) → i < n → m' (buf + i) < 128
  pub outside : (b : ℕ) → (b < buf) ⊎ (buf + n ≤ b) → m' b ≡ m b

reversed-IsPrinted :
    (a base buf n : ℕ) (m m' : Bytes)
    → 0 < a
    → IsReversed a base buf n m m'
    → IsPrinted a base buf n m (reverse_loop (n / 2) 0 n buf m')
reversed-IsPrinted a base buf n m m' pos r = record {
  value =
      number_value-mirror base n buf buf m' (reverse_loop (n / 2) 0 n buf m')
        (λ i h. reverse-inside n buf i m' h)
      ∙ r.value;
  complete = r.complete;
  minimal = elim r.minimal [
    | inl e ↦ let none_left : 0 ≡ a = rw e at r.value in absurd (omega arith)
    | inr le ↦ inr le
  ];
  ascii = λ i h. rw (reverse-inside n buf i m' h) (r.ascii (n - 1 - i) (omega (arith, h)));
  outside = λ b h. reverse-outside n buf m' b h ∙ r.outside b h;
}

zero-IsPrinted : (base buf : ℕ) (m : Bytes) → 0 < base → IsPrinted 0 base buf 1 m (update m buf 48)
zero-IsPrinted base buf m pos = record {
  value = ground arith;
  complete = one-le-pow 1 base pos;
  minimal = inl refl;
  ascii = λ i h. ground (arith, h);
  outside = λ b h. ground (arith, h);
}

pub bprintu64-IsPrinted :
    (k buf a base : ℕ) (m : Bytes)
    → 2 ≤ base
    → base ≤ 16
    → 0 < k
    → k ≤ 64
    → a < base ^ k
    → (n : ℕ) × (m' : Bytes) × (bprintu64 buf a base m ≡ some (n, m'))
      × (n ≤ k)
      × IsPrinted a base buf n m m'
unfolding bprintu64
bprintu64-IsPrinted k buf a base m two sixteen some_digit enough lt = elim (Bool-cases (a == 0)) [
  | inl e ↦
      let nought : a ≡ 0 = ground arith in
      rw (e, nought)
        (1, update m buf 48, refl, omega arith, zero-IsPrinted base buf m (omega arith))
  | inr e ↦
      let (n, m', wrote, few, r) =
        put_digits-IsReversed k 64 buf 0 a base m two sixteen enough lt in
      let at : buf + 0 ≡ buf = omega arith in
      let count : 0 + n ≡ n = omega arith in
      (
        n,
        reverse_loop (n / 2) 0 n buf m',
        rw (e, wrote, count) refl,
        few,
        reversed-IsPrinted a base buf n m m' (ground arith) (rw at at r),
      )
]

-- For a base from 2 to 16 and a number below the `k`th power of it, 0 < k ≤ 64, `bprintu64` returns
-- a count of at most `k`, as many bytes of the buffer, read as digits, stand for the number, and no
-- byte outside `k` bytes from the start of the buffer is changed.
pub bprintu64-number_value :
    (k buf a base b : ℕ) (m : Bytes)
    → 2 ≤ base
    → base ≤ 16
    → 0 < k
    → k ≤ 64
    → a < base ^ k
    → (b < buf) ⊎ (buf + k ≤ b)
    → (n : ℕ) × (m' : Bytes) × (bprintu64 buf a base m ≡ some (n, m'))
      × (n ≤ k)
      × (number_value base m' buf n ≡ a)
      × (m' b ≡ m b)
bprintu64-number_value k buf a base b m two sixteen some_digit enough lt apart =
    let (n, m', wrote, few, r) =
      bprintu64-IsPrinted k buf a base m two sixteen some_digit enough lt in
    (n, m', wrote, few, r.value, r.outside b (ground arith))
