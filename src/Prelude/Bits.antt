-- ===== src/Prelude/Bits.antt =====
-- Laws of the bit operations at variables, for every width, from the digit recursion that the
-- native operations stand for.
use Prim.Native.Nat.{differ, digits, bitwise, bit_and-bitwise, bit_or-bitwise, bit_xor-bitwise}
use native.Mathlib.Nat.{
  pow-suc, one-le-pow, le_refl, pow-le-pow_right, div-add-mod, div-div-eq-div-mul, div-one,
}
use heaven_os.Prelude.Tests.{◌==◌, if◌then◌else◌}
use Prim.Native.Nat.{
  ℕ, zero, suc, ◌+◌, ◌-◌, ◌*◌, ◌/◌, ◌%◌, ◌^◌, ◌≤◌, ◌<◌, bit_and, bit_or, bit_xor, min, max,
}
use mathlib.Core.Path.{◌≡◌, refl, ap, ◌∙◌}
use native.Mathlib.Omega.{arith}

-- Fuel beyond the first number changes nothing.
module _ (rest : ℕ → ℕ) (join : ℕ → ℕ → ℕ) where
  digits-enough : (k l x y : ℕ) → x ≤ k → x ≤ l → digits rest join k x y ≡ digits rest join l x y
  digits-enough zero l zero y _ _ = from_nothing l
    where
      from_nothing : (l : ℕ) → rest y ≡ digits rest join l 0 y
      from_nothing zero = refl
      from_nothing (suc l) = refl
  digits-enough zero l (suc x) y hk _ = absurd (omega arith)
  digits-enough (suc k) zero zero y _ _ = refl
  digits-enough (suc k) zero (suc x) y _ hl = absurd (omega arith)
  digits-enough (suc k) (suc l) zero y _ _ = refl
  digits-enough (suc k) (suc l) (suc x) y hk hl =
      ap (λ (t : ℕ). t * 2 + join (suc x % 2) (y % 2))
        (digits-enough k l (suc x / 2) (y / 2) (omega arith) (omega arith))

  lowest :
      (x y : ℕ)
      → bitwise rest join (suc x) y
        ≡ bitwise rest join (suc x / 2) (y / 2) * 2 + join (suc x % 2) (y % 2)
  lowest x y =
      ap (λ (t : ℕ). t * 2 + join (suc x % 2) (y % 2))
        (digits-enough x (suc x / 2) (suc x / 2) (y / 2) (omega arith) (le_refl (suc x / 2)))

differ-parity : (x y : ℕ) → x < 2 → y < 2 → differ x y ≡ (x + y) % 2
differ-parity zero y hx hy = omega arith
differ-parity (suc x) zero hx hy = omega arith
differ-parity (suc zero) (suc zero) hx hy = refl
differ-parity (suc zero) (suc (suc y)) hx hy = absurd (omega arith)
differ-parity (suc (suc x)) (suc y) hx hy = absurd (omega arith)

-- One binary digit of each operation.
pub bit_or_digit : (x y : ℕ) → bit_or x y ≡ bit_or (x / 2) (y / 2) * 2 + max (x % 2) (y % 2)
bit_or_digit zero y = rw bit_or-bitwise (omega (arith, bit_or-bitwise (0 / 2) (y / 2)))
bit_or_digit (suc x) y =
    rw (bit_or-bitwise (suc x) y, bit_or-bitwise (suc x / 2) (y / 2)) (lowest (λ t. t) max x y)

pub bit_and_digit : (x y : ℕ) → bit_and x y ≡ bit_and (x / 2) (y / 2) * 2 + min (x % 2) (y % 2)
bit_and_digit zero y = rw bit_and-bitwise (omega (arith, bit_and-bitwise (0 / 2) (y / 2)))
bit_and_digit (suc x) y =
    rw (bit_and-bitwise (suc x) y, bit_and-bitwise (suc x / 2) (y / 2)) (lowest (λ _. 0) min x y)

xor_parts : (x y : ℕ) → bit_xor x y ≡ bit_xor (x / 2) (y / 2) * 2 + differ (x % 2) (y % 2)
xor_parts zero y = rw bit_xor-bitwise (omega (arith, bit_xor-bitwise (0 / 2) (y / 2)))
xor_parts (suc x) y =
    rw (bit_xor-bitwise (suc x) y, bit_xor-bitwise (suc x / 2) (y / 2)) (lowest (λ t. t) differ x y)

pub bit_xor_digit : (x y : ℕ) → bit_xor x y ≡ bit_xor (x / 2) (y / 2) * 2 + (x % 2 + y % 2) % 2
bit_xor_digit x y =
    xor_parts x y
    ∙ ap (λ (t : ℕ). bit_xor (x / 2) (y / 2) * 2 + t)
        (differ-parity (x % 2) (y % 2) (omega arith) (omega arith))

pub bit_or-zero : (n a : ℕ) → a ≤ n → bit_or a 0 ≡ a
bit_or-zero n zero h = refl
bit_or-zero zero (suc a) h = absurd (omega arith)
bit_or-zero (suc n) (suc a) h =
    omega (arith, bit_or_digit (suc a) 0, bit_or-zero n (suc a / 2) (omega arith))

pub bit_and-zero : (n a : ℕ) → a ≤ n → bit_and a 0 ≡ 0
bit_and-zero n zero h = refl
bit_and-zero zero (suc a) h = absurd (omega arith)
bit_and-zero (suc n) (suc a) h =
    omega (arith, bit_and_digit (suc a) 0, bit_and-zero n (suc a / 2) (omega arith))

bit_xor-zero : (n a : ℕ) → a ≤ n → bit_xor a 0 ≡ a
bit_xor-zero n zero h = refl
bit_xor-zero zero (suc a) h = absurd (omega arith)
bit_xor-zero (suc n) (suc a) h =
    ground (arith, bit_xor_digit (suc a) 0, bit_xor-zero n (suc a / 2) (omega arith))

pub bit_and-one : (a : ℕ) → bit_and a 1 ≡ a % 2
bit_and-one a = omega (arith, bit_and_digit a 1, bit_and-zero (a / 2) (a / 2) (le_refl _))

-- The binary digit `j` of a number.
pub digit : ℕ → ℕ → ℕ
digit v zero = v % 2
digit v (suc j) = digit (v / 2) j

pub div-pow-suc : (v k : ℕ) → v / 2 ^ suc k ≡ v / 2 / 2 ^ k
div-pow-suc v k =
    rw (div-div-eq-div-mul v 2 (2 ^ k)) (ap (λ (t : ℕ). v / t) (omega (arith, pow-suc 2 k)))

-- `(v >> j) & 1` is the digit.
pub bit_and-div-pow : (j v : ℕ) → bit_and (v / 2 ^ j) 1 ≡ digit v j
unfolding digit
bit_and-div-pow zero v = rw (div-one v) (bit_and-one v)
bit_and-div-pow (suc j) v = rw (div-pow-suc v j) (bit_and-div-pow j (v / 2))

pub digit-zero : (j : ℕ) → digit 0 j ≡ 0
unfolding digit
digit-zero zero = refl
digit-zero (suc j) = digit-zero j

pub digit-lt : (j v : ℕ) → digit v j < 2
unfolding digit
digit-lt zero v = omega arith
digit-lt (suc j) v = digit-lt j (v / 2)

half-pow-suc : (k : ℕ) → (2 ^ suc k / 2 ≡ 2 ^ k) × (2 ^ suc k % 2 ≡ 0)
half-pow-suc k = (omega (arith, pow-suc 2 k), omega (arith, pow-suc 2 k))

module _ (v : ℕ) where
  bit_or-one_half : bit_or v 1 / 2 ≡ v / 2
  bit_or-one_half = omega (arith, bit_or_digit v 1, bit_or-zero (v / 2) (v / 2) (le_refl _))

  bit_xor-one_half : bit_xor v 1 / 2 ≡ v / 2
  bit_xor-one_half = omega (arith, bit_xor_digit v 1, bit_xor-zero (v / 2) (v / 2) (le_refl _))

  module _ (k : ℕ) where
    bit_or-half : bit_or v (2 ^ suc k) / 2 ≡ bit_or (v / 2) (2 ^ k)
    bit_or-half =
        rw (bit_or_digit v (2 ^ suc k), (half-pow-suc k).0, (half-pow-suc k).1) (omega arith)

    bit_xor-half : bit_xor v (2 ^ suc k) / 2 ≡ bit_xor (v / 2) (2 ^ k)
    bit_xor-half =
        rw (bit_xor_digit v (2 ^ suc k), (half-pow-suc k).0, (half-pow-suc k).1) (omega arith)

-- `v | (1 << k)` sets the digit `k` and keeps the others.
pub digit-bit_or : (k j v : ℕ) → digit (bit_or v (2 ^ k)) j ≡ (if k == j then 1 else digit v j)
unfolding digit
digit-bit_or zero zero v = omega (arith, bit_or_digit v 1)
digit-bit_or zero (suc j) v = rw (bit_or-one_half v) (ground arith)
digit-bit_or (suc k) zero v = ground (arith, bit_or_digit v (2 ^ suc k), half-pow-suc k)
digit-bit_or (suc k) (suc j) v = rw (bit_or-half v k) (ground (arith, digit-bit_or k j (v / 2)))

-- `v ^ (1 << k)` turns the digit `k` over and keeps the others.
pub digit-bit_xor :
    (k j v : ℕ) → digit (bit_xor v (2 ^ k)) j ≡ (if k == j then 1 - digit v j else digit v j)
unfolding digit
digit-bit_xor zero zero v = omega (arith, bit_xor_digit v 1)
digit-bit_xor zero (suc j) v = rw (bit_xor-one_half v) (ground arith)
digit-bit_xor (suc k) zero v = ground (arith, bit_xor_digit v (2 ^ suc k), half-pow-suc k)
digit-bit_xor (suc k) (suc j) v = rw (bit_xor-half v k) (ground (arith, digit-bit_xor k j (v / 2)))

pub bit_and-ones : (w a : ℕ) → a < 2 ^ w → bit_and a (2 ^ w - 1) ≡ a
bit_and-ones zero a h = rw (bit_and-zero a a (le_refl a)) (omega arith)
bit_and-ones (suc w) a h =
    let halves : (2 ^ suc w - 1) / 2 ≡ 2 ^ w - 1 = omega (arith, pow-suc 2 w, one-le-pow w 2) in
    let odd : (2 ^ suc w - 1) % 2 ≡ 1 = omega (arith, pow-suc 2 w, one-le-pow w 2) in
    rw (bit_and_digit a (2 ^ suc w - 1), halves, odd)
      (omega (arith, pow-suc 2 w, bit_and-ones w (a / 2)))

-- All `w` low digits but the digit `k`: what `~(1 << k)` is at width `w`.
abbrev pub all_but : ℕ → ℕ → ℕ
all_but w k = 2 ^ w - 1 - 2 ^ k

all_but-half :
    (w k : ℕ)
    → k < w
    → (all_but (suc w) (suc k) / 2 ≡ all_but w k) × (all_but (suc w) (suc k) % 2 ≡ 1)
all_but-half w k h =
    omega
      (arith, pow-suc 2 w, pow-suc 2 k, pow-le-pow_right {n = 2} (omega arith) h, one-le-pow k 2)

-- `v & ~(1 << k)` clears the digit `k` and keeps the others, for a number of at most `w` digits.
pub digit-bit_and-all_but :
    (w k j v : ℕ)
    → k < w
    → v < 2 ^ w
    → digit (bit_and v (all_but w k)) j ≡ (if k == j then 0 else digit v j)
unfolding digit
digit-bit_and-all_but zero k j v hk hv = absurd (omega arith)
digit-bit_and-all_but (suc w) zero zero v hk hv =
    ground (arith, bit_and_digit v (all_but (suc w) 0), pow-suc 2 w)
digit-bit_and-all_but (suc w) zero (suc j) v hk hv = rw e (ground arith)
  where
    e : bit_and v (all_but (suc w) 0) / 2 ≡ v / 2
    e =
        let m : all_but (suc w) 0 / 2 ≡ 2 ^ w - 1 = omega (arith, pow-suc 2 w) in
        rw
          (
            bit_and_digit v (all_but (suc w) 0),
            m,
            bit_and-ones w (v / 2) (omega (arith, pow-suc 2 w)),
          )
          (omega (arith, pow-suc 2 w))
digit-bit_and-all_but (suc w) (suc k) zero v hk hv =
    ground (arith, bit_and_digit v (all_but (suc w) (suc k)), all_but-half w k)
digit-bit_and-all_but (suc w) (suc k) (suc j) v hk hv =
    rw e (ground (arith, digit-bit_and-all_but w k j (v / 2), pow-suc 2 w))
  where
    e : bit_and v (all_but (suc w) (suc k)) / 2 ≡ bit_and (v / 2) (all_but w k)
    e =
        let m = all_but-half w k (omega arith) in
        rw (bit_and_digit v (all_but (suc w) (suc k)), m.0, m.1) (omega arith)

pub mod-pow-suc : (a k : ℕ) → a % 2 ^ suc k ≡ a / 2 % 2 ^ k * 2 + a % 2
mod-pow-suc a k = omega (
  arith,
  div-add-mod a (2 ^ suc k),
  div-add-mod (a / 2) (2 ^ k),
  ap (λ (t : ℕ). 2 ^ suc k * t) (div-pow-suc a k),
  ap (λ (t : ℕ). t * (a / 2 / 2 ^ k)) (pow-suc 2 k),
)

-- `a & ((1 << w) - 1)`
pub bit_and-mask : (w a : ℕ) → bit_and a (2 ^ w - 1) ≡ a % 2 ^ w
bit_and-mask zero a = omega (arith, bit_and-zero a a (le_refl a))
bit_and-mask (suc w) a =
    let half : (2 ^ suc w - 1) / 2 ≡ 2 ^ w - 1 = omega (arith, pow-suc 2 w) in
    let odd : (2 ^ suc w - 1) % 2 ≡ 1 = omega (arith, pow-suc 2 w, one-le-pow w 2 (omega arith)) in
    bit_and_digit a (2 ^ suc w - 1)
    ∙ rw (half, odd, bit_and-mask w (a / 2)) (omega (arith, mod-pow-suc a w))

-- On a multiple of `2 ^ k`, `^ (1 << k)` moves to the other half of the pair.
pub bit_xor-pow_aligned :
    (k a : ℕ)
    → a % 2 ^ k ≡ 0
    → bit_xor a (2 ^ k) ≡ (if a % 2 ^ suc k == 0 then a + 2 ^ k else a - 2 ^ k)
bit_xor-pow_aligned zero a h =
    ground (arith, bit_xor_digit a 1, bit_xor-zero (a / 2) (a / 2) (le_refl _))
bit_xor-pow_aligned (suc k) a h =
    rw (bit_xor_digit a (2 ^ suc k), (half-pow-suc k).0, (half-pow-suc k).1)
      (ground
        (arith, bit_xor-pow_aligned k (a / 2), mod-pow-suc a k, mod-pow-suc a (suc k), pow-suc 2 k))

-- The low digits of a number are those of its remainder.
pub digit-mod : (w j v : ℕ) → j < w → digit (v % 2 ^ w) j ≡ digit v j
unfolding digit
digit-mod zero j v h = absurd (omega arith)
digit-mod (suc w) zero v h = omega (arith, mod-pow-suc v w)
digit-mod (suc w) (suc j) v h =
    let e : v % 2 ^ suc w / 2 ≡ v / 2 % 2 ^ w = omega (arith, mod-pow-suc v w) in
    rw e (digit-mod w j (v / 2) (omega arith))

-- `a & ~((1 << n) - 1)` at width `w` rounds down to a multiple of `2 ^ n`.
pub bit_and-high : (n w a : ℕ) → n ≤ w → a < 2 ^ w → bit_and a (2 ^ w - 2 ^ n) ≡ a - a % 2 ^ n
bit_and-high zero w a hn ha = rw (bit_and-ones w a ha) (omega arith)
bit_and-high (suc n) zero a hn ha = absurd (omega arith)
bit_and-high (suc n) (suc w) a hn ha =
    let m : (2 ^ suc w - 2 ^ suc n) / 2 ≡ 2 ^ w - 2 ^ n = omega (arith, pow-suc 2 w, pow-suc 2 n) in
    let even : (2 ^ suc w - 2 ^ suc n) % 2 ≡ 0 = omega (arith, pow-suc 2 w, pow-suc 2 n) in
    rw (bit_and_digit a (2 ^ suc w - 2 ^ suc n), m, even)
      (omega (arith, bit_and-high n w (a / 2), mod-pow-suc a n, pow-suc 2 w))
