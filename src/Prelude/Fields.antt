-- ===== src/Prelude/Fields.antt =====
-- Words that are put together from fields of bits by `|`.
use Prim.Native.Nat.{ℕ, zero, suc, ◌+◌, ◌*◌, ◌/◌, ◌%◌, ◌^◌, ◌≤◌, ◌<◌, bit_or}
use native.Mathlib.Nat.{pow-suc, le_refl, one-le-pow}
use mathlib.Core.Path.{◌≡◌, refl, ap, ◌∙◌}
use native.Mathlib.Omega.{arith}
use heaven_os.Prelude.Bits.{bit_or_digit, bit_or-zero}

-- `0 | y`
pub zero-bit_or : (n y : ℕ) → y ≤ n → bit_or 0 y ≡ y
zero-bit_or n zero h = refl
zero-bit_or zero (suc y) h = absurd (omega arith)
zero-bit_or (suc n) (suc y) h =
    omega (arith, bit_or_digit 0 (suc y), zero-bit_or n (suc y / 2) (omega arith))

-- `|` works on two fields apart.
pub bit_or-fields :
    (n a c f g : ℕ)
    → f < 2 ^ n
    → g < 2 ^ n
    → (bit_or (a * 2 ^ n + f) (c * 2 ^ n + g) ≡ bit_or a c * 2 ^ n + bit_or f g)
      × (bit_or f g < 2 ^ n)
bit_or-fields zero a c f g hf hg =
    let f0 : f ≡ 0 = omega arith in
    let g0 : g ≡ 0 = omega arith in
    let a0 : a * 2 ^ 0 + 0 ≡ a = omega arith in
    let c0 : c * 2 ^ 0 + 0 ≡ c = omega arith in
    let s0 : bit_or a c * 2 ^ 0 + bit_or 0 0 ≡ bit_or a c = omega arith in
    rw (f0, g0) (rw (a0, c0, s0) refl, omega arith)
bit_or-fields (suc n) a c f g hf hg =
    let (same, small) =
      bit_or-fields n a c (f / 2) (g / 2) (omega (arith, pow-suc 2 n))
        (omega (arith, pow-suc 2 n)) in
    let twice = λ (x : ℕ). ap (λ (t : ℕ). x * t) (pow-suc 2 n) in
    let ha : (a * 2 ^ suc n + f) / 2 ≡ a * 2 ^ n + f / 2 = grind (arith, twice a) in
    let hc : (c * 2 ^ suc n + g) / 2 ≡ c * 2 ^ n + g / 2 = grind (arith, twice c) in
    let la : (a * 2 ^ suc n + f) % 2 ≡ f % 2 = grind (arith, twice a) in
    let lc : (c * 2 ^ suc n + g) % 2 ≡ g % 2 = grind (arith, twice c) in
    (
      bit_or_digit (a * 2 ^ suc n + f) (c * 2 ^ suc n + g)
          ∙ rw (ha, hc, la, lc, same) (grind (arith, bit_or_digit f g, twice (bit_or a c))),
      omega (arith, bit_or_digit f g, small, pow-suc 2 n),
    )

-- Bits above and below a place do not meet.
pub bit_or-disjoint : (n f c : ℕ) → f < 2 ^ n → bit_or f (c * 2 ^ n) ≡ c * 2 ^ n + f
bit_or-disjoint n f c hf =
    let (same, small) = bit_or-fields n 0 c f 0 hf (omega (arith, one-le-pow n 2)) in
    let left : 0 * 2 ^ n + f ≡ f = omega arith in
    let right : c * 2 ^ n + 0 ≡ c * 2 ^ n = omega arith in
    rw (left, right) at same ∙ rw (zero-bit_or c c (le_refl c), bit_or-zero f f (le_refl f)) refl
