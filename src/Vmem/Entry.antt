-- ===== src/Vmem/Entry.antt =====
-- The bits of the page table entries of mm/paging.h.
use heaven_os.Prelude.{
  ℕ, zero, suc, ◌+◌, ◌-◌, ◌*◌, ◌/◌, ◌%◌, ◌^◌, ◌<◌, ◌≡◌, bit_and, bit_or, Bool, true, false, ◌==◌,
  ◌||◌, inl, inr, Bool-cases, ℕ_discrete, refl, ◌∙◌, ap, arith,
}
use native.Mathlib.Nat.{pow-suc, le_refl, one-le-pow}
use heaven_os.Prelude.Bits.{
  bit_or_digit, bit_and_digit, bit_or-zero, bit_and-one, bit_and-mask, bit_and-high,
}
use heaven_os.Vmem.{vmem_convert_flags}
use heaven_os.Vmem.Tables.{pte_addr, is_set, pte_present}

twice_pow : (a n : ℕ) → a * 2 ^ suc n ≡ a * 2 ^ n * 2
twice_pow a n = ap (λ (t : ℕ). a * t) (pow-suc 2 n) ∙ grind arith

-- `|` works on the low digits and on the others apart.
bit_or-low :
    (n a f g : ℕ)
    → f < 2 ^ n
    → g < 2 ^ n
    → (bit_or (a * 2 ^ n + f) g ≡ a * 2 ^ n + bit_or f g) × (bit_or f g < 2 ^ n)
bit_or-low zero a f g hf hg =
    let f0 : f ≡ 0 = omega arith in
    let g0 : g ≡ 0 = omega arith in
    let plain : bit_or (a * 2 ^ 0 + 0) 0 ≡ a * 2 ^ 0 + 0 = bit_or-zero _ _ (le_refl _) in
    rw (f0, g0) (plain, omega arith)
bit_or-low (suc n) a f g hf hg =
    let (same, small) =
      bit_or-low n a (f / 2) (g / 2) (omega (arith, pow-suc 2 n)) (omega (arith, pow-suc 2 n)) in
    let twice = twice_pow a n in
    let half : (a * 2 ^ suc n + f) / 2 ≡ a * 2 ^ n + f / 2 = omega (arith, twice) in
    let low : (a * 2 ^ suc n + f) % 2 ≡ f % 2 = omega (arith, twice) in
    (
      bit_or_digit (a * 2 ^ suc n + f) g
          ∙ rw (half, low, same) (omega (arith, bit_or_digit f g, twice)),
      omega (arith, bit_or_digit f g, small, pow-suc 2 n),
    )

-- `e | g` for bits `g` below the address.
pub bit_or-flags :
    (e g : ℕ)
    → g < 2 ^ 12
    → (bit_or e g ≡ e / 2 ^ 12 * 2 ^ 12 + bit_or (e % 2 ^ 12) g) × (bit_or (e % 2 ^ 12) g < 2 ^ 12)
bit_or-flags e g hg =
    let (same, small) = bit_or-low 12 (e / 2 ^ 12) (e % 2 ^ 12) g (omega arith) hg in
    let parts : e / 2 ^ 12 * 2 ^ 12 + e % 2 ^ 12 ≡ e = omega arith in (rw parts at same, small)

pub pte_addr-eq : (e : ℕ) → pte_addr e ≡ e % 2 ^ 48 - e % 2 ^ 12
unfolding pte_addr
pte_addr-eq e =
    rw (bit_and-mask 48 e)
      (omega (arith, bit_and-high 12 64 (e % 2 ^ 48) (omega arith) (omega arith)))

-- The bits of a number that `&` with a power of two tests.
abbrev halves : ℕ → ℕ → ℕ
halves zero x = x
halves (suc k) x = halves k (x / 2)

bit_and-one_bit : (k x : ℕ) → bit_and x (2 ^ k) ≡ halves k x % 2 * 2 ^ k
bit_and-one_bit zero x = omega (arith, bit_and-one x)
bit_and-one_bit (suc k) x =
    let half : 2 ^ suc k / 2 ≡ 2 ^ k = omega (arith, pow-suc 2 k) in
    let even : 2 ^ suc k % 2 ≡ 0 = omega (arith, pow-suc 2 k) in
    let twice = twice_pow (halves k (x / 2) % 2) k in
    bit_and_digit x (2 ^ suc k) ∙ rw (half, even, bit_and-one_bit k (x / 2)) (omega (arith, twice))

-- An entry has the bit of a present page,
abbrev pub is_present : ℕ → Bool
is_present e = is_set e pte_present

halves-bit_or : (k x y : ℕ) → halves k (bit_or x y) ≡ bit_or (halves k x) (halves k y)
halves-bit_or zero x y = refl
halves-bit_or (suc k) x y =
    let half : bit_or x y / 2 ≡ bit_or (x / 2) (y / 2) = omega (arith, bit_or_digit x y) in
    rw half (halves-bit_or k (x / 2) (y / 2))

is_set-halves : (k x : ℕ) → is_set x (2 ^ k) ≡ (halves k x % 2 == 1)
is_set-halves k x = rw (bit_and-one_bit k x) (elim (ℕ_discrete (halves k x % 2) 0) [
  | yes e ↦ let nought : 0 * 2 ^ k ≡ 0 = omega arith in rw (e, nought) refl
  | no ne ↦
      let e : halves k x % 2 ≡ 1 = omega arith in
      let once : (1 * 2 ^ k == 0) ≡ false = ground (arith, one-le-pow k 2 (omega arith)) in
      rw (e, once) refl
])

-- The tests of one bit see the bits of both sides of `|`.
pub is_set-bit_or :
    (k x y : ℕ) → is_set (bit_or x y) (2 ^ k) ≡ (is_set x (2 ^ k) || is_set y (2 ^ k))
is_set-bit_or k x y =
    rw (is_set-halves k (bit_or x y), is_set-halves k x, is_set-halves k y, halves-bit_or k x y)
      (ground (arith, bit_or_digit (halves k x) (halves k y)))

-- Bits of an entry below the address, without the bits `PTE_PRESENT` and `PTE_PAGE_SIZE`.
pub record IsFlags (g : ℕ) : Type 0 where
  pub low : g < 2 ^ 12
  pub not_present : is_set g 1 ≡ false
  pub not_size : is_set g 128 ≡ false

pub convert-IsFlags : (flags : ℕ) → IsFlags (vmem_convert_flags flags)
unfolding vmem_convert_flags
convert-IsFlags flags = elim (Bool-cases (bit_and flags 1 == 0)) [
  | inl u ↦ elim (Bool-cases (bit_and flags 2 == 0)) [
    | inl w ↦ elim (Bool-cases (bit_and flags 4 == 0)) [
      | inl a ↦ rw (u, w, a) (record { low = omega arith; not_present = refl; not_size = refl })
      | inr a ↦ rw (u, w, a) (record { low = omega arith; not_present = refl; not_size = refl })
    ]
    | inr w ↦ elim (Bool-cases (bit_and flags 4 == 0)) [
      | inl a ↦ rw (u, w, a) (record { low = omega arith; not_present = refl; not_size = refl })
      | inr a ↦ rw (u, w, a) (record { low = omega arith; not_present = refl; not_size = refl })
    ]
  ]
  | inr u ↦ elim (Bool-cases (bit_and flags 2 == 0)) [
    | inl w ↦ elim (Bool-cases (bit_and flags 4 == 0)) [
      | inl a ↦ rw (u, w, a) (record { low = omega arith; not_present = refl; not_size = refl })
      | inr a ↦ rw (u, w, a) (record { low = omega arith; not_present = refl; not_size = refl })
    ]
    | inr w ↦ elim (Bool-cases (bit_and flags 4 == 0)) [
      | inl a ↦ rw (u, w, a) (record { low = omega arith; not_present = refl; not_size = refl })
      | inr a ↦ rw (u, w, a) (record { low = omega arith; not_present = refl; not_size = refl })
    ]
  ]
]

or-false : (b : Bool) → (b || false) ≡ b
or-false true = refl
or-false false = refl

or-true : (b : Bool) → (b || true) ≡ true
or-true true = refl
or-true false = refl

-- More flags leave the address and the two bits of an entry.
pub or-flags :
    (e g : ℕ)
    → IsFlags g
    → (pte_addr (bit_or e g) ≡ pte_addr e)
      × (is_set (bit_or e g) 1 ≡ is_set e 1)
      × (is_set (bit_or e g) 128 ≡ is_set e 128)
or-flags e g flags =
    let (split, small) = bit_or-flags e g flags.low in
    (
      omega (arith, pte_addr-eq (bit_or e g), pte_addr-eq e, split, small),
      is_set-bit_or 0 e g ∙ rw flags.not_present (or-false (is_set e 1)),
      is_set-bit_or 7 e g ∙ rw flags.not_size (or-false (is_set e 128)),
    )

-- An entry made of the address of a frame, the bit `PTE_PRESENT` and flags.
pub frame-flags :
    (p g : ℕ)
    → p < 2 ^ 48
    → p % 2 ^ 12 ≡ 0
    → IsFlags g
    → (pte_addr (bit_or (bit_or p 1) g) ≡ p)
      × (is_set (bit_or (bit_or p 1) g) 1 ≡ true)
      × (is_set (bit_or (bit_or p 1) g) 128 ≡ false)
frame-flags p g lt aligned flags =
    let (addr, present, size) = or-flags (bit_or p 1) g flags in
    let (split, small) = bit_or-flags p 1 (omega arith) in
    let split' : bit_or p 1 ≡ p / 2 ^ 12 * 2 ^ 12 + bit_or 0 1 = rw aligned at split in
    let sum : bit_or p 1 ≡ p + 1 = omega (arith, split') in
    (
      addr ∙ omega (arith, pte_addr-eq (bit_or p 1), sum),
      present ∙ is_set-bit_or 0 p 1 ∙ or-true (is_set p 1),
      size ∙ is_set-bit_or 7 p 1 ∙ or-false (is_set p 128) ∙ is_set-halves 7 p ∙ ground arith,
    )
