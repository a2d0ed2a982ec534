-- ===== src/FrameAlloc/Geometry.antt =====
-- Blocks, pairs and buddies of mm/frame_alloc.c as arithmetic on aligned addresses.
use native.Mathlib.Nat.{
  pow-suc, one-le-pow, mod-lt, mod-eq_of_lt, mod-eq-sub-mod, mod-mod_of_dvd, div-add-mod, mod_self,
  add-mod_left, add-mod_right, dvd_of_mod-eq-zero, mul-mod_right, zero-mod,
}
use heaven_os.Prelude.{
  ℕ, zero, suc, ◌+◌, ◌-◌, ◌*◌, ◌/◌, ◌%◌, ◌^◌, ◌≤◌, ◌<◌, ◌≡◌, ◌⊎◌, inl, inr, refl, ◌∙◌, sym, arith,
  ◌==◌, if◌then◌else◌, dec_lt,
}
use heaven_os.Prelude.Bits.{bit_xor-pow_aligned}
use heaven_os.FrameAlloc.{block_size, buddy_of, max_order}

-- The size in bytes of a block of an order.
unfoldable pub size : ℕ → ℕ
size k = 2 ^ (12 + k)

pub size-suc : (k : ℕ) → size (suc k) ≡ size k + size k
unfolding size
size-suc k =
    let e : 12 + suc k ≡ suc (12 + k) = omega arith in rw e (omega (arith, pow-suc 2 (12 + k)))

pub size-pos : (k : ℕ) → 0 < size k
unfolding size
size-pos k = one-le-pow (12 + k) 2 (omega arith)

pub block_size-eq-size : (k : ℕ) → block_size k ≡ size k
block_size-eq-size zero = unfold size in refl
block_size-eq-size (suc k) = omega (arith, size-suc k, block_size-eq-size k, pow-suc 2 k)

pub mul_mono : (t q r : ℕ) → q ≤ r → t * q ≤ t * r
mul_mono t q r h = grind arith

-- Multiples of a common number.
module _ (t : ℕ) (pos : 0 < t) where
  pub multiple_next : (a b : ℕ) → a % t ≡ 0 → b % t ≡ 0 → a < b → a + t ≤ b
  multiple_next a b ha hb lt = elim (dec_lt (a / t) (b / t)) [
    | yes p ↦
        omega
          (arith, div-add-mod a t, div-add-mod b t, mul_mono t (a / t + 1) (b / t) (omega arith))
    | no p ↦
        absurd (
          omega (arith, div-add-mod a t, div-add-mod b t, mul_mono t (b / t) (a / t) (omega arith)))
  ]

  -- Below twice `t`, a multiple of `t` is 0 or `t`.
  pub multiple_cases : (a : ℕ) → a % t ≡ 0 → a < t + t → (a ≡ 0) ⊎ (a ≡ t)
  multiple_cases a h lt = elim (dec_lt a t) [
    | yes p ↦ inl (sym (mod-eq_of_lt p) ∙ h)
    | no p ↦ inr (
        omega (
          arith,
          mod-eq-sub-mod {n = a} {m = t} (omega arith),
          mod-eq_of_lt {n = a - t} {m = t} (omega arith),
        ))
  ]

  pub mod-mod_double : (a : ℕ) → a % (t + t) % t ≡ a % t
  mod-mod_double a = mod-mod_of_dvd t a (dvd_of_mod-eq-zero t (add-mod_left t t ∙ mod_self t))

-- A block that is aligned to its order starts its pair or is the second half of it.
module _ (k b : ℕ) (aligned : b % size k ≡ 0) where
  pub pair_cases : (b % size (suc k) ≡ 0) ⊎ (b % size (suc k) ≡ size k)
  pair_cases =
      multiple_cases (size k) (size-pos k) (b % size (suc k))
        (rw (size-suc k) (mod-mod_double (size k) (size-pos k) b ∙ aligned))
        (rw (← size-suc k) (mod-lt b (size-pos (suc k))))

  pub buddy_of-eq : buddy_of k b ≡ (if b % size (suc k) == 0 then b + size k else b - size k)
  buddy_of-eq =
      unfold size in
      let e : 12 + suc k ≡ suc (12 + k) = omega arith in
      rw e (bit_xor-pow_aligned (12 + k) b aligned)

-- The start of the pair that a block of an order belongs to.
pub pair_start : ℕ → ℕ → ℕ
pair_start k b = b - b % size (suc k)

-- Where a block stands in its pair, and where its buddy stands.
abbrev pub Halves : ℕ → ℕ → Type 0
Halves k b =
    ((pair_start k b ≡ b) × (buddy_of k b ≡ b + size k))
    ⊎ ((pair_start k b + size k ≡ b) × (buddy_of k b ≡ pair_start k b))

pub halves : (k b : ℕ) → b % size k ≡ 0 → Halves k b
unfolding pair_start
halves k b h = elim (pair_cases k b h) [
  | inl z ↦ inl (omega arith, rw (buddy_of-eq k b h) (ground (arith, size-pos k)))
  | inr o ↦ inr (omega arith, rw (buddy_of-eq k b h) (ground (arith, size-pos k)))
]

module _ (k b : ℕ) where
  pub pair_start-aligned : pair_start k b % size (suc k) ≡ 0
  unfolding pair_start
  pair_start-aligned =
      let e : b - b % size (suc k) ≡ size (suc k) * (b / size (suc k)) =
        omega (arith, div-add-mod b (size (suc k))) in
      rw e (mul-mod_right (size (suc k)) (b / size (suc k)))

  -- The start of a pair is aligned to the lower order too.
  pub aligned_down : b % size (suc k) ≡ 0 → b % size k ≡ 0
  aligned_down h =
      sym (mod-mod_double (size k) (size-pos k) b) ∙ rw (← size-suc k, h) (zero-mod (size k))

module _ (k b : ℕ) (aligned : b % size k ≡ 0) where
  pub buddy_of-aligned : buddy_of k b % size k ≡ 0
  buddy_of-aligned = elim (halves k b aligned) [
    | inl h ↦ rw (h.1, add-mod_right) aligned
    | inr h ↦ rw h.1 (aligned_down k (pair_start k b) (pair_start-aligned k b))
  ]

pub aligned_to : (d k j a : ℕ) → k + d ≡ j → a % size j ≡ 0 → a % size k ≡ 0
aligned_to zero k j a e h = let k' : k ≡ j = omega arith in rw k' h
aligned_to (suc d) k j a e h = aligned_down k a (aligned_to d (suc k) j a (omega arith) h)

-- The zone `[start, end)` of a `Zone`, whose ends are aligned to the highest order.
pub record IsZone (start end : ℕ) : Type 0 where
  pub start_aligned : start % size max_order ≡ 0
  pub end_aligned : end % size max_order ≡ 0
  pub fits : end < 2 ^ 64

abbrev pub In : ℕ → ℕ → ℕ → Type 0
In start end a = (start ≤ a) × (a < end)

module _ {start end : ℕ} (zone : IsZone start end) (k b : ℕ) (low : k ≤ max_order)
    (inside : In start end b) where
  -- An aligned block that starts in the zone ends in it.
  pub block_in : b % size k ≡ 0 → b + size k ≤ end
  block_in h =
      multiple_next (size k) (size-pos k) b end h
        (aligned_to (max_order - k) k max_order end (omega arith) zone.end_aligned) inside.1

pub pair_start_of_aligned : (k b : ℕ) → b % size (suc k) ≡ 0 → pair_start k b ≡ b
unfolding pair_start
pair_start_of_aligned k b h = omega arith
