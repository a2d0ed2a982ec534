-- ===== src/FrameAlloc/Zones/Order.antt =====
-- `pages2order` of mm/frame_alloc.c finds the least order.
use heaven_os.Prelude.{
  ℕ, zero, suc, ◌+◌, ◌^◌, ◌≤◌, ◌<◌, ◌≡◌, inl, inr, refl, ap, arith, true, ltb, leb, Bool-cases,
  dec_lt, some,
}
use heaven_os.FrameAlloc.{max_order}
use heaven_os.FrameAlloc.Zones.{order_from, pages2order}

-- The order is enough for the pages, and no lower one is.
abbrev pub Least : ℕ → ℕ → Type 0
Least pages k = (k ≤ max_order) × (pages ≤ 2 ^ k) × ((j : ℕ) → j < k → 2 ^ j < pages)

order_from-Least :
    (left order pages : ℕ)
    → left + order ≡ suc max_order
    → pages ≤ 2 ^ max_order
    → ((j : ℕ) → j < order → 2 ^ j < pages)
    → order ≤ max_order
    → (k : ℕ) × (order_from left order pages ≡ some k) × Least pages k
unfolding order_from
order_from-Least zero order pages e fits below low = absurd (omega arith)
order_from-Least (suc left) order pages e fits below low =
    elim (Bool-cases (ltb (2 ^ order) pages)) [
      | inl more ↦
          let over : 2 ^ order < pages = ground arith in
          let lower : order < max_order = elim (dec_lt order max_order) [
            | yes p ↦ p
            | no p ↦
                let top : order ≡ max_order = omega arith in
                absurd (omega (arith, ap (λ (n : ℕ). 2 ^ n) top))
          ] in
          let h =
            order_from-Least left (order + 1) pages (omega arith) fits
              (λ j lt. elim (dec_lt j order) [
                | yes p ↦ below j p
                | no p ↦ let same : j ≡ order = omega arith in rw same over
              ])
              (omega arith) in
          (h.0, rw more h.1, h.2)
      | inr enough ↦ (order, rw enough refl, (low, ground arith, below))
    ]

-- `pages2order` of at most 2 ^ 10 pages ends and returns the least order that is enough.
pub pages2order-Least :
    (pages : ℕ) → pages ≤ 2 ^ max_order → (k : ℕ) × (pages2order pages ≡ some k) × Least pages k
unfolding pages2order
pages2order-Least pages fits =
    let passed : leb pages (2 ^ max_order) ≡ true = ground arith in
    let h =
      order_from-Least (max_order + 1) 0 pages refl fits (λ j lt. absurd (omega arith))
        (omega arith) in
    (h.0, rw passed h.1, h.2)
