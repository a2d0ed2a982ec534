-- ===== src/Vmem/Overlap.antt =====
-- What `vmem_intersects` of mm/vmem.c compares.
use heaven_os.Prelude.{
  ℕ, ◌+◌, ◌*◌, ◌%◌, ◌^◌, ◌≤◌, ◌<◌, ◌≡◌, ◌⊎◌, inl, inr, refl, arith, true, false, leb, ◌||◌,
  Bool-cases, dec_lt, List, [], ◌∷◌,
}
use heaven_os.Memory.{page_size}
use heaven_os.Vmem.{Area, area_end, vmem_intersects}

-- An address that is one of the `n` bytes from `start` on, and one of the pages of the area.
pub record Common (start n : ℕ) (area : Area) : Type 0 where
  pub addr : ℕ
  pub from : start ≤ addr
  pub below : addr < start + n
  pub area_from : area.start ≤ addr
  pub area_below : addr < area.start + area.size * page_size

-- The area has a page, and ends below 2 ^ 64.
abbrev pub IsProper : Area → Type 0
IsProper area = (0 < area.size) × (area.start + area.size * page_size < 2 ^ 64)

abbrev pub Every : (Area → Type 0) → List Area → Type 0
Every P [] = Unit
Every P (area ∷ areas) = P area × Every P areas

abbrev pub Some : (Area → Type 0) → List Area → Type 0
Some P [] = ⊥
Some P (area ∷ areas) = P area ⊎ Some P areas

module _ (start n : ℕ) (some_byte : 0 < n) (fits : start + n < 2 ^ 64) (area : Area)
    (proper : IsProper area) where
  meet :
      (leb ((start + n) % 2 ^ 64) area.start || leb (area_end area) start) ≡ false
      → Common start n area
  meet hit = elim (dec_lt start area.start) [
    | yes lt ↦ record {
      addr = area.start;
      from = omega arith;
      below = ground (arith, hit);
      area_from = omega arith;
      area_below = omega (arith, proper);
    }
    | no ge ↦ record {
      addr = start;
      from = omega arith;
      below = omega arith;
      area_from = omega (arith, ge);
      area_below = ground (arith, hit);
    }
  ]

  miss :
      (leb ((start + n) % 2 ^ 64) area.start || leb (area_end area) start) ≡ true
      → ¬ Common start n area
  miss apart c = ground (arith, apart, c.from, c.below, c.area_from, c.area_below)

-- Where the `n` bytes from the address on, at least one, and every area of the list, with at least one
-- page, end below 2 ^ 64, `vmem_intersects` says whether one of these bytes is a byte of an area. Its
-- size argument so counts bytes, though its callers pass a number of pages.
pub vmem_intersects-Common :
    (areas : List Area) (start n : ℕ)
    → 0 < n
    → start + n < 2 ^ 64
    → Every IsProper areas
    → ((vmem_intersects areas start n ≡ true) × Some (Common start n) areas)
      ⊎ ((vmem_intersects areas start n ≡ false) × (¬ Some (Common start n) areas))
unfolding vmem_intersects
vmem_intersects-Common [] start n some_byte fits proper = inr (refl, λ x. x)
vmem_intersects-Common (area ∷ areas) start n some_byte fits (proper, others) =
    go (Bool-cases (leb ((start + n) % 2 ^ 64) area.start || leb (area_end area) start))
      (vmem_intersects-Common areas start n some_byte fits others)
  where
    Goal : Type 0
    Goal =
        ((vmem_intersects (area ∷ areas) start n ≡ true) × Some (Common start n) (area ∷ areas))
        ⊎ ((vmem_intersects (area ∷ areas) start n ≡ false)
            × (¬ Some (Common start n) (area ∷ areas)))

    go :
        ((leb ((start + n) % 2 ^ 64) area.start || leb (area_end area) start) ≡ true)
          ⊎ ((leb ((start + n) % 2 ^ 64) area.start || leb (area_end area) start) ≡ false)
        → ((vmem_intersects areas start n ≡ true) × Some (Common start n) areas)
          ⊎ ((vmem_intersects areas start n ≡ false) × (¬ Some (Common start n) areas))
        → Goal
    go (inr hit) _ = inl (rw hit refl, inl (meet start n some_byte fits area proper hit))
    go (inl apart) (inl (e, some_area)) = inl (rw apart e, inr some_area)
    go (inl apart) (inr (e, none_area)) = inr (rw apart e, λ s. cases s)
      where
        cases : Some (Common start n) (area ∷ areas) → ⊥
        cases (inl o) = miss start n some_byte fits area proper apart o
        cases (inr o) = none_area o
