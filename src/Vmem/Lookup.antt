-- ===== src/Vmem/Lookup.antt =====
-- `vmem_is_mapped` of mm/vmem.c finds the first area that holds an address.
use heaven_os.Prelude.{
  ℕ, ◌≤◌, ◌<◌, ◌≡◌, ◌⊎◌, inl, inr, refl, ap, arith, true, false, ltb, leb, ◌&&◌, Bool-cases, Option,
  none, some, List, [], ◌∷◌, ◌++◌,
}
use heaven_os.Vmem.{Area, area_end, vmem_is_mapped}

-- The area holds the address.
abbrev pub Holds : ℕ → Area → Type 0
Holds addr area = (area.start ≤ addr) × (addr < area_end area)

-- No area of the list holds the address.
abbrev pub Unmapped : ℕ → List Area → Type 0
Unmapped addr [] = Unit
Unmapped addr (area ∷ areas) = (¬ Holds addr area) × Unmapped addr areas

-- `r` is the first area that holds the address, or NULL when none does.
abbrev pub First : ℕ → List Area → Option Area → Type 0
First addr areas r =
    ((r ≡ none) × Unmapped addr areas)
    ⊎ ((before : List Area) × (area : Area) × (rest : List Area) × (areas ≡ before ++ area ∷ rest)
        × (r ≡ some area)
        × Holds addr area
        × Unmapped addr before)

First-cons :
    (addr : ℕ) (area : Area) (areas : List Area) (r : Option Area)
    → ¬ Holds addr area
    → First addr areas r
    → First addr (area ∷ areas) r
First-cons addr area areas r out (inl (e, u)) = inl (e, (out, u))
First-cons addr area areas r out (inr (before, found, rest, splits, e, holds, u)) =
    inr (area ∷ before, found, rest, ap (λ (xs : List Area). area ∷ xs) splits, e, holds, (out, u))

-- `vmem_is_mapped` returns the first area that holds the address, and NULL exactly when no area
-- does.
pub vmem_is_mapped-First :
    (areas : List Area) (addr : ℕ) → First addr areas (vmem_is_mapped areas addr)
unfolding vmem_is_mapped
vmem_is_mapped-First [] addr = inl (refl, tt)
vmem_is_mapped-First (area ∷ areas) addr =
    go (Bool-cases (leb area.start addr && ltb addr (area_end area)))
      (vmem_is_mapped-First areas addr)
  where
    go :
        ((leb area.start addr && ltb addr (area_end area)) ≡ true)
          ⊎ ((leb area.start addr && ltb addr (area_end area)) ≡ false)
        → First addr areas (vmem_is_mapped areas addr)
        → First addr (area ∷ areas) (vmem_is_mapped (area ∷ areas) addr)
    go (inl here) _ = rw here (inr ([], area, areas, refl, refl, ground arith, tt))
    go (inr past) rest =
        rw past (First-cons addr area areas (vmem_is_mapped areas addr) (λ h. ground arith) rest)
