-- ===== src/Boot/Direct.antt =====
-- The loops of boot/early.c that map all physical memory.
use heaven_os.Prelude.{
  ℕ, zero, suc, ◌+◌, ◌*◌, ◌≤◌, ◌<◌, ◌≡◌, ◌⊎◌, inl, update, ◌==◌, false, refl, ◌∙◌, arith,
}
use heaven_os.Vmem.Tables.{entry, direct_map, pml4e_from_addr}
use heaven_os.Boot.{Words, Linked, gb, large_entry, table_entry, fill_pdpt, map_direct, direct_loop}

module _ (pdpt : ℕ) where
  fill_pdpt-outside :
      (n j phys_addr a : ℕ) (w : Words)
      → (a < entry pdpt j) ⊎ (entry pdpt (j + n) ≤ a)
      → fill_pdpt n j pdpt phys_addr w a ≡ w a
  unfolding fill_pdpt
  fill_pdpt-outside zero j phys_addr a w h = refl
  fill_pdpt-outside (suc n) j phys_addr a w h =
      fill_pdpt-outside n (j + 1) (phys_addr + gb) a
        (update w (entry pdpt j) (large_entry phys_addr)) (omega (arith, h))
      ∙ ground (arith, h)

  fill_pdpt-at :
      (n j phys_addr k : ℕ) (w : Words)
      → k < n
      → fill_pdpt n j pdpt phys_addr w (entry pdpt (j + k)) ≡ large_entry (phys_addr + k * gb)
  unfolding fill_pdpt
  fill_pdpt-at zero j phys_addr k w h = absurd (omega (arith, h))
  fill_pdpt-at (suc n) j phys_addr zero w h =
      fill_pdpt-outside n (j + 1) (phys_addr + gb) (entry pdpt (j + 0))
        (update w (entry pdpt j) (large_entry phys_addr)) (inl (omega arith))
      ∙ ground arith
  fill_pdpt-at (suc n) j phys_addr (suc k) w h =
      let at : entry pdpt (j + suc k) ≡ entry pdpt (j + 1 + k) = omega arith in
      let to : phys_addr + suc k * gb ≡ phys_addr + gb + k * gb = omega arith in
      rw (at, to)
        (fill_pdpt-at n (j + 1) (phys_addr + gb) k (update w (entry pdpt j) (large_entry phys_addr))
          (omega (arith, h)))

-- The entry of the top level for the table `i` of the direct mapping.
direct_index : (i : ℕ) → i < 128 → pml4e_from_addr (direct_map + i * 512 * gb) ≡ 273 + i
direct_index i h = omega arith

module _ (l : Linked)
    (apart : (l.early_pml4 + 4096 ≤ l.direct_phys_mapping_pdpts)
      ⊎ (l.direct_phys_mapping_pdpts + 128 * 4096 ≤ l.early_pml4)) where
  map_direct-outside :
      (i a : ℕ) (w : Words)
      → i < 128
      → (a < l.direct_phys_mapping_pdpts + i * 4096)
        ⊎ (l.direct_phys_mapping_pdpts + (i + 1) * 4096 ≤ a)
      → (a < entry l.early_pml4 (273 + i)) ⊎ (entry l.early_pml4 (273 + i) < a)
      → map_direct l i w a ≡ w a
  map_direct-outside i a w small h g =
      let index = direct_index i small in
      let other : (entry l.early_pml4 (273 + i) == a) ≡ false = ground (arith, g) in
      rw (index, other)
        (fill_pdpt-outside (l.direct_phys_mapping_pdpts + i * 4096) 512 0 (i * 512 * gb) a w
          (omega (arith, h)))

  pub direct_loop-outside :
      (n i a : ℕ) (w : Words)
      → i + n ≤ 128
      → (a < l.direct_phys_mapping_pdpts + i * 4096)
        ⊎ (l.direct_phys_mapping_pdpts + (i + n) * 4096 ≤ a)
      → (a < entry l.early_pml4 (273 + i)) ⊎ (entry l.early_pml4 (273 + (i + n)) ≤ a)
      → direct_loop l n i w a ≡ w a
  unfolding direct_loop
  direct_loop-outside zero i a w small h g = refl
  direct_loop-outside (suc n) i a w small h g =
      direct_loop-outside n (i + 1) a (map_direct l i w) (omega arith) (omega (arith, h))
        (omega (arith, g))
      ∙ map_direct-outside i a w (omega arith) (omega (arith, h)) (omega (arith, g))

  map_direct-pdpt :
      (i k : ℕ) (w : Words)
      → i < 128
      → k < 512
      → map_direct l i w (entry (l.direct_phys_mapping_pdpts + i * 4096) k)
        ≡ large_entry (i * 512 * gb + k * gb)
  map_direct-pdpt i k w hi hk =
      let index = direct_index i hi in
      let other : (entry l.early_pml4 (273 + i) == entry (l.direct_phys_mapping_pdpts + i * 4096) k)
          ≡ false =
        ground (arith, apart) in
      let first : 0 + k ≡ k = omega arith in
      rw (index, other)
        (rw first at
          (fill_pdpt-at (l.direct_phys_mapping_pdpts + i * 4096) 512 0 (i * 512 * gb) k w hk))

  pub direct_loop-pdpt :
      (n i d k : ℕ) (w : Words)
      → i + n ≤ 128
      → d < n
      → k < 512
      → direct_loop l n i w (entry (l.direct_phys_mapping_pdpts + (i + d) * 4096) k)
        ≡ large_entry ((i + d) * 512 * gb + k * gb)
  unfolding direct_loop
  direct_loop-pdpt zero i d k w small hd hk = absurd (omega (arith, hd))
  direct_loop-pdpt (suc n) i zero k w small hd hk =
      let here : i + 0 ≡ i = omega arith in
      rw here (
        direct_loop-outside n (i + 1) (entry (l.direct_phys_mapping_pdpts + i * 4096) k)
          (map_direct l i w) (omega arith) (inl (omega (arith, hk))) (omega (arith, apart, hk))
        ∙ map_direct-pdpt i k w (omega arith) hk)
  direct_loop-pdpt (suc n) i (suc d) k w small hd hk =
      let there : i + suc d ≡ i + 1 + d = omega arith in
      rw there (direct_loop-pdpt n (i + 1) d k (map_direct l i w) (omega arith) (omega arith) hk)

  pub direct_loop-pml4 :
      (n i d : ℕ) (w : Words)
      → i + n ≤ 128
      → d < n
      → direct_loop l n i w (entry l.early_pml4 (273 + (i + d)))
        ≡ table_entry (l.direct_phys_mapping_pdpts + (i + d) * 4096)
  unfolding direct_loop
  direct_loop-pml4 zero i d w small hd = absurd (omega (arith, hd))
  direct_loop-pml4 (suc n) i zero w small hd =
      let here : i + 0 ≡ i = omega arith in
      let index = direct_index i (omega arith) in
      rw here (
        direct_loop-outside n (i + 1) (entry l.early_pml4 (273 + i)) (map_direct l i w)
          (omega arith) (omega (arith, apart)) (inl (omega arith))
        ∙ rw index (ground arith))
  direct_loop-pml4 (suc n) i (suc d) w small hd =
      let there : i + suc d ≡ i + 1 + d = omega arith in
      rw there (direct_loop-pml4 n (i + 1) d (map_direct l i w) (omega arith) (omega arith))
