-- ===== src/Boot/Paging.antt =====
-- The page tables of boot/early.c map all physical memory and the sections of the kernel.
use heaven_os.Prelude.{
  ℕ, suc, ◌+◌, ◌-◌, ◌*◌, ◌/◌, ◌%◌, ◌^◌, ◌≤◌, ◌<◌, ◌≡◌, ◌⊎◌, inl, ◌==◌, true, false, update, refl,
  ◌∙◌, arith, some,
}
use heaven_os.Vmem.Tables.{entry, pte_addr, phys_to_virt, pml4e_from_addr}
use heaven_os.Vmem.Walk.{drop, walk}
use heaven_os.Boot.{
  Words, Linked, mb, gb, kernel_sections_start, large_entry, table_entry, direct_loop,
  early_setup_paging,
}
use heaven_os.Boot.Direct.{direct_loop-pdpt, direct_loop-pml4}
use heaven_os.Boot.Sections.{
  HasPages, sections_words, sections_loop-words, sections_words-outside, sections_words-page,
  sections_words-table,
}
use heaven_os.Boot.Translate.{IsLaid, view, view-entry, walk-table, walk-large, large_entry-IsLarge}

-- The words that `early_setup_paging` leaves, for `n` pages of sections.
abbrev pub paged : Linked → ℕ → Words → Words
paged l n w =
    update (sections_words l n 0 (direct_loop l 128 0 w)) (entry l.early_pml4 511)
      (table_entry l.higher_half_pdpt)

module _ (l : Linked) (laid : IsLaid l) (n : ℕ) (pages : HasPages l n) (w : Words) where
  -- No loop of the sections writes to the tables of the direct mapping or to the top level.
  paged-outside :
      (a : ℕ)
      → (a < l.early_pml4 + 8 * 511) ⊎ (l.early_pml4 + 4096 ≤ a)
      → (a < l.higher_half_pgdirs) ⊎ (l.higher_half_pgdirs + 8192 ≤ a)
      → (a < l.higher_half_pdpt) ⊎ (l.higher_half_pdpt + 4096 ≤ a)
      → paged l n w a ≡ direct_loop l 128 0 w a
  paged-outside a h g f =
      let other : (entry l.early_pml4 511 == a) ≡ false = ground (arith, h) in
      rw other (
        sections_words-outside l n 0 a (direct_loop l 128 0 w) (omega (arith, g, pages.few))
          (omega (arith, f)))

  paged-pml4 :
      (i : ℕ)
      → i < 128
      → paged l n w (entry l.early_pml4 (273 + i))
        ≡ table_entry (l.direct_phys_mapping_pdpts + i * 4096)
  paged-pml4 i h =
      let from : 0 + i ≡ i = omega arith in
      paged-outside (entry l.early_pml4 (273 + i)) (inl (omega arith))
        (omega (arith, laid.pml4-pgdirs)) (omega (arith, laid.pml4-pdpt))
      ∙ rw from at (direct_loop-pml4 l laid.pml4-pdpts 128 0 i w (omega arith) h)

  paged-pdpt :
      (i k : ℕ)
      → i < 128
      → k < 512
      → paged l n w (entry (l.direct_phys_mapping_pdpts + i * 4096) k)
        ≡ large_entry (i * 512 * gb + k * gb)
  paged-pdpt i k h hk =
      let from : 0 + i ≡ i = omega arith in
      paged-outside (entry (l.direct_phys_mapping_pdpts + i * 4096) k)
        (omega (arith, laid.pml4-pdpts)) (omega (arith, laid.pdpts-pgdirs))
        (omega (arith, laid.pdpts-pdpt))
      ∙ rw from at (direct_loop-pdpt l laid.pml4-pdpts 128 0 i k w (omega arith) h hk)

  -- Every physical address is mapped in the direct mapping, by a page of 1 GB.
  paged-direct :
      (p : ℕ)
      → p < 2 ^ 46
      → walk 3 (view (paged l n w)) (phys_to_virt l.early_pml4) (phys_to_virt p)
        ≡ some (large_entry (p / gb * gb))
  paged-direct p h =
      let i : ℕ = p / 2 ^ 39 in
      let k : ℕ = p / gb % 512 in
      let (al, low) = laid.pml4 in
      let (al', low') = laid.pdpts in
      let table = l.direct_phys_mapping_pdpts + i * 4096 in
      let top : drop 3 (phys_to_virt p) % 512 ≡ 273 + i = omega arith in
      let below : drop 2 (phys_to_virt p) % 512 ≡ k = omega arith in
      let page : i * 512 * gb + k * gb ≡ p / gb * gb = omega arith in
      walk-table 2 (phys_to_virt l.early_pml4) (phys_to_virt p) (view (paged l n w)) table
        (rw top (
          view-entry (paged l n w) l.early_pml4 (273 + i) (omega arith) (omega arith)
          ∙ paged-pml4 i (omega arith)))
        (omega arith) (omega arith)
      ∙ walk-large 1 (phys_to_virt table) (phys_to_virt p) (view (paged l n w)) (p / gb * gb)
          (rw below (
            view-entry (paged l n w) table k (omega arith) (omega arith)
            ∙ rw page at (paged-pdpt i k (omega arith) (omega arith))))
          (omega arith) (omega arith)

  -- The entries on the way to page `k` of the sections.
  paged-table :
      (r : ℕ)
      → n ≡ suc r
      → paged l n w (entry l.higher_half_pdpt 510) ≡ table_entry l.higher_half_pgdirs
  paged-table r e =
      let other : (entry l.early_pml4 511 == entry l.higher_half_pdpt 510) ≡ false =
        ground (arith, laid.pml4-pdpt) in
      let few : n < 512 = pages.few in
      rw (other, e)
        (sections_words-table l laid.pdpt-pgdirs r 0 (direct_loop l 128 0 w) (omega arith))

  paged-page :
      (k : ℕ)
      → k < n
      → paged l n w (entry l.higher_half_pgdirs k) ≡ large_entry (l.phys_start_hh + k * (2 * mb))
  paged-page k h =
      let from : 0 + k ≡ k = omega arith in
      let few : n < 512 = pages.few in
      let other : (entry l.early_pml4 511 == entry l.higher_half_pgdirs k) ≡ false =
        ground (arith, laid.pml4-pgdirs) in
      rw other (
        rw from at
          (sections_words-page l laid.pdpt-pgdirs n 0 k (direct_loop l 128 0 w) h (omega arith)))

  -- Every address of the sections is mapped by a page of 2 MB.
  paged-sections :
      (o : ℕ)
      → o < n * (2 * mb)
      → l.phys_start_hh % 4096 ≡ 0
      → walk 3 (view (paged l n w)) (phys_to_virt l.early_pml4) (kernel_sections_start + o)
        ≡ some (large_entry (l.phys_start_hh + o / (2 * mb) * (2 * mb)))
  paged-sections o h aligned =
      let k : ℕ = o / (2 * mb) in
      let va : ℕ = kernel_sections_start + o in
      let few : n < 512 = pages.few in
      let low : l.phys_start_hh + n * (2 * mb) < 2 ^ 48 = pages.low in
      let (al, small) = laid.pml4 in
      let (al1, small1) = laid.pdpt in
      let (al2, small2) = laid.pgdirs in
      let top : drop 3 va % 512 ≡ 511 = omega arith in
      let middle : drop 2 va % 512 ≡ 510 = omega arith in
      let bottom : drop 1 va % 512 ≡ k = omega arith in
      let last : entry l.early_pml4 511 == entry l.early_pml4 511 ≡ true = ground arith in
      walk-table 2 (phys_to_virt l.early_pml4) va (view (paged l n w)) l.higher_half_pdpt
        (rw top
          (view-entry (paged l n w) l.early_pml4 511 (omega arith) (omega arith) ∙ rw last refl))
        al1 (omega arith)
      ∙ walk-table 1 (phys_to_virt l.higher_half_pdpt) va (view (paged l n w)) l.higher_half_pgdirs
          (rw middle (
            view-entry (paged l n w) l.higher_half_pdpt 510 (omega arith) (omega arith)
            ∙ paged-table (n - 1) (omega arith)))
          al2 (omega arith)
      ∙ walk-large 0 (phys_to_virt l.higher_half_pgdirs) va (view (paged l n w))
          (l.phys_start_hh + k * (2 * mb))
          (rw bottom (
            view-entry (paged l n w) l.higher_half_pgdirs k (omega arith) (omega arith)
            ∙ paged-page k (omega arith)))
          (omega arith) (omega arith)

-- With tables that are aligned and do not overlap, and sections of the kernel of `n` pages of 2 MB,
-- fewer than 512, that start at a page, on fuel that exceeds `n`, `early_setup_paging` ends. In the
-- tables that it leaves the walk of the address of any physical address below 64 TB in the direct
-- mapping finds a large page of 1 GB that holds the physical address, and the walk of any address of
-- the sections finds the large page of 2 MB at the same distance from the start of the kernel.
pub early_setup_paging-walk :
    (fuel n p o : ℕ) (l : Linked) (w : Words)
    → IsLaid l
    → HasPages l n
    → l.phys_start_hh % 4096 ≡ 0
    → n < fuel
    → p < 64 * 2 ^ 40
    → o < n * (2 * mb)
    → (w' : Words) × (early_setup_paging fuel l w ≡ some w')
      × (walk 3 (view w') (phys_to_virt l.early_pml4) (phys_to_virt p)
          ≡ some (large_entry (p / gb * gb)))
      × (pte_addr (large_entry (p / gb * gb)) ≡ p / gb * gb)
      × (walk 3 (view w') (phys_to_virt l.early_pml4) (kernel_sections_start + o)
          ≡ some (large_entry (l.phys_start_hh + o / (2 * mb) * (2 * mb))))
      × (pte_addr (large_entry (l.phys_start_hh + o / (2 * mb) * (2 * mb)))
          ≡ l.phys_start_hh + o / (2 * mb) * (2 * mb))
unfolding early_setup_paging
early_setup_paging-walk fuel n p o l w laid pages aligned enough hp ho =
    let few : n < 512 = pages.few in
    let low : l.phys_start_hh + n * (2 * mb) < 2 ^ 48 = pages.low in
    let virt : kernel_sections_start + 0 * (2 * mb) ≡ kernel_sections_start = omega arith in
    let phys : l.phys_start_hh + 0 * (2 * mb) ≡ l.phys_start_hh = omega arith in
    let ran =
      rw (virt, phys) at
        (sections_loop-words l n 0 fuel n (direct_loop l 128 0 w) pages (omega arith) enough) in
    let top : pml4e_from_addr (kernel_sections_start + n * (2 * mb)) ≡ 511 = omega arith in
    let (present, large, direct) = large_entry-IsLarge (p / gb * gb) (omega arith) (omega arith) in
    let (present', large', section) =
      large_entry-IsLarge (l.phys_start_hh + o / (2 * mb) * (2 * mb)) (omega arith) (omega arith) in
    (
      paged l n w,
      rw (ran, top) refl,
      paged-direct l laid n pages w p (omega arith),
      direct,
      paged-sections l laid n pages w o ho aligned,
      section,
    )
