-- ===== src/Boot/Sections.antt =====
-- The loop of boot/early.c that maps the sections of the kernel, when they take less than 1 GB.
use heaven_os.Prelude.{
  ℕ, zero, suc, ◌+◌, ◌*◌, ◌%◌, ◌^◌, ◌≤◌, ◌<◌, ◌≡◌, ◌⊎◌, inl, true, false, ltb, update, refl, ◌∙◌,
  arith, some,
}
use heaven_os.FrameAlloc.{sub64}
use heaven_os.Vmem.Tables.{entry, pdpe_from_addr, pde_from_addr}
use heaven_os.Boot.{
  Words, Linked, mb, kernel_sections_start, large_entry, table_entry, map_sections, sections_loop,
}

-- The sections of the kernel take `n` pages of 2 MB.
pub record HasPages (l : Linked) (n : ℕ) : Type 0 where
  pub few : n < 512
  pub low : l.phys_start_hh + n * (2 * mb) < 2 ^ 48
  pub inside : (k : ℕ) → k < n → l.phys_start_hh + k * (2 * mb) < l.phys_end_kernel_sections
  pub ends : l.phys_end_kernel_sections ≤ l.phys_start_hh + n * (2 * mb)

module _ (l : Linked) where
  -- The words behind `r` rounds from page `s` on.
  pub sections_words : ℕ → ℕ → Words → Words
  sections_words zero s w = w
  sections_words (suc r) s w = sections_words r (s + 1) (
      update
        (update w (entry l.higher_half_pgdirs s) (large_entry (l.phys_start_hh + s * (2 * mb))))
        (entry l.higher_half_pdpt 510) (table_entry l.higher_half_pgdirs))

  map_sections-page :
      (s : ℕ) (w : Words)
      → s < 511
      → map_sections l
          (kernel_sections_start + s * (2 * mb))
          (kernel_sections_start + (s + 1) * (2 * mb))
          (l.phys_start_hh + s * (2 * mb))
          w
        ≡ update
            (update w (entry l.higher_half_pgdirs s) (large_entry (l.phys_start_hh + s * (2 * mb))))
            (entry l.higher_half_pdpt 510)
            (table_entry l.higher_half_pgdirs)
  map_sections-page s w h =
      let above : pdpe_from_addr (kernel_sections_start + s * (2 * mb)) ≡ 510 = omega arith in
      let next : pdpe_from_addr (kernel_sections_start + (s + 1) * (2 * mb)) ≡ 510 = omega arith in
      let page : pde_from_addr (kernel_sections_start + s * (2 * mb)) ≡ s = omega arith in
      let table : l.higher_half_pgdirs + sub64 510 510 * 4096 ≡ l.higher_half_pgdirs =
        omega arith in
      rw (above, next, page, table) refl

  pub sections_loop-words :
      (r s fuel n : ℕ) (w : Words)
      → HasPages l n
      → s + r ≡ n
      → r < fuel
      → sections_loop fuel l
          (kernel_sections_start + s * (2 * mb))
          (l.phys_start_hh + s * (2 * mb))
          w
        ≡ some (kernel_sections_start + n * (2 * mb), sections_words r s w)
  unfolding sections_loop sections_words
  sections_loop-words r s zero n w pages sum enough = absurd (omega (arith, enough))
  sections_loop-words zero s (suc fuel) n w pages sum enough =
      let same : s ≡ n = omega (arith, sum) in
      let stop : ltb (l.phys_start_hh + n * (2 * mb)) l.phys_end_kernel_sections ≡ false =
        ground (arith, pages.ends) in
      rw (same, stop) refl
  sections_loop-words (suc r) s (suc fuel) n w pages sum enough =
      let go : ltb (l.phys_start_hh + s * (2 * mb)) l.phys_end_kernel_sections ≡ true =
        ground (arith, pages.inside s (omega (arith, sum))) in
      let few : n < 512 = pages.few in
      let low : l.phys_start_hh + n * (2 * mb) < 2 ^ 48 = pages.low in
      let virt : (kernel_sections_start + s * (2 * mb) + 2 * mb) % 2 ^ 64
          ≡ kernel_sections_start + (s + 1) * (2 * mb) =
        omega arith in
      let phys : (l.phys_start_hh + s * (2 * mb) + 2 * mb) % 2 ^ 64
          ≡ l.phys_start_hh + (s + 1) * (2 * mb) =
        omega arith in
      rw (go, virt, phys, map_sections-page s w (omega arith))
        (sections_loop-words r (s + 1) fuel n _ pages (omega arith) (omega arith))

  pub sections_words-outside :
      (r s a : ℕ) (w : Words)
      → (a < entry l.higher_half_pgdirs s) ⊎ (entry l.higher_half_pgdirs (s + r) ≤ a)
      → (a < entry l.higher_half_pdpt 510) ⊎ (entry l.higher_half_pdpt 510 < a)
      → sections_words r s w a ≡ w a
  unfolding sections_words
  sections_words-outside zero s a w h g = refl
  sections_words-outside (suc r) s a w h g =
      sections_words-outside r (s + 1) a _ (omega (arith, h)) g ∙ ground (arith, h, g)

  module _
      (apart : (l.higher_half_pdpt + 4096 ≤ l.higher_half_pgdirs)
        ⊎ (l.higher_half_pgdirs + 8192 ≤ l.higher_half_pdpt)) where
    pub sections_words-page :
        (r s k : ℕ) (w : Words)
        → k < r
        → s + r < 512
        → sections_words r s w (entry l.higher_half_pgdirs (s + k))
          ≡ large_entry (l.phys_start_hh + (s + k) * (2 * mb))
    unfolding sections_words
    sections_words-page zero s k w hk small = absurd (omega (arith, hk))
    sections_words-page (suc r) s zero w hk small =
        let here : s + 0 ≡ s = omega arith in
        rw here (
          sections_words-outside r (s + 1) (entry l.higher_half_pgdirs s) _ (inl (omega arith))
            (omega (arith, apart))
          ∙ ground (arith, apart))
    sections_words-page (suc r) s (suc k) w hk small =
        let there : s + suc k ≡ s + 1 + k = omega arith in
        rw there (sections_words-page r (s + 1) k _ (omega arith) (omega arith))

    pub sections_words-table :
        (r s : ℕ) (w : Words)
        → s + suc r < 512
        → sections_words (suc r) s w (entry l.higher_half_pdpt 510)
          ≡ table_entry l.higher_half_pgdirs
    unfolding sections_words
    sections_words-table zero s w small = ground arith
    sections_words-table (suc r) s w small = sections_words-table r (s + 1) _ (omega arith)
