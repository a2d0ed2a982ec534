-- ===== src/Boot/Tests.antt =====
-- The page tables of boot/early.c for a kernel of one page of 2 MB.
use heaven_os.Prelude.{◌+◌, ◌≡◌, inl, arith, some}
use heaven_os.Vmem.Tables.{pte_addr, phys_to_virt}
use heaven_os.Vmem.Walk.{walk}
use heaven_os.Boot.{Words, Linked, kernel_sections_start, large_entry, early_setup_paging}
use heaven_os.Boot.Sections.{HasPages}
use heaven_os.Boot.Translate.{IsLaid, view}
use heaven_os.Boot.Paging.{early_setup_paging-walk}

abbrev linked : Linked
linked = record {
  early_pml4 = 0x1000;
  direct_phys_mapping_pdpts = 0x10000;
  higher_half_pdpt = 0x2000;
  higher_half_pgdirs = 0x4000;
  phys_start_hh = 0x200000;
  phys_end_kernel_sections = 0x312345;
}

laid : IsLaid linked
laid = record {
  pml4 = omega arith;
  pdpts = omega arith;
  pdpt = omega arith;
  pgdirs = omega arith;
  pml4-pdpts = inl (omega arith);
  pml4-pdpt = inl (omega arith);
  pml4-pgdirs = inl (omega arith);
  pdpts-pdpt = omega arith;
  pdpts-pgdirs = omega arith;
  pdpt-pgdirs = inl (omega arith);
}

one_page : HasPages linked 1
one_page = record {
  few = omega arith;
  low = omega arith;
  inside = λ k h. omega (arith, h);
  ends = omega arith;
}

early_setup_paging-walk_example :
    (w' : Words) × (early_setup_paging 2 linked (λ a. 0) ≡ some w')
    × (walk 3 (view w') (phys_to_virt 0x1000) (phys_to_virt 0x12345678) ≡ some (large_entry 0))
    × (pte_addr (large_entry 0) ≡ 0)
    × (walk 3 (view w') (phys_to_virt 0x1000) (kernel_sections_start + 0x1234)
        ≡ some (large_entry 0x200000))
    × (pte_addr (large_entry 0x200000) ≡ 0x200000)
early_setup_paging-walk_example =
    early_setup_paging-walk 2 1 0x12345678 0x1234 linked (λ a. 0) laid one_page (omega arith)
      (omega arith) (omega arith) (omega arith)
