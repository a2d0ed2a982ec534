-- ===== src/Boot.antt =====
-- boot/early.c: the page tables under which the kernel starts. Memory is a function of the physical
-- addresses of 64-bit words; the addresses of the tables, which are those of the linker, are
-- arguments. `jump_to_kernel_main` is assembly.
pub mod Direct
pub mod Sections
pub mod Translate
pub mod Paging
mod Tests
use heaven_os.Prelude.{
  ℕ, zero, suc, ◌+◌, ◌*◌, ◌/◌, ◌%◌, ◌^◌, bit_or, ltb, if◌then◌else◌, update, Option, none, some,
}
use heaven_os.Memory.{div_round_up}
use heaven_os.FrameAlloc.{◌>>=◌, sub64}
use heaven_os.Vmem.{pte_writeable}
use heaven_os.Vmem.Tables.{
  pte_present, pte_page_size, entry, pml4e_from_addr, pdpe_from_addr, pde_from_addr, direct_map,
  phys_to_virt,
}
use heaven_os.Apic.{Bus, x86_outb}

abbrev pub gb : ℕ
gb = 2 ^ 30

abbrev pub mb : ℕ
mb = 2 ^ 20

abbrev pub kernel_sections_start : ℕ
kernel_sections_start = 0xffffffff80000000

abbrev pub kernel_direct_phys_mapping_size : ℕ
kernel_direct_phys_mapping_size = 64 * 2 ^ 40

-- The number of `direct_phys_mapping_pdpts`.
abbrev pub pdpt_count : ℕ
pdpt_count = div_round_up (kernel_direct_phys_mapping_size / gb) 512

abbrev pub Words : Type 0
Words = ℕ → ℕ

-- The physical addresses of the tables, and of the start and the end of the kernel.
pub record Linked : Type 0 where
  pub early_pml4 : ℕ
  pub direct_phys_mapping_pdpts : ℕ
  pub higher_half_pdpt : ℕ
  pub higher_half_pgdirs : ℕ
  pub phys_start_hh : ℕ
  pub phys_end_kernel_sections : ℕ

-- The entry of a large page and of a table.
abbrev pub large_entry : ℕ → ℕ
large_entry phys_addr = bit_or (bit_or (bit_or phys_addr pte_page_size) pte_present) pte_writeable

abbrev pub table_entry : ℕ → ℕ
table_entry table = bit_or (bit_or table pte_present) pte_writeable

-- `n` rounds of the inner loop over the entries of a table, from entry `j` on.
pub fill_pdpt : ℕ → ℕ → ℕ → ℕ → Words → Words
fill_pdpt zero j pdpt phys_addr w = w
fill_pdpt (suc n) j pdpt phys_addr w =
    fill_pdpt n (j + 1) pdpt (phys_addr + gb) (update w (entry pdpt j) (large_entry phys_addr))

-- The body of the loop over the tables of the direct mapping.
abbrev pub map_direct : Linked → ℕ → Words → Words
map_direct l i w =
    let phys_addr = i * 512 * gb in
    let pdpt = l.direct_phys_mapping_pdpts + i * 4096 in
    update (fill_pdpt 512 0 pdpt phys_addr w)
      (entry l.early_pml4 (pml4e_from_addr (direct_map + phys_addr))) (table_entry pdpt)

-- `n` rounds of this loop, from table `i` on.
pub direct_loop : Linked → ℕ → ℕ → Words → Words
direct_loop l zero i w = w
direct_loop l (suc n) i w = direct_loop l n (i + 1) (map_direct l i w)

-- The body of the loop over the sections of the kernel; `virt_next` is the address of the next page,
-- which the index in the table above is taken from.
abbrev pub map_sections : Linked → ℕ → ℕ → ℕ → Words → Words
map_sections l virt_addr_curr virt_next phys_addr_curr w =
    let pgdir_idx = sub64 (pdpe_from_addr virt_addr_curr) (pdpe_from_addr kernel_sections_start) in
    let pgdir = l.higher_half_pgdirs + pgdir_idx * 4096 in
    update (update w (entry pgdir (pde_from_addr virt_addr_curr)) (large_entry phys_addr_curr))
      (entry l.higher_half_pdpt (pdpe_from_addr virt_next)) (table_entry pgdir)

-- This loop on fuel: the last address, and the words.
pub sections_loop : ℕ → Linked → ℕ → ℕ → Words → Option (ℕ × Words)
sections_loop zero l virt_addr_curr phys_addr_curr w = none
sections_loop (suc fuel) l virt_addr_curr phys_addr_curr w =
    let virt_next = (virt_addr_curr + 2 * mb) % 2 ^ 64 in
    let rest =
      sections_loop fuel l virt_next ((phys_addr_curr + 2 * mb) % 2 ^ 64)
        (map_sections l virt_addr_curr virt_next phys_addr_curr w) in
    if ltb phys_addr_curr l.phys_end_kernel_sections then rest else some (virt_addr_curr, w)

pub early_setup_paging : ℕ → Linked → Words → Option Words
early_setup_paging fuel l w = do
  (virt_addr_curr, w') ←
      sections_loop fuel l kernel_sections_start l.phys_start_hh (direct_loop l pdpt_count 0 w)
  some (
      update w' (entry l.early_pml4 (pml4e_from_addr virt_addr_curr))
        (table_entry l.higher_half_pdpt))

abbrev pub early_mask_pic_interrupts : Bus → Bus
early_mask_pic_interrupts bus = x86_outb 0xa1 0xff (x86_outb 0x21 0xff bus)

-- The words, the actions on the devices, and `early_data.multiboot_info`.
abbrev pub early_init : ℕ → Linked → ℕ → Words → Bus → Option (Words × Bus × ℕ)
early_init fuel l mb_early_boot_info w bus = do
  w' ← early_setup_paging fuel l w
  some (w', early_mask_pic_interrupts bus, phys_to_virt mb_early_boot_info)
