-- ===== src/Vmem/PagingTests.antt =====
-- Runs of the page tables of mm/vmem.c, and their theorems at them.
use heaven_os.Prelude.{ℕ, ◌≡◌, bit_or, if◌then◌else◌, refl, arith, none, some, ◌∷◌}
use heaven_os.Vmem.{vmem_convert_flags}
use heaven_os.Vmem.Tables.{
  Machine, okay, is_set, phys_to_virt, virt_to_phys, vmem_map_page, vmem_unmap_page,
}
use heaven_os.Vmem.Space.{Space}
use heaven_os.Vmem.Walk.{walk, IsTree, IsFresh}
use heaven_os.Vmem.Mapped.{vmem_map_page-walk}
use heaven_os.Vmem.Unmap.{vmem_unmap_page-vmem_map_page}
use heaven_os.Vmem.Sample.{top_table, machine, level, tree, fresh}

vmem_map_page-walk_example :
    (m' : Machine) × (vmem_map_page top_table 0x401000 0x7000 3 machine ≡ some (okay, m'))
    × (walk 3 m'.word top_table 0x401000 ≡ some (bit_or (bit_or 0x7000 1) (vmem_convert_flags 3)))
    × (walk 3 m'.word top_table 0x402000 ≡ none)
    × ((level' : ℕ → ℕ) × (prefix' : ℕ → ℕ) × IsTree m'.word level' prefix' top_table
        × IsFresh level' m'.frames)
vmem_map_page-walk_example =
    vmem_map_page-walk top_table 0x401000 0x402000 0x7000 3 machine level (λ t. 0) tree fresh
      (omega arith) refl refl (omega arith) refl (omega arith)

vmem_unmap_page-vmem_map_page_example :
    (m1 : Machine) × (vmem_map_page top_table 0x401000 0x7000 3 machine ≡ some (okay, m1))
    × (walk 3 (vmem_unmap_page top_table 0x401000 m1).word top_table 0x401000 ≡ none)
    × (walk 3 (vmem_unmap_page top_table 0x401000 m1).word top_table 0x402000 ≡ none)
    × ((vmem_unmap_page top_table 0x401000 m1).freed ≡ (
        if is_set (bit_or (bit_or 0x7000 1) (vmem_convert_flags 3)) 4
        then phys_to_virt 0x7000 ∷ m1.freed
        else m1.freed))
vmem_unmap_page-vmem_map_page_example =
    vmem_unmap_page-vmem_map_page top_table 0x401000 0x402000 0x7000 3 machine level (λ t. 0) tree
      fresh (omega arith) refl refl (omega arith) refl (omega arith)

-- A null pointer is not 0 once it is a physical address, so a page fault without a frame is not noticed.
null_frame : virt_to_phys 0 ≡ 0x0000778000000000
null_frame = refl
