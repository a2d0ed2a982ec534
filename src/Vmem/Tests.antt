-- ===== src/Vmem/Tests.antt =====
-- Lookups of mm/vmem.c among two areas, and a conversion of flags.
use heaven_os.Prelude.{◌≡◌, arith, ◌⊎◌, refl, true, false, List, [], ◌∷◌}
use heaven_os.Vmem.{Area, vmem_intersects}
use heaven_os.Vmem.Overlap.{Common, Some, vmem_intersects-Common}

abbrev two_areas : List Area
two_areas =
    record { start = 0x1000; size = 2; flags = 1 }
    ∷ record { start = 0x5000; size = 1; flags = 3 }
    ∷ []

vmem_intersects-Common_example :
    ((vmem_intersects two_areas 0x2ff0 32 ≡ true) × Some (Common 0x2ff0 32) two_areas)
    ⊎ ((vmem_intersects two_areas 0x2ff0 32 ≡ false) × (¬ Some (Common 0x2ff0 32) two_areas))
vmem_intersects-Common_example =
    vmem_intersects-Common two_areas 0x2ff0 32 (omega arith) (omega arith)
      ((omega arith, omega arith), ((omega arith, omega arith), tt))

-- Two pages from the page before an area on are not seen to overlap it.
missed_overlap : vmem_intersects two_areas 0x4000 2 ≡ false
unfolding vmem_intersects
missed_overlap = refl
