-- ===== src/FrameAlloc/Tests.antt =====
-- A zone that `zone_add` of mm/frame_alloc.c lays out, and the theorems on the allocator at it.
use heaven_os.Prelude.{ℕ, ◌≡◌, refl, arith, none, some, Option, List, [], ◌∷◌, ◌++◌}
use heaven_os.Memory.{Bytes}
use heaven_os.FrameAlloc.{Zone, max_order, zone_alloc}
use heaven_os.FrameAlloc.Alloc.{Searched, zone_alloc-Allocated}
use heaven_os.FrameAlloc.Init.Regions.{Chosen, usable_region-Chosen}
use heaven_os.FrameAlloc.Init.{
  MemmapEntry, usable_region, frame_alloc_init, set_bitmaps, link_blocks, empty_zone, zone_add,
  required_bitmap_size,
}
use heaven_os.FrameAlloc.Init.Bitmaps.{Shared, zone_add-overlap}
use heaven_os.FrameAlloc.Init.Chain.{frame_alloc_init-Ready}
use heaven_os.FrameAlloc.Init.Sound.{zone_add-Ready}
use heaven_os.FrameAlloc.Zones.{frames_alloc}
use heaven_os.FrameAlloc.Zones.Order.{Least}
use heaven_os.FrameAlloc.Zones.Serve.{All, Ready, Outcome, frames_alloc-Outcome}

abbrev blank : Bytes
blank a = 0

abbrev small_maps : ℕ → ℕ
small_maps = elim (set_bitmaps max_order 0 0x400000 1 1 (λ _. 0)) [ none ↦ λ _. 0 | some b ↦ b ]

abbrev small_zone : Zone
small_zone = link_blocks 2 0 (empty_zone 0x400000 3000 small_maps)

zone_add_small : zone_add [] 0x400000 3000 ≡ some ([] ++ small_zone ∷ [], 2048)
unfolding zone_add link_blocks set_bitmaps required_bitmap_size
zone_add_small = refl

zone_add-overlap_example : Shared small_zone
unfolding link_blocks required_bitmap_size
zone_add-overlap_example =
    zone_add-overlap [] 0x400000 3000 {n = 2048} zone_add_small (omega arith) (omega arith)

zone_add-Ready_example : Ready small_zone
unfolding link_blocks required_bitmap_size
zone_add-Ready_example =
    zone_add-Ready [] 0x400000 3000 {n = 2048} zone_add_small (omega arith) (omega arith)

small_zone-Ready : Ready small_zone
unfolding link_blocks required_bitmap_size
small_zone-Ready =
    zone_add-Ready [] 0x400000 3000 {n = 2048} zone_add_small (omega arith) (omega arith)

zone_alloc-Allocated_example :
    Searched small_zone small_zone.free blank 3 3 (zone_alloc small_zone 3 blank)
zone_alloc-Allocated_example =
    zone_alloc-Allocated 3 (omega arith) small_zone-Ready.0 small_zone-Ready.1

frames_alloc-Outcome_example :
    (order : ℕ) × Least 5 order
    × Outcome (small_zone ∷ []) blank order (frames_alloc (small_zone ∷ []) 5 blank)
frames_alloc-Outcome_example =
    frames_alloc-Outcome (small_zone ∷ []) 5 (omega arith) (small_zone-Ready, tt)

-- A gigabyte of RAM at 1 MB, of which the kernel and the boot information take 3 MB.
abbrev ram : MemmapEntry
ram = record { base_addr = 0x100000; length = 0x40000000; type = 1 }

usable_region-Chosen_example : Chosen 0xffff888000400000 ram (usable_region 0xffff888000400000 ram)
usable_region-Chosen_example = usable_region-Chosen 0xffff888000400000 ram refl refl (omega arith)

-- Twelve megabytes of RAM, of which the kernel and the boot information take four, make one zone.
abbrev map_of_ram : List MemmapEntry
map_of_ram = record { base_addr = 0; length = 0xc00000; type = 1 } ∷ []

abbrev first_zones : Option (List Zone × ℕ)
first_zones = frame_alloc_init 0xffff888000400000 map_of_ram [] 0

abbrev zones_of : Option (List Zone × ℕ) → List Zone × ℕ
zones_of none = ([], 0)
zones_of (some r) = r

frames_of_ram : first_zones ≡ some ((zones_of first_zones).0, 1024)
unfolding zone_add set_bitmaps link_blocks required_bitmap_size
frames_of_ram = refl

frame_alloc_init-Ready_example : All Ready (zones_of first_zones).0
frame_alloc_init-Ready_example =
    frame_alloc_init-Ready 0xffff888000400000 map_of_ram [] (zones_of first_zones).0 0 1024
      (omega arith, tt) tt frames_of_ram
