-- ===== src/Start/Regions.antt =====
-- The frame allocator of mm/frame_alloc.c sees the whole memory map of kernel/multiboot.c.
use heaven_os.Prelude.{ℕ, ◌+◌, ◌<◌, ◌≡◌, refl, List, map}
use heaven_os.Memory.{Bytes}
use heaven_os.FrameAlloc.{Zone}
use heaven_os.FrameAlloc.Init.{frame_alloc_init}
use heaven_os.Multiboot.{Multiboot, memmap_entry, entry_size, memmap_info_size}
use heaven_os.Multiboot.Iter.{IsMemmap, entries_from, memmap_loop-IsMemmap}
use heaven_os.Start.{reserved_end, start_frame_alloc}

-- For a memory map of `n` whole entries, on fuel that exceeds `n`, `frame_alloc_init` ends its loop: it
-- does to the zones what the entries at the places of the map, all and in order, call for.
pub start_frame_alloc-entries_from :
    (n fuel phys_end : ℕ) (m : Bytes) (mb : Multiboot) (zones : List Zone)
    → IsMemmap n m mb
    → n < fuel
    → start_frame_alloc fuel phys_end m mb zones
      ≡ frame_alloc_init
          (reserved_end phys_end m mb)
          (map (memmap_entry m) (
            entries_from (mb.mb_memmap_info + memmap_info_size) (entry_size m mb.mb_memmap_info) n))
          zones
          0
unfolding start_frame_alloc
start_frame_alloc-entries_from n fuel phys_end m mb zones is_memmap enough =
    let (it, init, looped) = memmap_loop-IsMemmap n fuel m mb is_memmap enough in
    rw (init, looped) refl
