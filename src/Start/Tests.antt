-- ===== src/Start/Tests.antt =====
-- The memory map on kernel/kernel.c: two entries, which are no memory, give no zone.
use heaven_os.Prelude.{◌≡◌, ◌==◌, if◌then◌else◌, refl, arith, [], ◌∷◌, map}
use heaven_os.Memory.{Bytes}
use heaven_os.FrameAlloc.Init.{frame_alloc_init}
use heaven_os.Multiboot.{Multiboot, memmap_entry}
use heaven_os.Multiboot.Iter.{IsMemmap}
use heaven_os.Start.{reserved_end, start_frame_alloc}
use heaven_os.Start.Regions.{start_frame_alloc-entries_from}

abbrev bytes : Bytes
bytes a = if a == 2004 then 64 else if a == 2008 then 24 else 0

abbrev tags : Multiboot
tags = record {
  mb_boot_info = 1000;
  mb_fb_info = 0;
  mb_memmap_info = 2000;
  mb_acpi_rsdp_v1 = 0;
  mb_acpi_rsdp_v2 = 0;
}

two_entries : IsMemmap 2 bytes tags
two_entries = record { nonnull = omega arith; step = omega arith; size = refl }

start_two_entries :
    start_frame_alloc 3 0x400000 bytes tags []
    ≡ frame_alloc_init
        (reserved_end 0x400000 bytes tags)
        (map (memmap_entry bytes) (2016 ∷ 2040 ∷ []))
        []
        0
start_two_entries =
    start_frame_alloc-entries_from 2 3 0x400000 bytes tags [] two_entries (omega arith)
