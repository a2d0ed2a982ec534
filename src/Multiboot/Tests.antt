-- ===== src/Multiboot/Tests.antt =====
-- The theorems on kernel/multiboot.c at concrete boot information.
use heaven_os.Prelude.{◌≡◌, ◌==◌, if◌then◌else◌, refl, arith, some, [], ◌∷◌}
use heaven_os.Memory.{Bytes}
use heaven_os.Multiboot.{Multiboot, mb_parse_boot_info}
use heaven_os.Multiboot.Tags.{Tags, last, more, Parsed, mb_parse_boot_info-Parsed}
use heaven_os.Multiboot.Iter.{IsMemmap}

-- The boot information at 1000 has a tag of 9 bytes for the framebuffer and the end tag. The memory map
-- at 2000 has two entries of 24 bytes.
abbrev boot_info : Bytes
boot_info a =
    if a == 100
    then 232
    else if a == 101
    then 3
    else if a == 1008
    then 8
    else if a == 1012
    then 9
    else if a == 2004
    then 64
    else if a == 2008
    then 24
    else 0

abbrev unset : Multiboot
unset = record {
  mb_boot_info = 0;
  mb_fb_info = 0;
  mb_memmap_info = 2000;
  mb_acpi_rsdp_v1 = 0;
  mb_acpi_rsdp_v2 = 0;
}

one_tag : Tags boot_info 1008 (1008 ∷ [])
one_tag = more 1008 [] (omega arith) (last 1024 refl)

mb_parse_boot_info-Parsed_example :
    (mb' : Multiboot) × (mb_parse_boot_info 2 100 boot_info unset ≡ some mb')
    × Parsed boot_info (1008 ∷ []) (record unset { mb_boot_info = 1000 }) mb'
mb_parse_boot_info-Parsed_example =
    mb_parse_boot_info-Parsed 2 100 (1008 ∷ []) boot_info unset (omega arith) one_tag (omega arith)

two_entries : IsMemmap 2 boot_info unset
two_entries = record { nonnull = omega arith; step = omega arith; size = refl }
