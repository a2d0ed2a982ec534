-- ===== src/Multiboot.antt =====
-- kernel/multiboot.c: the boot information in the bytes of memory. The pointers to its tags are 0 when
-- they are not set. `none` is a panic, or a loop over tags whose fuel has run out.
pub mod Tags
pub mod Iter
mod Tests
use heaven_os.Prelude.{
  ℕ, zero, suc, ◌+◌, ◌*◌, ◌/◌, not, leb, ◌==◌, if◌then◌else◌, Option, none, some, List, [], ◌∷◌,
}
use heaven_os.Memory.{Bytes, page_size, round_up, div_round_up}
use heaven_os.Memory.Words.{load32, load64}
use heaven_os.FrameAlloc.{kassert, ◌>>=◌, ◌>>◌}
use heaven_os.FrameAlloc.Init.{MemmapEntry}

abbrev pub mb_tag_alignment : ℕ
mb_tag_alignment = 8

abbrev pub mb_tag_end : ℕ
mb_tag_end = 0

abbrev pub mb_tag_memmap : ℕ
mb_tag_memmap = 6

abbrev pub mb_tag_fb : ℕ
mb_tag_fb = 8

abbrev pub mb_tag_rsdp_v1 : ℕ
mb_tag_rsdp_v1 = 14

abbrev pub mb_tag_rsdp_v2 : ℕ
mb_tag_rsdp_v2 = 15

-- The global pointers.
pub record Multiboot : Type 0 where
  pub mb_boot_info : ℕ
  pub mb_fb_info : ℕ
  pub mb_memmap_info : ℕ
  pub mb_acpi_rsdp_v1 : ℕ
  pub mb_acpi_rsdp_v2 : ℕ

-- `sizeof(mb_boot_info_header_t)`
abbrev pub boot_info_header_size : ℕ
boot_info_header_size = 8

-- The fields of a `mb_tag_header_t`.
abbrev pub tag_type : Bytes → ℕ → ℕ
tag_type m tag = load32 m tag

abbrev pub tag_size : Bytes → ℕ → ℕ
tag_size m tag = load32 m (tag + 4)

abbrev pub next_tag : Bytes → ℕ → ℕ
next_tag m iter = round_up (iter + tag_size m iter) mb_tag_alignment

-- The switch on the type of a tag; the end tag is left to the loop.
abbrev pub keep_tag : ℕ → ℕ → Multiboot → Multiboot
keep_tag type curr_tag mb =
    if type == mb_tag_memmap
    then record mb { mb_memmap_info = curr_tag }
    else if type == mb_tag_fb
    then record mb { mb_fb_info = curr_tag }
    else if type == mb_tag_rsdp_v1
    then record mb { mb_acpi_rsdp_v1 = curr_tag }
    else if type == mb_tag_rsdp_v2
    then record mb { mb_acpi_rsdp_v2 = curr_tag }
    else mb

-- The loop over the tags on fuel.
pub tag_loop : ℕ → ℕ → Bytes → Multiboot → Option Multiboot
tag_loop zero iter m mb = none
tag_loop (suc fuel) iter m mb =
    let rest = tag_loop fuel (next_tag m iter) m (keep_tag (tag_type m iter) iter mb) in
    if tag_type m iter == mb_tag_end then some mb else rest

-- `early_data` is the address of a structure whose only field is a pointer.
pub mb_parse_boot_info : ℕ → ℕ → Bytes → Multiboot → Option Multiboot
mb_parse_boot_info fuel early_data m mb = do
  kassert (not (early_data == 0))
  let mb_boot_info = load64 m early_data
  tag_loop fuel (mb_boot_info + boot_info_header_size) m (record mb { mb_boot_info = mb_boot_info })

-- The fields of a `mb_memmap_info_t` behind its header, and its size.
abbrev pub memmap_info_size : ℕ
memmap_info_size = 16

abbrev pub entry_size : Bytes → ℕ → ℕ
entry_size m memmap_info = load32 m (memmap_info + 8)

-- The fields of a `mb_memmap_entry_t`.
abbrev pub memmap_entry : Bytes → ℕ → MemmapEntry
memmap_entry m entry = record {
  base_addr = load64 m entry;
  length = load64 m (entry + 8);
  type = load32 m (entry + 16);
}

-- An iterator is its only field, `curr_entry`.
abbrev pub mb_memmap_iter_init : Multiboot → Option ℕ
mb_memmap_iter_init mb = do
  kassert (not (mb.mb_memmap_info == 0))
  some (mb.mb_memmap_info + memmap_info_size)

-- The entry, or 0 for NULL, and the iterator.
pub mb_memmap_iter_next : ℕ → Bytes → Multiboot → ℕ × ℕ
mb_memmap_iter_next curr_entry m mb =
    if leb (mb.mb_memmap_info + tag_size m mb.mb_memmap_info) curr_entry
    then (0, curr_entry)
    else (curr_entry, curr_entry + entry_size m mb.mb_memmap_info)

-- `while ((entry = mb_memmap_iter_next(&it)) != NULL)` on fuel: the entries that its body sees.
pub memmap_loop : ℕ → ℕ → Bytes → Multiboot → Option (List ℕ)
memmap_loop zero curr_entry m mb = none
memmap_loop (suc fuel) curr_entry m mb =
    let (entry, curr_entry') = mb_memmap_iter_next curr_entry m mb in
    let rest = memmap_loop fuel curr_entry' m mb in
    if entry == 0 then some [] else (do entries ← rest; some (entry ∷ entries))

pub record MemRegion : Type 0 where
  pub start : ℕ
  pub end : ℕ

abbrev pub mb_memory_region : Bytes → Multiboot → MemRegion
mb_memory_region m mb = record {
  start = mb.mb_boot_info;
  end = mb.mb_boot_info + div_round_up (load32 m mb.mb_boot_info) page_size * page_size;
}
