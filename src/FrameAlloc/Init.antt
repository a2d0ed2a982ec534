-- ===== src/FrameAlloc/Init.antt =====
-- mm/frame_alloc.c: `zone_add`, which lays a zone out in a region of memory, and
-- `frame_alloc_init`, which chooses the regions from the Multiboot memory map.
pub mod Bitmaps
pub mod Sound
pub mod Chain
pub mod Regions
use heaven_os.Prelude.{
  ℕ, zero, suc, ◌+◌, ◌-◌, ◌*◌, ◌/◌, ◌%◌, ◌^◌, Bool, true, false, ltb, leb, ◌==◌, ◌||◌,
  if◌then◌else◌, update, length, Option, none, some, List, [], ◌∷◌, ◌++◌,
}
use heaven_os.Memory.{page_size, round_up, round_down, div_round_up}
use heaven_os.FrameAlloc.{
  Zone, max_order, max_zone_count, kassert, ◌>>=◌, ◌>>◌, mask_low, sub64, push,
}

-- The size in bytes of a block of the highest order.
abbrev pub max_block : ℕ
max_block = page_size * 2 ^ max_order

-- The bytes of the bitmaps of `left` orders from `i` on, as the source estimates them.
unfoldable pub required_bitmap_size : ℕ → ℕ → ℕ → ℕ → ℕ
required_bitmap_size zero i pages acc = acc
required_bitmap_size (suc left) i pages acc =
    required_bitmap_size left (i + 1) pages (acc + div_round_up (pages / 2 ^ i / 2) 8)

abbrev pub bitmap_pages : ℕ → ℕ
bitmap_pages pages = div_round_up (required_bitmap_size (max_order + 1) 0 pages 0) page_size

-- The size of every order's bitmap. The source divides by the highest order's block size whatever
-- the order.
abbrev pub order_bitmap_size : ℕ → ℕ
order_bitmap_size pages = div_round_up (pages / 2 ^ max_order / 2) 8

-- The loop that hands out the bitmaps of `left` orders from `i` on, at `ptr`.
unfoldable pub set_bitmaps : ℕ → ℕ → ℕ → ℕ → ℕ → (ℕ → ℕ) → Option (ℕ → ℕ)
set_bitmaps zero i ptr size reserved bitmap = some bitmap
set_bitmaps (suc left) i ptr size reserved bitmap = do
  kassert (ltb ((ptr + size) % 2 ^ 64) (((ptr + size) % 2 ^ 64 + reserved * page_size) % 2 ^ 64))
  set_bitmaps left (i + 1) ((ptr + size) % 2 ^ 64) size reserved (update bitmap i ptr)

-- The loop that links in `left` blocks of the highest order from block `i` on.
unfoldable pub link_blocks : ℕ → ℕ → Zone → Zone
link_blocks zero i zone = zone
link_blocks (suc left) i zone =
    link_blocks left (i + 1) (push max_order (zone.start_addr + i * 2 ^ max_order * page_size) zone)

-- The ends of the zone that is laid out in `pages` pages from `addr` on.
abbrev pub zone_start : ℕ → ℕ → ℕ
zone_start addr pages = round_up (addr + page_size * bitmap_pages pages) max_block

abbrev pub zone_end : ℕ → ℕ → ℕ
zone_end addr pages =
    round_down ((zone_start addr pages + sub64 pages (bitmap_pages pages) * page_size) % 2 ^ 64)
      max_block

abbrev pub zone_pages : ℕ → ℕ → ℕ
zone_pages addr pages = sub64 (zone_end addr pages) (zone_start addr pages) / page_size

-- The zone before any block is linked in.
abbrev pub empty_zone : ℕ → ℕ → (ℕ → ℕ) → Zone
empty_zone addr pages bitmap = record {
  free = λ _. [];
  bitmap = bitmap;
  start_addr = zone_start addr pages;
  end_addr = zone_end addr pages;
  pages_count = zone_pages addr pages;
}

unfoldable pub zone_add : List Zone → ℕ → ℕ → Option (List Zone × ℕ)
zone_add zones addr pages = do
  kassert (mask_low 12 addr == addr)
  kassert (ltb (2 ^ max_order) pages)
  kassert (ltb (length zones) max_zone_count)
  bitmap ←
      set_bitmaps max_order 0 addr (order_bitmap_size (zone_pages addr pages)) (bitmap_pages pages)
        (λ _. 0)
  some (
    zones
        ++ link_blocks (zone_pages addr pages / 2 ^ max_order) 0 (empty_zone addr pages bitmap)
          ∷ [],
    zone_pages addr pages,
  )

-- An entry of the Multiboot memory map.
pub record MemmapEntry : Type 0 where
  pub base_addr : ℕ
  pub length : ℕ
  pub type : ℕ

abbrev pub phys_to_virt : ℕ → ℕ
phys_to_virt addr = (0xffff888000000000 + addr) % 2 ^ 64

-- Too small regions are ignored.
abbrev large_region : ℕ → ℕ → Option (ℕ × ℕ)
large_region base pages = if ltb pages (2 ^ max_order) then none else some (base, pages)

-- The region of an entry that `frame_alloc_init` hands to `zone_add`, if any: its start and pages.
abbrev pub usable_region : ℕ → MemmapEntry → Option (ℕ × ℕ)
usable_region reserved_end entry =
    if (entry.type == 1) || (entry.type == 4)
    then (let base = round_up (phys_to_virt entry.base_addr) page_size in
        let pages = entry.length / page_size in
        if ltb base reserved_end
        then (if leb ((base + pages * page_size) % 2 ^ 64) reserved_end
            then none
            else large_region reserved_end (pages - (reserved_end - base) / page_size))
        else large_region base pages)
    else none

-- The loop over the memory map: the zones, and the number of frames.
abbrev pub frame_alloc_init : ℕ → List MemmapEntry → List Zone → ℕ → Option (List Zone × ℕ)
frame_alloc_init reserved_end [] zones pgcnt = some (zones, pgcnt)
frame_alloc_init reserved_end (entry ∷ rest) zones pgcnt = elim (usable_region reserved_end entry) [
  | none ↦ frame_alloc_init reserved_end rest zones pgcnt
  | some (base, pages) ↦ do
    (zones, n) ← zone_add zones base pages
    frame_alloc_init reserved_end rest zones (pgcnt + n)
]
