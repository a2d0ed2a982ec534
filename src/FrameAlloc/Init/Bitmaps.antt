-- ===== src/FrameAlloc/Init/Bitmaps.antt =====
-- The bitmaps of `zone_add` of mm/frame_alloc.c overlap.
use heaven_os.Prelude.{
  ℕ, zero, suc, ◌+◌, ◌-◌, ◌*◌, ◌/◌, ◌%◌, ◌^◌, ◌≤◌, ◌<◌, ◌≡◌, refl, ap, ap₂, sym, ◌∙◌, arith, ltb,
  ◌==◌, update, some, List, [], ◌∷◌, ◌++◌, length,
}
use heaven_os.Memory.{page_size}
use heaven_os.FrameAlloc.{
  Zone, max_order, max_zone_count, kassert-eq-some, bind-eq-some, push, byte_addr, mask_low, sub64,
}
use heaven_os.FrameAlloc.Geometry.{size, block_in, IsZone, In}
use heaven_os.FrameAlloc.Init.{
  set_bitmaps, link_blocks, empty_zone, order_bitmap_size, bitmap_pages, zone_start, zone_end,
  zone_pages, zone_add,
}

-- The loop leaves the bitmaps of the orders that it has passed.
set_bitmaps-below :
    (left i ptr size reserved : ℕ) (bitmap result : ℕ → ℕ) (j : ℕ)
    → j < i
    → set_bitmaps left i ptr size reserved bitmap ≡ some result
    → result j ≡ bitmap j
unfolding set_bitmaps
set_bitmaps-below zero i ptr size reserved bitmap result j lt e = ground arith
set_bitmaps-below (suc left) i ptr size reserved bitmap result j lt e =
    set_bitmaps-below left (i + 1) ((ptr + size) % 2 ^ 64) size reserved (update bitmap i ptr)
      result j (omega arith) (kassert-eq-some _ e).1
    ∙ ground arith

-- The first two bitmaps are `size` bytes apart.
set_bitmaps-first :
    (left ptr size reserved : ℕ) (bitmap result : ℕ → ℕ)
    → set_bitmaps (suc (suc left)) 0 ptr size reserved bitmap ≡ some result
    → (result 0 ≡ ptr) × (result 1 ≡ (ptr + size) % 2 ^ 64)
unfolding set_bitmaps
set_bitmaps-first left ptr size reserved bitmap result e =
    let next = (ptr + size) % 2 ^ 64 in
    let later = (next + size) % 2 ^ 64 in
    let maps = update (update bitmap 0 ptr) 1 next in
    let one : set_bitmaps (suc left) 1 next size reserved (update bitmap 0 ptr) ≡ some result =
      (kassert-eq-some _ e).1 in
    let two : set_bitmaps left 2 later size reserved maps ≡ some result =
      (kassert-eq-some _ one).1 in
    (
      set_bitmaps-below left 2 later size reserved maps result 0 (omega arith) two,
      set_bitmaps-below left 2 later size reserved maps result 1 (omega arith) two,
    )

-- Linking blocks in changes nothing but the free lists.
link_blocks-fixed :
    (left i : ℕ) (z : Zone)
    → ((link_blocks left i z).bitmap ≡ z.bitmap)
      × ((link_blocks left i z).start_addr ≡ z.start_addr)
      × ((link_blocks left i z).end_addr ≡ z.end_addr)
unfolding link_blocks
link_blocks-fixed zero i z = (refl, refl, refl)
link_blocks-fixed (suc left) i z =
    link_blocks-fixed left (i + 1) (push max_order (z.start_addr + i * 2 ^ max_order * page_size) z)

-- The zone that `zone_add` appends.
unfoldable pub added : ℕ → ℕ → (ℕ → ℕ) → Zone
added addr pages bitmap =
    link_blocks (zone_pages addr pages / 2 ^ max_order) 0 (empty_zone addr pages bitmap)

pub zone_add-added :
    (zones : List Zone) (addr pages : ℕ) {zs : List Zone} {n : ℕ}
    → zone_add zones addr pages ≡ some (zs, n)
    → (bitmap : ℕ → ℕ) × (set_bitmaps max_order 0 addr
          (order_bitmap_size (zone_pages addr pages))
          (bitmap_pages pages)
          (λ _. 0)
        ≡ some bitmap)
      × (zones ++ added addr pages bitmap ∷ [] ≡ zs)
      × (zone_pages addr pages ≡ n)
unfolding added zone_add
zone_add-added zones addr pages e =
    let a = kassert-eq-some (mask_low 12 addr == addr) e in
    let b = kassert-eq-some (ltb (2 ^ max_order) pages) a.1 in
    let c = kassert-eq-some (ltb (length zones) max_zone_count) b.1 in
    let d =
      bind-eq-some
        (set_bitmaps max_order 0 addr (order_bitmap_size (zone_pages addr pages))
          (bitmap_pages pages) (λ _. 0))
        c.1 in
    let (bitmap, runs, ends) = d in (bitmap, runs, cc, cc)

pub append-last : (zones : List Zone) {y z : Zone} → zones ++ y ∷ [] ≡ zones ++ z ∷ [] → y ≡ z
append-last [] e = cc
append-last (x ∷ zones) e = append-last zones cc

-- The fields of the zone that `zone_add` appends.
pub added-fields :
    (addr pages : ℕ) (bitmap : ℕ → ℕ) {z : Zone}
    → added addr pages bitmap ≡ z
    → (bitmap ≡ z.bitmap)
      × (zone_start addr pages ≡ z.start_addr)
      × (zone_end addr pages ≡ z.end_addr)
unfolding added
added-fields addr pages bitmap {z} e =
    let f =
      link_blocks-fixed (zone_pages addr pages / 2 ^ max_order) 0 (empty_zone addr pages bitmap) in
    (
      sym f.0 ∙ ap (λ (z : Zone). z.bitmap) e,
      sym f.1 ∙ ap (λ (z : Zone). z.start_addr) e,
      sym f.2 ∙ ap (λ (z : Zone). z.end_addr) e,
    )

-- A multiple of the highest block size, which is what `ROUNDDOWN` makes.
pub round_down-aligned : (a : ℕ) → (a - a % 0x400000) % size max_order ≡ 0
unfolding size
round_down-aligned a = omega arith

-- The ends of the zone are aligned and fit into 64 bits.
pub added-IsZone :
    (addr pages : ℕ) (bitmap : ℕ → ℕ) {z : Zone}
    → added addr pages bitmap ≡ z
    → IsZone z.start_addr z.end_addr
added-IsZone addr pages bitmap {z} e =
    let (maps, from, to) = added-fields addr pages bitmap e in
    record {
      start_aligned = rw (← from) (round_down-aligned _);
      end_aligned = rw (← to) (round_down-aligned _);
      fits = rw (← to) (omega arith);
    }

-- A byte that stands in the bitmaps of the two lowest orders: it has the bits of a page and of a
-- block of two pages of the zone.
pub record Shared (z : Zone) : Type 0 where
  pub page : ℕ
  pub two_pages : ℕ
  pub page_aligned : page % size 0 ≡ 0
  pub two_pages_aligned : two_pages % size 1 ≡ 0
  pub page_inside : In z.start_addr z.end_addr page
  pub two_pages_inside : In z.start_addr z.end_addr two_pages
  pub same_byte : byte_addr z 0 page ≡ byte_addr z 1 two_pages

-- Two bitmaps as close as the source puts them have a byte in common.
bitmaps_meet :
    (z : Zone) (addr n : ℕ)
    → IsZone z.start_addr z.end_addr
    → z.start_addr < z.end_addr
    → sub64 z.end_addr z.start_addr / page_size ≡ n
    → addr + order_bitmap_size n < 2 ^ 64
    → z.bitmap 0 ≡ addr
    → z.bitmap 1 ≡ (addr + order_bitmap_size n) % 2 ^ 64
    → Shared z
bitmaps_meet z addr n zone lt pages fits first second =
    let s = order_bitmap_size n in
    let big : z.start_addr + size max_order ≤ z.end_addr =
      block_in zone max_order z.start_addr (omega arith) (omega arith, lt) zone.start_aligned in
    let big' : z.start_addr + 0x400000 ≤ z.end_addr = unfold size in big in
    let aligned : z.start_addr % 0x400000 ≡ 0 = unfold size in zone.start_aligned in
    let total : sub64 z.end_addr z.start_addr ≡ z.end_addr - z.start_addr =
      omega (arith, zone.fits) in
    let small : 65536 * s < z.end_addr - z.start_addr = omega arith in
    let a = z.start_addr + 65536 * s in
    let dist : sub64 a z.start_addr ≡ 65536 * s = omega (arith, zone.fits) in
    let one : byte_addr z 0 a ≡ addr + s = rw (first, dist) (omega arith) in
    let none' : sub64 z.start_addr z.start_addr ≡ 0 = omega (arith, zone.fits) in
    let two : byte_addr z 1 z.start_addr ≡ addr + s = rw (second, none') (omega arith) in
    record {
      page = a;
      two_pages = z.start_addr;
      page_aligned = unfold size in omega (arith, aligned);
      two_pages_aligned = unfold size in omega (arith, aligned);
      page_inside = (omega arith, omega arith);
      two_pages_inside = (omega arith, lt);
      same_byte = one ∙ sym two;
    }

-- If `zone_add` returns, and the zone that it appends ends after it starts and the first bitmap ends
-- below 2 ^ 64, then the bitmaps of the two lowest orders share a byte: one byte has the bit of a page
-- and the bit of a block of two pages of the zone.
pub zone_add-overlap :
    (zones : List Zone) (addr pages : ℕ) {z : Zone} {n : ℕ}
    → zone_add zones addr pages ≡ some (zones ++ z ∷ [], n)
    → z.start_addr < z.end_addr
    → addr + order_bitmap_size n < 2 ^ 64
    → Shared z
zone_add-overlap zones addr pages {z} {n} e lt fits =
    let (bitmap, runs, whole, count) = zone_add-added zones addr pages e in
    let same = append-last zones whole in
    let (maps, from, to) = added-fields addr pages bitmap same in
    let pair =
      set_bitmaps-first 8 addr (order_bitmap_size (zone_pages addr pages)) (bitmap_pages pages)
        (λ _. 0) bitmap runs in
    let counted : sub64 z.end_addr z.start_addr / page_size ≡ n =
      ap₂ (λ (t f : ℕ). sub64 t f / page_size) (sym to) (sym from) ∙ count in
    bitmaps_meet z addr n (added-IsZone addr pages bitmap same) lt counted fits
      (ap (λ (b : ℕ → ℕ). b 0) (sym maps) ∙ pair.0)
      (ap (λ (b : ℕ → ℕ). b 1) (sym maps)
        ∙ pair.1
        ∙ ap (λ (p : ℕ). (addr + order_bitmap_size p) % 2 ^ 64) count)
