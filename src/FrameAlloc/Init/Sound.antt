-- ===== src/FrameAlloc/Init/Sound.antt =====
-- The zones that `zone_add` of mm/frame_alloc.c lays out are what `zone_alloc` takes.
use heaven_os.Prelude.{
  ℕ, zero, suc, ◌+◌, ◌-◌, ◌*◌, ◌/◌, ◌%◌, ◌^◌, ◌≤◌, ◌<◌, ◌≡◌, ap, subst, arith, inl, inr, Bool-cases,
  ◌==◌, ltb, update, some, List, [], ◌∷◌, ◌++◌,
}
use native.Mathlib.Nat.{div-le_self}
use heaven_os.Memory.{page_size, div_round_up}
use heaven_os.FrameAlloc.{Zone, max_order, kassert-eq-some, push, sub64, mask_low}
use heaven_os.FrameAlloc.Geometry.{size}
use heaven_os.FrameAlloc.Cover.{within, cover, cover_below, hits, cover-push}
use heaven_os.FrameAlloc.Invariant.{IsSound, IsLoose, push-IsSound}
use heaven_os.FrameAlloc.Zones.Serve.{Ready}
use heaven_os.FrameAlloc.Init.{
  set_bitmaps, link_blocks, empty_zone, order_bitmap_size, bitmap_pages, required_bitmap_size,
  zone_start, zone_end, zone_pages, zone_add,
}
use heaven_os.FrameAlloc.Init.Bitmaps.{
  added, zone_add-added, append-last, added-fields, added-IsZone, round_down-aligned,
}

-- Where the bitmaps end below 2 ^ 64, none of them is at NULL.
set_bitmaps-pos :
    (left i ptr size reserved : ℕ) (bitmap result : ℕ → ℕ)
    → 0 < ptr
    → ptr + left * size < 2 ^ 64
    → ((j : ℕ) → j < i → 0 < bitmap j)
    → set_bitmaps left i ptr size reserved bitmap ≡ some result
    → (j : ℕ) → j < i + left
    → 0 < result j
unfolding set_bitmaps
set_bitmaps-pos zero i ptr size reserved bitmap result pos fits below e j lt =
    let same : bitmap ≡ result = cc in rw (← same) (below j (omega arith))
set_bitmaps-pos (suc left) i ptr size reserved bitmap result pos fits below e j lt =
    set_bitmaps-pos left (i + 1) ((ptr + size) % 2 ^ 64) size reserved (update bitmap i ptr) result
      (omega arith) (omega arith)
      (λ h hlt. elim (Bool-cases (i == h)) [
        | inl eq ↦ rw eq pos
        | inr ne ↦ rw ne (below h (ground (arith, ne)))
      ])
      (kassert-eq-some _ e).1 j (omega arith)

empty-IsSound : (z : Zone) → IsSound z (λ _. [])
unfolding cover cover_below hits
empty-IsSound z = record { blocks = λ k b le h. absurd (omega arith); once = λ a. omega arith }

empty-cover : (s a : ℕ) → cover (λ _. []) a ≡ within s 0 a
unfolding cover cover_below hits
empty-cover s a = ground arith

-- The first `i` blocks of the zone are free, and no others.
abbrev Filled : ℕ → Zone → Type 0
Filled i z = (a : ℕ) → cover z.free a ≡ within z.start_addr (i * 0x400000) a

next-IsLoose :
    (i : ℕ) (z : Zone)
    → z.start_addr % 0x400000 ≡ 0
    → z.start_addr + (i + 1) * 0x400000 ≤ z.end_addr
    → Filled i z
    → IsLoose z z.free max_order (z.start_addr + i * 2 ^ max_order * page_size)
unfolding size
next-IsLoose i z aligned fits filled = record {
  low = omega arith;
  aligned = omega arith;
  inside = (omega arith, omega arith);
  clear = λ a. ground (arith, filled a);
}

next-Filled :
    (i : ℕ) (z : Zone)
    → Filled i z
    → Filled (i + 1) (push max_order (z.start_addr + i * 2 ^ max_order * page_size) z)
unfolding size
next-Filled i z filled a = ground (
  arith,
  filled a,
  cover-push z.free max_order (omega arith) (z.start_addr + i * 2 ^ max_order * page_size) a,
)

link_blocks-IsSound :
    (left i : ℕ) (z : Zone)
    → z.start_addr % 0x400000 ≡ 0
    → z.start_addr + (i + left) * 0x400000 ≤ z.end_addr
    → Filled i z
    → IsSound z z.free
    → IsSound (link_blocks left i z) (link_blocks left i z).free
unfolding link_blocks
link_blocks-IsSound zero i z aligned fits filled sound = sound
link_blocks-IsSound (suc left) i z aligned fits filled sound =
    let b = z.start_addr + i * 2 ^ max_order * page_size in
    let loose = next-IsLoose i z aligned (omega arith) filled in
    let pushed = push-IsSound sound max_order b loose in
    link_blocks-IsSound left (i + 1) (push max_order b z) aligned (omega arith)
      (next-Filled i z filled) (record { blocks = pushed.blocks; once = pushed.once })

-- The blocks of the highest order between two ends that are aligned to them.
blocks_fit :
    (start end : ℕ)
    → start % 0x400000 ≡ 0
    → end % 0x400000 ≡ 0
    → start ≤ end
    → end < 2 ^ 64
    → start + (0 + sub64 end start / page_size / 2 ^ max_order) * 0x400000 ≤ end
blocks_fit start end first last le fits =
    let total : sub64 end start ≡ end - start = omega arith in rw total (omega arith)

-- The bitmaps take fewer pages than the region has.
required-le :
    (left i pages acc : ℕ) → required_bitmap_size left i pages acc ≤ acc + left * (pages + 1)
unfolding required_bitmap_size
required-le zero i pages acc = omega arith
required-le (suc left) i pages acc =
    let half : pages / 2 ^ i / 2 ≤ pages =
      omega (arith, div-le_self (pages / 2 ^ i) 2, div-le_self pages (2 ^ i)) in
    omega (arith, half, required-le left (i + 1) pages (acc + div_round_up (pages / 2 ^ i / 2) 8))

bitmap_pages-le : (pages : ℕ) → 1024 < pages → bitmap_pages pages ≤ pages
bitmap_pages-le pages large = omega (arith, required-le (max_order + 1) 0 pages 0)

module _ (addr pages : ℕ) (large : 1024 < pages)
    (below : addr + pages * page_size + 2 ^ 24 < 2 ^ 64) where
  start-le : zone_start addr pages ≤ addr + page_size * bitmap_pages pages + 0x400000
  start-le = omega (arith, bitmap_pages-le pages large)

  zone_end-le : zone_start addr pages ≤ zone_end addr pages
  zone_end-le =
      let aligned : zone_start addr pages % 0x400000 ≡ 0 = unfold size in round_down-aligned _ in
      let few = bitmap_pages-le pages large in
      let s = zone_start addr pages in
      let left : sub64 pages (bitmap_pages pages) ≡ pages - bitmap_pages pages = omega arith in
      let kept : s + (pages - bitmap_pages pages) * page_size < 2 ^ 64 = omega (arith, start-le) in
      rw left (omega (arith, aligned, kept))

  zone_pages-le : zone_pages addr pages ≤ pages
  zone_pages-le =
      let few = bitmap_pages-le pages large in
      let s = zone_start addr pages in
      let left : sub64 pages (bitmap_pages pages) ≡ pages - bitmap_pages pages = omega arith in
      let kept : s + (pages - bitmap_pages pages) * page_size < 2 ^ 64 = omega (arith, start-le) in
      let ends : zone_end addr pages ≤ s + pages * page_size = rw left (omega (arith, kept)) in
      let dist : sub64 (zone_end addr pages) s ≡ zone_end addr pages - s =
        omega (arith, zone_end-le, ends, start-le) in
      rw dist (omega (arith, ends))

  bitmaps_fit : addr + max_order * order_bitmap_size (zone_pages addr pages) < 2 ^ 64
  bitmaps_fit = omega (arith, zone_pages-le)

zone_add-large :
    (zones : List Zone) (addr pages : ℕ) {r : List Zone × ℕ}
    → zone_add zones addr pages ≡ some r
    → 1024 < pages
unfolding zone_add
zone_add-large zones addr pages e =
    let a = kassert-eq-some (mask_low 12 addr == addr) e in
    let b = kassert-eq-some (ltb (2 ^ max_order) pages) a.1 in ground (arith, b.0)

-- If `zone_add` of a region that does not start at NULL and ends 16 MB below 2 ^ 64 returns, then the zone
-- that it appends is `Ready` for `zone_alloc`: it is aligned, has a bitmap for each order below the
-- highest, and its free blocks are aligned, lie in the zone and do not overlap.
pub zone_add-Ready :
    (zones : List Zone) (addr pages : ℕ) {z : Zone} {n : ℕ}
    → zone_add zones addr pages ≡ some (zones ++ z ∷ [], n)
    → 0 < addr
    → addr + pages * page_size + 2 ^ 24 < 2 ^ 64
    → Ready z
zone_add-Ready zones addr pages {z} {n} e pos below =
    let big = zone_add-large zones addr pages e in
    let (bitmap, runs, whole, count) = zone_add-added zones addr pages e in
    let same = append-last zones whole in
    let (maps, from, to) = added-fields addr pages bitmap same in
    let zone = added-IsZone addr pages bitmap same in
    let first : zone_start addr pages % 0x400000 ≡ 0 = unfold size in round_down-aligned _ in
    let last : zone_end addr pages % 0x400000 ≡ 0 = unfold size in round_down-aligned _ in
    let room =
      blocks_fit (zone_start addr pages) (zone_end addr pages) first last
        (zone_end-le addr pages big below) (omega arith) in
    let small = bitmaps_fit addr pages big below in
    let empty = empty_zone addr pages bitmap in
    let made : IsSound (added addr pages bitmap) (added addr pages bitmap).free =
      unfold added in
      link_blocks-IsSound (zone_pages addr pages / 2 ^ max_order) 0 empty first room
        (empty-cover empty.start_addr) (empty-IsSound empty) in
    (
      record {
        zone = zone;
        nonnull = λ k low null.
            let there =
              set_bitmaps-pos max_order 0 addr (order_bitmap_size (zone_pages addr pages))
                (bitmap_pages pages) (λ _. 0) bitmap pos small (λ j lt. absurd (omega arith)) runs k
                low in
            let at : bitmap k ≡ z.bitmap k = ap (λ (b : ℕ → ℕ). b k) maps in
            absurd (omega (arith, there, at, null));
      },
      subst (λ (x : Zone). IsSound x x.free) same made,
    )
