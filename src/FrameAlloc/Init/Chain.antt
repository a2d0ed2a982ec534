-- ===== src/FrameAlloc/Init/Chain.antt =====
-- `frame_alloc_init` of mm/frame_alloc.c hands only zones to the allocator that it can work with.
use heaven_os.Prelude.{
  ℕ, ◌+◌, ◌-◌, ◌*◌, ◌/◌, ◌%◌, ◌^◌, ◌≤◌, ◌<◌, ◌≡◌, ◌==◌, ◌||◌, inl, inr, subst, arith, ltb, leb,
  Bool-cases, Option-cases, Option, some, none, List, [], ◌∷◌, ◌++◌,
}
use heaven_os.Memory.{page_size, round_up}
use heaven_os.FrameAlloc.{Zone, max_order, bind-eq-some}
use heaven_os.FrameAlloc.Zones.Serve.{All, Ready}
use heaven_os.FrameAlloc.Init.{MemmapEntry, phys_to_virt, usable_region, zone_add, frame_alloc_init}
use heaven_os.FrameAlloc.Init.Bitmaps.{added, zone_add-added}
use heaven_os.FrameAlloc.Init.Sound.{zone_add-Ready}

-- The entry lies 32 MB below the end of the addresses in the direct mapping.
abbrev pub Mappable : MemmapEntry → Type 0
Mappable entry = 0xffff888000000000 + entry.base_addr + entry.length + 2 ^ 25 < 2 ^ 64

abbrev pub AllMappable : List MemmapEntry → Type 0
AllMappable [] = Unit
AllMappable (entry ∷ rest) = Mappable entry × AllMappable rest

-- A region that `zone_add-Ready` takes.
abbrev Fits : Option (ℕ × ℕ) → Type 0
Fits none = Unit
Fits (some (base, pages)) = (0 < base) × (base + pages * page_size + 2 ^ 24 < 2 ^ 64)

usable_region-Fits :
    (reserved_end : ℕ) (entry : MemmapEntry)
    → Mappable entry
    → Fits (usable_region reserved_end entry)
usable_region-Fits reserved_end entry ok =
    let v = round_up (phys_to_virt entry.base_addr) page_size in
    let lo : 0 < v = omega (arith, ok) in
    let hi : v ≤ 0xffff888000000000 + entry.base_addr + 4096 = omega (arith, ok) in
    let pages = entry.length / page_size in
    let cut = pages - (reserved_end - v) / page_size in
    elim (Bool-cases ((entry.type == 1) || (entry.type == 4))) [
      | inr t ↦ rw t tt
      | inl t ↦ elim (Bool-cases (ltb v reserved_end)) [
        | inr b ↦ elim (Bool-cases (ltb pages (2 ^ max_order))) [
          | inl few ↦ rw (t, b, few) tt
          | inr enough ↦ rw (t, b, enough) (lo, omega (arith, hi, ok))
        ]
        | inl b ↦ elim (Bool-cases (leb ((v + pages * page_size) % 2 ^ 64) reserved_end)) [
          | inl gone ↦ rw (t, b, gone) tt
          | inr some_left ↦ elim (Bool-cases (ltb cut (2 ^ max_order))) [
            | inl few ↦ rw (t, b, some_left, few) tt
            | inr enough ↦
                rw (t, b, some_left, enough)
                  (ground (arith, b), ground (arith, b, some_left, hi, ok))
          ]
        ]
      ]
    ]

All-append :
    (P : Zone → Type 0) (zones : List Zone) (z : Zone) → All P zones → P z → All P (zones ++ z ∷ [])
All-append P [] z all here = (here, tt)
All-append P (y ∷ zones) z (first, all) here = (first, All-append P zones z all here)

zone_add-All :
    (zones zs : List Zone) (addr pages n : ℕ)
    → All Ready zones
    → (0 < addr) × (addr + pages * page_size + 2 ^ 24 < 2 ^ 64)
    → zone_add zones addr pages ≡ some (zs, n)
    → All Ready zs
zone_add-All zones zs addr pages n all (pos, below) e =
    let (bitmap, runs, whole, count) = zone_add-added zones addr pages e in
    let e' : zone_add zones addr pages ≡ some (zones ++ added addr pages bitmap ∷ [], n) =
      rw whole e in
    subst (All Ready) whole (
      All-append Ready zones (added addr pages bitmap) all
        (zone_add-Ready zones addr pages e' pos below))

-- If `frame_alloc_init` returns for entries that end 32 MB below the end of the direct mapping, from zones
-- that are `Ready` for `zone_alloc`, as none are at first, then all zones that it leaves are `Ready`.
pub frame_alloc_init-Ready :
    (reserved_end : ℕ) (entries : List MemmapEntry) (zones zs : List Zone) (pgcnt n : ℕ)
    → AllMappable entries
    → All Ready zones
    → frame_alloc_init reserved_end entries zones pgcnt ≡ some (zs, n)
    → All Ready zs
frame_alloc_init-Ready reserved_end [] zones zs pgcnt n ok all e =
    let same : zones ≡ zs = cc in subst (All Ready) same all
frame_alloc_init-Ready reserved_end (entry ∷ rest) zones zs pgcnt n (ok, oks) all e =
    elim (Option-cases (usable_region reserved_end entry)) [
      | inl gone ↦
          let ran = rw (gone, frame_alloc_init) at e in
          frame_alloc_init-Ready reserved_end rest zones zs pgcnt n oks all ran
      | inr ((base, pages), found) ↦
          let ran = rw (found, frame_alloc_init) at e in
          let fits : Fits (some (base, pages)) =
            subst Fits found (usable_region-Fits reserved_end entry ok) in
          let ((zones', m), made, later) = bind-eq-some (zone_add zones base pages) ran in
          frame_alloc_init-Ready reserved_end rest zones' zs (pgcnt + m) n oks
            (zone_add-All zones zones' base pages m all fits made) later
    ]
