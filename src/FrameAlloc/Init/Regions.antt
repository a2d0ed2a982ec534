-- ===== src/FrameAlloc/Init/Regions.antt =====
-- Which regions of memory `frame_alloc_init` of mm/frame_alloc.c makes zones of.
use heaven_os.Prelude.{
  ℕ, ◌+◌, ◌-◌, ◌*◌, ◌/◌, ◌%◌, ◌^◌, ◌≤◌, ◌<◌, ◌≡◌, ◌⊎◌, ◌==◌, ◌||◌, inl, inr, refl, arith, true,
  false, ltb, leb, Bool-cases, some, none, Option,
}
use heaven_os.Memory.{page_size, round_up}
use heaven_os.FrameAlloc.{max_order}
use heaven_os.FrameAlloc.Init.{MemmapEntry, phys_to_virt, usable_region}

-- The address at which the kernel sees the memory of an entry.
abbrev pub seen_at : MemmapEntry → ℕ
seen_at entry = phys_to_virt entry.base_addr

-- Pages of an entry of type RAM (1) or hibernation (4) that lie behind the reserved memory, as many of
-- them as there are, and at least as many as a block of the highest order has.
pub record Region (reserved_end : ℕ) (entry : MemmapEntry) (base pages : ℕ) : Type 0 where
  pub kind : (entry.type ≡ 1) ⊎ (entry.type ≡ 4)
  pub aligned : base % page_size ≡ 0
  pub behind : reserved_end ≤ base
  pub from : seen_at entry ≤ base
  pub first : (base ≡ reserved_end) ⊎ (base ≡ seen_at entry)
  pub to : base + pages * page_size ≤ seen_at entry + entry.length
  pub most : seen_at entry + entry.length < base + (pages + 1) * page_size
  pub large : 2 ^ max_order ≤ pages

-- The region that is chosen, or that there is none.
abbrev pub Chosen : ℕ → MemmapEntry → Option (ℕ × ℕ) → Type 0
Chosen reserved_end entry r =
    ((base : ℕ) × (pages : ℕ) × (r ≡ some (base, pages)) × Region reserved_end entry base pages)
    ⊎ ((r ≡ none) × ((base pages : ℕ) → ¬ Region reserved_end entry base pages))

module _ (reserved_end : ℕ) (entry : MemmapEntry) (r_aligned : reserved_end % 4096 ≡ 0)
    (e_aligned : entry.base_addr % 4096 ≡ 0)
    (fits : 0xffff888000000000 + entry.base_addr + entry.length + 4096 < 2 ^ 64) where
  rounded : round_up (seen_at entry) page_size ≡ seen_at entry
  rounded = omega arith

  kind-of : ((entry.type == 1) || (entry.type == 4)) ≡ true → (entry.type ≡ 1) ⊎ (entry.type ≡ 4)
  kind-of e = ground (arith, e)

  other_kind :
      ((entry.type == 1) || (entry.type == 4)) ≡ false
      → (base pages : ℕ) → ¬ Region reserved_end entry base pages
  other_kind e base pages r = ground (arith, e, r.kind)

  chosen : Chosen reserved_end entry (usable_region reserved_end entry)
  chosen =
      let v = seen_at entry in
      let pages = entry.length / page_size in
      let cut = pages - (reserved_end - v) / page_size in
      elim (Bool-cases ((entry.type == 1) || (entry.type == 4))) [
        | inr t ↦ rw t (inr (refl, other_kind t))
        | inl t ↦ elim (Bool-cases (ltb v reserved_end)) [
          | inr b ↦ elim (Bool-cases (ltb pages (2 ^ max_order))) [
            | inl few ↦
                rw (rounded, t, b, few)
                  (inr (refl, λ base n r. ground (arith, few, r.large, r.most, r.to, r.from)))
            | inr enough ↦
                rw (rounded, t, b, enough)
                  (inl (
                    v,
                    pages,
                    refl,
                    record {
                      kind = kind-of t;
                      aligned = omega arith;
                      behind = ground (arith, b);
                      from = omega arith;
                      first = inr refl;
                      to = omega arith;
                      most = omega arith;
                      large = ground (arith, enough);
                    },
                  ))
          ]
          | inl b ↦ elim (Bool-cases (leb ((v + pages * page_size) % 2 ^ 64) reserved_end)) [
            | inl gone ↦
                rw (rounded, t, b, gone)
                  (inr (refl, λ base n r. ground (arith, b, gone, r.large, r.behind, r.to)))
            | inr some_left ↦ elim (Bool-cases (ltb cut (2 ^ max_order))) [
              | inl few ↦
                  rw (rounded, t, b, some_left, few)
                    (inr (
                      refl,
                      λ base n r. ground (arith, b, some_left, few, r.large, r.behind, r.to),
                    ))
              | inr enough ↦
                  rw (rounded, t, b, some_left, enough)
                    (inl (
                      reserved_end,
                      cut,
                      refl,
                      record {
                        kind = kind-of t;
                        aligned = r_aligned;
                        behind = omega arith;
                        from = ground (arith, b);
                        first = inl refl;
                        to = ground (arith, b, some_left);
                        most = ground (arith, b, some_left);
                        large = ground (arith, enough);
                      },
                    ))
            ]
          ]
        ]
      ]

-- For an entry and an end of the reserved memory that are aligned to pages, where the entry ends a page
-- below 2 ^ 64 in the direct mapping, `usable_region` finds the `Region` of the entry if there is one,
-- and nothing if there is none.
pub usable_region-Chosen :
    (reserved_end : ℕ) (entry : MemmapEntry)
    → reserved_end % 4096 ≡ 0
    → entry.base_addr % 4096 ≡ 0
    → 0xffff888000000000 + entry.base_addr + entry.length + 4096 < 2 ^ 64
    → Chosen reserved_end entry (usable_region reserved_end entry)
usable_region-Chosen reserved_end entry r_aligned e_aligned fits =
    chosen reserved_end entry r_aligned e_aligned fits
