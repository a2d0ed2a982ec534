-- ===== src/Vmem/Mapped.antt =====
-- `vmem_map_page` of mm/vmem.c maps the page, and no other.
use heaven_os.Prelude.{
  ℕ, ◌/◌, ◌%◌, ◌^◌, ◌≤◌, ◌<◌, ◌≡◌, ◌≢◌, bit_or, true, false, ◌==◌, inl, inr, Bool-cases, update,
  refl, sym, ◌∙◌, arith, none, some, length,
}
use heaven_os.Memory.{page_size, round_down}
use heaven_os.Vmem.{vmem_convert_flags}
use heaven_os.Vmem.Tables.{
  Machine, okay, entry, set_word, is_set, pte_present, put_page, vmem_map_page,
}
use heaven_os.Vmem.Entry.{IsFlags, convert-IsFlags, frame-flags}
use heaven_os.Vmem.Walk.{word_at, drop, walk, IsTree, IsFresh}
use heaven_os.Vmem.Map.{put, put-here, put-walk, put-IsTree}
use heaven_os.Vmem.Way.{IsWay, walk-IsWay, put-IsWay, tables-IsPrepared}

-- The write of the entry, once the tables are there.
put_page-walk :
    (pml4 va va' frame g pt : ℕ) (m : Machine) (level prefix : ℕ → ℕ)
    → IsTree m.word level prefix pml4
    → IsWay pml4 va pt m.word level prefix
    → IsFlags g
    → frame % 4096 ≡ 0
    → frame < 2 ^ 48
    → walk 3 m.word pml4 va ≡ none
    → drop 0 va' ≢ drop 0 va
    → (m' : Machine) × (put_page va frame g pt m ≡ some (okay, m'))
      × (walk 3 m'.word pml4 va ≡ some (bit_or (bit_or frame 1) g))
      × (walk 3 m'.word pml4 va' ≡ walk 3 m.word pml4 va')
      × IsTree m'.word level prefix pml4
      × (m'.frames ≡ m.frames)
      × IsWay pml4 va pt m'.word level prefix
unfolding put_page put
put_page-walk pml4 va va' frame g pt m level prefix tree way flags aligned lt unmapped ne =
    let v = bit_or (bit_or frame 1) g in
    let (addr, present, size) = frame-flags frame g lt aligned flags in
    let i0 : va / 2 ^ 12 % 512 ≡ drop 0 va % 512 = omega arith in
    let un : walk 0 m.word pt va ≡ none =
      sym (walk-IsWay pml4 va pt m.word level prefix way) ∙ unmapped in
    let free : is_set (word_at m.word pt (drop 0 va % 512)) pte_present ≡ false =
      elim (Bool-cases (is_set (word_at m.word pt (drop 0 va % 512)) pte_present)) [
        | inl p ↦ let mapped = rw p at un in cc
        | inr p ↦ p
      ] in
    let way' = put-IsWay pml4 va pt v m.word level prefix tree way in
    let here = put-here m.word level prefix pml4 pt va v tree way.pt_level way.pt_prefix in
    let top_way : prefix pml4 ≡ drop 4 va' = omega (arith, tree.top_prefix) in
    (
      set_word (entry pt (drop 0 va % 512)) v m,
      rw (i0, free) refl,
      walk-IsWay pml4 va pt (update m.word (entry pt (drop 0 va % 512)) v) level prefix way'
          ∙ rw (here, present) refl,
      put-walk m.word level prefix pml4 pt va v tree way.pt_level way.pt_prefix 3 pml4 va' tree.top
          top_way ne,
      put-IsTree m.word level prefix pml4 pt va v tree way.pt_level way.pt_prefix,
      refl,
      way',
    )

-- The call succeeds, and leaves the tables on the way to the address.
pub map-IsWay :
    (pml4 va va' frame flags : ℕ) (m : Machine) (level prefix : ℕ → ℕ)
    → IsTree m.word level prefix pml4
    → IsFresh level m.frames
    → 3 ≤ length m.frames
    → va % 4096 ≡ 0
    → frame % 4096 ≡ 0
    → frame < 2 ^ 48
    → walk 3 m.word pml4 va ≡ none
    → drop 0 va' ≢ drop 0 va
    → (m' : Machine) × (vmem_map_page pml4 va frame flags m ≡ some (okay, m'))
      × (walk 3 m'.word pml4 va ≡ some (bit_or (bit_or frame 1) (vmem_convert_flags flags)))
      × (walk 3 m'.word pml4 va' ≡ walk 3 m.word pml4 va')
      × ((level' : ℕ → ℕ) × (prefix' : ℕ → ℕ) × IsTree m'.word level' prefix' pml4
          × IsFresh level' m'.frames
          × ((pt : ℕ) × IsWay pml4 va pt m'.word level' prefix'))
unfolding vmem_map_page
map-IsWay pml4 va va' frame flags m level prefix tree fresh enough page aligned lt unmapped ne =
    let g = vmem_convert_flags flags in
    let whole : (round_down va page_size == va) ≡ true = ground arith in
    let whole' : (round_down frame page_size == frame) ≡ true = ground arith in
    let i3 : va / 2 ^ 39 % 512 ≡ drop 3 va % 512 = omega arith in
    let i2 : va / 2 ^ 30 % 512 ≡ drop 2 va % 512 = omega arith in
    let i1 : va / 2 ^ 21 % 512 ≡ drop 1 va % 512 = omega arith in
    let (t3, m1, t2, m2, t1, m3, l3, p3, e1, e2, e3, r) =
      tables-IsPrepared pml4 va va' g m level prefix tree fresh enough (convert-IsFlags flags)
        unmapped in
    let (m', wrote, mapped, others, tree', frames, way) =
      put_page-walk pml4 va va' frame g t1 m3 l3 p3 r.tree r.way (convert-IsFlags flags) aligned lt
        (r.same_walk ∙ unmapped) ne in
    (
      m',
      rw (whole, whole', i3, e1, i2, e2, i1, e3) wrote,
      mapped,
      others ∙ r.other_walk,
      (l3, p3, tree', rw frames r.fresh, (t1, way)),
    )

-- On a tree of tables, with three frames that are no tables, for an address and a frame that are
-- multiples of 4096, the frame below 2^48, and an address that is not mapped, `vmem_map_page` succeeds:
-- the walk of the address then finds the entry of the frame with the bit of a present page and the
-- converted flags, the walk of an address of another page finds what it found before, and the tables
-- are a tree again, with the frames that are left no part of it.
pub vmem_map_page-walk :
    (pml4 va va' frame flags : ℕ) (m : Machine) (level prefix : ℕ → ℕ)
    → IsTree m.word level prefix pml4
    → IsFresh level m.frames
    → 3 ≤ length m.frames
    → va % 4096 ≡ 0
    → frame % 4096 ≡ 0
    → frame < 2 ^ 48
    → walk 3 m.word pml4 va ≡ none
    → drop 0 va' ≢ drop 0 va
    → (m' : Machine) × (vmem_map_page pml4 va frame flags m ≡ some (okay, m'))
      × (walk 3 m'.word pml4 va ≡ some (bit_or (bit_or frame 1) (vmem_convert_flags flags)))
      × (walk 3 m'.word pml4 va' ≡ walk 3 m.word pml4 va')
      × ((level' : ℕ → ℕ) × (prefix' : ℕ → ℕ) × IsTree m'.word level' prefix' pml4
          × IsFresh level' m'.frames)
vmem_map_page-walk pml4 va va' frame flags m level prefix tree fresh enough page aligned lt unmapped
      ne =
    let (m', mapped, found, others, (l, p, tree', fresh', way)) =
      map-IsWay pml4 va va' frame flags m level prefix tree fresh enough page aligned lt unmapped
        ne in
    (m', mapped, found, others, (l, p, tree', fresh'))
