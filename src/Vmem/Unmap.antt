-- ===== src/Vmem/Unmap.antt =====
-- `vmem_unmap_page` of mm/vmem.c unmaps the page, and no other.
use heaven_os.Prelude.{
  ℕ, ◌/◌, ◌%◌, ◌^◌, ◌≤◌, ◌<◌, ◌≡◌, ◌≢◌, bit_or, if◌then◌else◌, inl, inr, Bool-cases, update, refl,
  sym, ◌∙◌, arith, none, some, ◌∷◌, length,
}
use heaven_os.Vmem.{vmem_convert_flags}
use heaven_os.Vmem.Tables.{Machine, okay, entry, set_word, is_set, pte_present, vmem_map_page}
use heaven_os.Vmem.Entry.{convert-IsFlags, frame-flags}
use heaven_os.Vmem.Walk.{word_at, drop, walk, IsTree, IsFresh}
use heaven_os.Prelude.{some_injective}
use heaven_os.Vmem.Mapped.{map-IsWay}
use heaven_os.Vmem.Map.{put, put-here, put-walk, put-IsTree}
use heaven_os.Vmem.Way.{IsWay, walk-IsWay}
use heaven_os.Vmem.Tables.{pte_addr, phys_to_virt, vmem_unmap_page, free_frame}
use heaven_os.Vmem.Map.{put, put-here, put-walk, put-IsTree}
use heaven_os.Vmem.Way.{IsWay, walk-IsWay, put-IsWay}

-- With the tables there, the call writes the entry, and may free the frame.
unmap-eq :
    (pml4 va pt : ℕ) (m : Machine) (level prefix : ℕ → ℕ)
    → IsWay pml4 va pt m.word level prefix
    → vmem_unmap_page pml4 va m
      ≡ set_word (entry pt (drop 0 va % 512)) 0 (
          if is_set (word_at m.word pt (drop 0 va % 512)) 4
          then free_frame (phys_to_virt (pte_addr (word_at m.word pt (drop 0 va % 512)))) m
          else m)
unfolding vmem_unmap_page
unmap-eq pml4 va pt m level prefix way =
    let i3 : va / 2 ^ 39 % 512 ≡ drop 3 va % 512 = omega arith in
    let i2 : va / 2 ^ 30 % 512 ≡ drop 2 va % 512 = omega arith in
    let i1 : va / 2 ^ 21 % 512 ≡ drop 1 va % 512 = omega arith in
    let i0 : va / 2 ^ 12 % 512 ≡ drop 0 va % 512 = omega arith in
    rw
      (
        i3, way.first.present, way.first.next, i2, way.second.present, way.second.next, i1,
        way.third.present, way.third.next, i0,
      )
      refl

-- The page of the address is unmapped, and no other.
unmap-walk :
    (pml4 va va' pt : ℕ) (m : Machine) (level prefix : ℕ → ℕ)
    → IsTree m.word level prefix pml4
    → IsWay pml4 va pt m.word level prefix
    → drop 0 va' ≢ drop 0 va
    → (let m' = vmem_unmap_page pml4 va m in
        let pte = word_at m.word pt (drop 0 va % 512) in
        (walk 3 m'.word pml4 va ≡ none)
        × (walk 3 m'.word pml4 va' ≡ walk 3 m.word pml4 va')
        × IsTree m'.word level prefix pml4
        × (m'.freed ≡ (if is_set pte 4 then phys_to_virt (pte_addr pte) ∷ m.freed else m.freed)))
unfolding put
unmap-walk pml4 va va' pt m level prefix tree way ne =
    let pte = word_at m.word pt (drop 0 va % 512) in
    let way' = put-IsWay pml4 va pt 0 m.word level prefix tree way in
    let here = put-here m.word level prefix pml4 pt va 0 tree way.pt_level way.pt_prefix in
    let top_way : prefix pml4 ≡ drop 4 va' = omega (arith, tree.top_prefix) in
    let gone : walk 3 (update m.word (entry pt (drop 0 va % 512)) 0) pml4 va ≡ none =
      walk-IsWay pml4 va pt (update m.word (entry pt (drop 0 va % 512)) 0) level prefix way'
      ∙ rw here refl in
    let others =
      put-walk m.word level prefix pml4 pt va 0 tree way.pt_level way.pt_prefix 3 pml4 va' tree.top
        top_way ne in
    let tree' = put-IsTree m.word level prefix pml4 pt va 0 tree way.pt_level way.pt_prefix in
    rw (unmap-eq pml4 va pt m level prefix way) (elim (Bool-cases (is_set pte 4)) [
      | inl e ↦ rw e (gone, others, tree', refl)
      | inr e ↦ rw e (gone, others, tree', refl)
    ])

-- The entry that the walk finds.
entry-walk :
    (w : ℕ → ℕ) (pt va v : ℕ) → walk 0 w pt va ≡ some v → word_at w pt (drop 0 va % 512) ≡ v
entry-walk w pt va v found =
    elim (Bool-cases (is_set (word_at w pt (drop 0 va % 512)) pte_present)) [
      | inl p ↦ some_injective (rw p at found)
      | inr p ↦ let clash = rw p at found in cc
    ]

-- On a tree of tables, with three frames that are no tables, for an address and a frame that are
-- multiples of 4096, the frame below 2^48, and an address that is not mapped: when `vmem_unmap_page`
-- follows `vmem_map_page`, which succeeds, the address is not mapped again, the walk of an address of
-- another page finds what it found before both, and the frame was freed exactly when the entry had
-- the bit 4, which is that of `PTE_USER`.
pub vmem_unmap_page-vmem_map_page :
    (pml4 va va' frame flags : ℕ) (m : Machine) (level prefix : ℕ → ℕ)
    → IsTree m.word level prefix pml4
    → IsFresh level m.frames
    → 3 ≤ length m.frames
    → va % 4096 ≡ 0
    → frame % 4096 ≡ 0
    → frame < 2 ^ 48
    → walk 3 m.word pml4 va ≡ none
    → drop 0 va' ≢ drop 0 va
    → (m1 : Machine) × (vmem_map_page pml4 va frame flags m ≡ some (okay, m1))
      × (walk 3 (vmem_unmap_page pml4 va m1).word pml4 va ≡ none)
      × (walk 3 (vmem_unmap_page pml4 va m1).word pml4 va' ≡ walk 3 m.word pml4 va')
      × ((vmem_unmap_page pml4 va m1).freed ≡ (
          if is_set (bit_or (bit_or frame 1) (vmem_convert_flags flags)) 4
          then phys_to_virt frame ∷ m1.freed
          else m1.freed))
vmem_unmap_page-vmem_map_page pml4 va va' frame flags m level prefix tree fresh enough page aligned
      lt unmapped ne =
    let (m1, mapped, found, others, (l, p, tree', fresh', (pt, way))) =
      map-IsWay pml4 va va' frame flags m level prefix tree fresh enough page aligned lt unmapped
        ne in
    let v = bit_or (bit_or frame 1) (vmem_convert_flags flags) in
    let (gone, others', tree'', freed) = unmap-walk pml4 va va' pt m1 l p tree' way ne in
    let pte : word_at m1.word pt (drop 0 va % 512) ≡ v =
      entry-walk m1.word pt va v (sym (walk-IsWay pml4 va pt m1.word l p way) ∙ found) in
    let (addr, present, size) =
      frame-flags frame (vmem_convert_flags flags) lt aligned (convert-IsFlags flags) in
    (m1, mapped, gone, others' ∙ others, rw (pte, addr) at freed)
