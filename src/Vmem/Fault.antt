-- ===== src/Vmem/Fault.antt =====
-- The page fault handler of mm/vmem.c maps the page of the address.
use heaven_os.Prelude.{
  ℕ, zero, suc, ◌+◌, ◌/◌, ◌%◌, ◌≤◌, ◌<◌, ◌≡◌, bit_or, true, false, ◌==◌, refl, sym, ◌∙◌, ap, arith,
  none, some, List, ◌∷◌, length,
}
use heaven_os.Memory.{page_size, round_down}
use heaven_os.Vmem.{vmem_convert_flags}
use heaven_os.Vmem.Tables.{Machine}
use heaven_os.Vmem.Walk.{word_at, next_table, drop, walk, IsTree, IsFresh}
use heaven_os.Vmem.Tables.{virt_to_phys, direct_map}
use heaven_os.Vmem.{Area, vmem_alloc, vmem_is_mapped}
use heaven_os.Vmem.Space.{Space, frame_alloc_from}
use heaven_os.Vmem.Life.{vmem_handle_pf}
use heaven_os.Vmem.Mapped.{vmem_map_page-walk}

-- The walk sees the page of an address only.
walk-page : (l t va va' : ℕ) (w : ℕ → ℕ) → drop 0 va ≡ drop 0 va' → walk l w t va ≡ walk l w t va'
walk-page zero t va va' w same = rw same refl
walk-page (suc l) t va va' w same =
    rw
      (drops (suc l), walk-page l (next_table (word_at w t (drop (suc l) va' % 512))) va va' w same)
      refl
  where
    drops : (k : ℕ) → drop k va ≡ drop k va'
    drops zero = same
    drops (suc k) = ap (λ (x : ℕ). x / 512) (drops k)

IsFresh-tail :
    (level : ℕ → ℕ) (f : ℕ) (rest : List ℕ) → IsFresh level (f ∷ rest) → IsFresh level rest
IsFresh-tail level f rest fresh = record {
  no_table = λ i g e. fresh.no_table (suc i) g e;
  in_map = λ i g e. fresh.in_map (suc i) g e;
  once = λ i j g e e'. let same = fresh.once (suc i) (suc j) g e e' in omega (arith, same);
}

-- On a tree of tables, for an address of an area that is not mapped, with four frames that are no
-- tables, the first not the frame at physical address 0, `vmem_handle_pf` returns true, and the walk
-- of the address then finds the entry of the first frame with the bit of a present page and the flags
-- of the area and the one of an allocated page, converted.
pub vmem_handle_pf-walk :
    (fault_addr f : ℕ) (rest : List ℕ) (area : Area) (vm : Space) (m : Machine)
    (level prefix : ℕ → ℕ)
    → IsTree m.word level prefix vm.pml4
    → m.frames ≡ f ∷ rest
    → IsFresh level (f ∷ rest)
    → 3 ≤ length rest
    → direct_map < f
    → vmem_is_mapped vm.areas fault_addr ≡ some area
    → walk 3 m.word vm.pml4 fault_addr ≡ none
    → (m' : Machine) × (vmem_handle_pf fault_addr vm m ≡ some (true, m'))
      × (walk 3 m'.word vm.pml4 fault_addr
          ≡ some (
              bit_or
                (bit_or (virt_to_phys f) 1)
                (vmem_convert_flags (bit_or area.flags vmem_alloc))))
unfolding vmem_handle_pf frame_alloc_from
vmem_handle_pf-walk fault_addr f rest area vm m level prefix tree frames fresh enough above found
      unmapped =
    let page = round_down fault_addr page_size in
    let same : drop 0 fault_addr ≡ drop 0 page = omega arith in
    let (lo, hi, aligned) = fresh.in_map 0 f refl in
    let some_frame : (virt_to_phys f == 0) ≡ false = ground arith in
    let m1 : Machine = record {
      word = m.word;
      frames = rest;
      freed = m.freed;
      objects = m.objects;
    } in
    let (m', mapped, entry_found, others, again) =
      vmem_map_page-walk vm.pml4 page (page + 4096) (virt_to_phys f) (bit_or area.flags vmem_alloc)
        m1 level prefix tree (IsFresh-tail level f rest fresh) enough (omega arith) (omega arith)
        (omega arith) (sym (walk-page 3 vm.pml4 fault_addr page m.word same) ∙ unmapped)
        (omega arith) in
    (
      m',
      simp (found, frames, some_frame, mapped) refl,
      walk-page 3 vm.pml4 fault_addr page m'.word same ∙ entry_found,
    )
