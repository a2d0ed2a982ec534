-- ===== src/Vmem/Life.antt =====
-- mm/vmem.c: copies of address spaces, their end, and page faults.
use heaven_os.Prelude.{
  ℕ, zero, suc, ◌+◌, bit_or, Bool, true, false, not, ◌==◌, if◌then◌else◌, Option, none, some, List,
  [], ◌∷◌,
}
use heaven_os.Memory.{page_size, round_down}
use heaven_os.FrameAlloc.{kassert, ◌>>=◌, ◌>>◌}
use heaven_os.Vmem.{Area, vmem_alloc, pte_alloc, vmem_is_mapped}
use heaven_os.Vmem.Tables.{
  Machine, Status, okay, enomem, entry, free_frame, is_set, pte_present, pte_page_size, pte_addr,
  phys_to_virt, virt_to_phys, vmem_map_page,
}
use heaven_os.Vmem.Space.{
  Space, frame_alloc_from, take_object, if_okay, give_object, vmem_init, vmem_clone_pages,
}

abbrev after_init :
    Status × (Space × Machine)
    → (Space → Machine → Option (Status × (Space × Machine)))
    → Option (Status × (Space × Machine))
after_init (status, (vm, m)) rest = if_okay status (rest vm m) (some (status, (vm, m)))

-- The end of both copies: the mappings.
abbrev clone_mappings : ℕ → Space → Machine → Option (Status × (Space × Machine))
clone_mappings src_pml4 vm m = do
  (status, m') ← vmem_clone_pages vm.pml4 src_pml4 m
  some (status, (vm, m'))

abbrev pub vmem_init_from_current : ℕ → Space → Machine → Option (Status × (Space × Machine))
vmem_init_from_current cr3 vm m =
    vmem_init vm m >>= λ made. after_init made λ vm1 m1. clone_mappings (phys_to_virt cr3) vm1 m1

-- The loop of `vmem_clone` over the areas of the source: each copy goes to the front.
abbrev pub clone_areas : List Area → Space → Machine → Option (Space × Machine)
clone_areas [] dst m = some (dst, m)
clone_areas (area ∷ src) dst m = take_object m >>= λ m'.
    clone_areas src (record { pml4 = dst.pml4; areas = area ∷ dst.areas }) m'

abbrev pub vmem_clone : Space → Space → Machine → Option (Status × (Space × Machine))
vmem_clone dst src m = vmem_init dst m >>= λ made.
    after_init made
      λ dst1 m1. clone_areas src.areas dst1 m1 >>= λ (dst2, m2). clone_mappings src.pml4 dst2 m2

-- A loop over `n` entries of a table from an index on.
abbrev pub each_entry : (ℕ → Machine → Machine) → ℕ → ℕ → Machine → Machine
each_entry body zero i m = m
each_entry body (suc n) i m = each_entry body n (i + 1) (body i m)

-- One entry of each level in `vmem_destroy`, the last level first.
abbrev destroy_pte : ℕ → ℕ → Machine → Machine
destroy_pte pt ptei m =
    let pte = m.word (entry pt ptei) in
    if not (is_set pte pte_present)
    then m
    else if is_set pte pte_alloc
    then free_frame (phys_to_virt (pte_addr pte)) m
    else m

abbrev destroy_pde : ℕ → ℕ → Machine → Machine
destroy_pde pd pdei m =
    let pde = m.word (entry pd pdei) in
    let pt = phys_to_virt (pte_addr pde) in
    if not (is_set pde pte_present)
    then m
    else if is_set pde pte_page_size
    then m
    else free_frame pt (each_entry (destroy_pte pt) 512 0 m)

abbrev destroy_pdpte : ℕ → ℕ → Machine → Machine
destroy_pdpte pdpt pdpei m =
    let pdpte = m.word (entry pdpt pdpei) in
    let pd = phys_to_virt (pte_addr pdpte) in
    if not (is_set pdpte pte_present)
    then m
    else if is_set pdpte pte_page_size
    then m
    else free_frame pd (each_entry (destroy_pde pd) 512 0 m)

abbrev destroy_pml4e : ℕ → ℕ → Machine → Machine
destroy_pml4e pml4 pml4ei m =
    let pml4e = m.word (entry pml4 pml4ei) in
    let pdpt = phys_to_virt (pte_addr pml4e) in
    if not (is_set pml4e pte_present)
    then m
    else free_frame pdpt (each_entry (destroy_pdpte pdpt) 512 0 m)

-- `curr_vmem` and `vm` are the addresses of address spaces. The area that is the head of the list is
-- freed with the others.
abbrev pub vmem_destroy : ℕ → ℕ → Space → Machine → Option Machine
vmem_destroy curr_vmem vm space m = do
  kassert (not (curr_vmem == vm))
  some (free_frame space.pml4 (each_entry (destroy_pml4e space.pml4) 512 0 (give_object m)))

-- The register CR3 and `curr_vmem`.
pub record Cpu : Type 0 where
  pub cr3 : ℕ
  pub curr_vmem : ℕ

abbrev pub vmem_switch_to : ℕ → Space → Cpu → Cpu
vmem_switch_to vm space cpu = record { cr3 = virt_to_phys space.pml4; curr_vmem = vm }

-- Both failures panic.
abbrev pub fault_status : Option (Status × Machine) → Option (Bool × Machine)
fault_status none = none
fault_status (some (okay, m)) = some (true, m)
fault_status (some (enomem, m)) = none

abbrev pub fault_in : Option Area → ℕ → Space → Machine → Option (Bool × Machine)
fault_in none fault_addr vm m = some (false, m)
fault_in (some area) fault_addr vm m =
    let (frame, m1) = frame_alloc_from m in
    (do
      kassert (not (virt_to_phys frame == 0))
      fault_status (
          vmem_map_page vm.pml4 (round_down fault_addr page_size) (virt_to_phys frame)
            (bit_or area.flags vmem_alloc) m1))

-- `vm` is the current address space. A null pointer is converted to a physical address before it is
-- tested.
unfoldable pub vmem_handle_pf : ℕ → Space → Machine → Option (Bool × Machine)
vmem_handle_pf fault_addr vm m = fault_in (vmem_is_mapped vm.areas fault_addr) fault_addr vm m
