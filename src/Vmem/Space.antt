-- ===== src/Vmem/Space.antt =====
-- mm/vmem.c: address spaces, their areas and their page tables.
use heaven_os.Prelude.{
  ℕ, zero, suc, ◌+◌, ◌-◌, ◌*◌, ◌/◌, ◌%◌, ◌^◌, bit_and, bit_or, not, ◌==◌, ◌&&◌, if◌then◌else◌,
  Option, none, some, List, [], ◌∷◌,
}
use mathlib.Core.Option.{map}
use heaven_os.Memory.{page_size, round_down, div_round_up}
use heaven_os.FrameAlloc.{kassert, ◌>>=◌, ◌>>◌}
use heaven_os.Vmem.{Area, area_end, vmem_alloc, pte_alloc, vmem_intersects, vmem_unconvert_flags}
use heaven_os.Vmem.Tables.{
  Machine, Status, okay, enomem, entry, copy_page, is_set, pte_present, pte_page_size,
  pte_flags_mask, pte_addr, phys_to_virt, virt_to_phys, vmem_map_page, vmem_map_page_2mb,
  vmem_map_page_1gb, vmem_unmap_page,
}

-- An address space. `list_insert_after` the head of the ring puts an area at the front of the list.
pub record Space : Type 0 where
  pub pml4 : ℕ
  pub areas : List Area

-- `frame_alloc`, with 0 for a null pointer
abbrev take_first : List ℕ → Machine → ℕ × Machine
take_first [] m = (0, m)
take_first (f ∷ rest) m =
    (f, record { word = m.word; frames = rest; freed = m.freed; objects = m.objects })

unfoldable pub frame_alloc_from : Machine → ℕ × Machine
frame_alloc_from m = take_first m.frames m

abbrev pub with_objects : ℕ → Machine → Machine
with_objects n m = record { word = m.word; frames = m.frames; freed = m.freed; objects = n }

-- The objects that `object_alloc` carves out of a page: an area has 40 bytes, and takes 64.
abbrev pub areas_per_page : ℕ
areas_per_page = 64

-- `object_alloc` where no object is free asks for a page, and writes to address 0 without one.
abbrev pub take_new : ℕ × Machine → Option Machine
take_new (page, m) = if page == 0 then none else some (with_objects (areas_per_page - 1) m)

abbrev take_object_of : ℕ → Machine → Option Machine
take_object_of zero m = take_new (frame_alloc_from m)
take_object_of (suc n) m = some (with_objects n m)

-- `object_alloc` of an area, where `objects` is the number of free objects. It never returns NULL;
-- `none` is the access through NULL.
unfoldable pub take_object : Machine → Option Machine
take_object m = take_object_of m.objects m

-- `object_free` of an area: the free list ends with the freed object.
abbrev pub give_object : Machine → Machine
give_object m = with_objects 1 m

unfoldable pub vmem_alloc_pages : ℕ → ℕ → ℕ → Space → Machine → Option (Status × (Space × Machine))
vmem_alloc_pages virt_addr pgcnt flags vm m = do
  kassert (round_down virt_addr page_size == virt_addr)
  kassert (not (vmem_intersects vm.areas virt_addr pgcnt))
  m ← take_object m
  some (
    okay,
    (
      record {
        pml4 = vm.pml4;
        areas = record { start = virt_addr; size = pgcnt; flags = flags } ∷ vm.areas;
      },
      m,
    ),
  )

-- The search of `vmem_free_pages`, and the areas without what it found.
unfoldable pub remove_area : ℕ → ℕ → List Area → Option (List Area)
remove_area start_addr end_addr [] = none
remove_area start_addr end_addr (area ∷ areas) =
    let rest = remove_area start_addr end_addr areas in
    if (start_addr == area.start) && (area_end area == end_addr)
    then some areas
    else map (λ rest'. area ∷ rest') rest

-- The loop of `vmem_free_pages` over `n` pages.
unfoldable pub unmap_loop : ℕ → ℕ → ℕ → Machine → Machine
unmap_loop pml4 zero addr m = m
unmap_loop pml4 (suc n) addr m = unmap_loop pml4 n (addr + page_size) (vmem_unmap_page pml4 addr m)

unfoldable pub vmem_free_pages : ℕ → ℕ → Space → Machine → Option (Space × Machine)
vmem_free_pages virt_addr pgcnt vm m = do
  kassert (round_down virt_addr page_size == virt_addr)
  let end_addr = (virt_addr + page_size * pgcnt) % 2 ^ 64
  areas ← remove_area virt_addr end_addr vm.areas
  some (
    record { pml4 = vm.pml4; areas = areas },
    unmap_loop vm.pml4 (div_round_up (end_addr - virt_addr) page_size) virt_addr (give_object m),
  )

-- The new table of the top level is not cleared.
abbrev pub vmem_init : Space → Machine → Option (Status × (Space × Machine))
vmem_init vm m =
    let (pml4, m1) = frame_alloc_from m in
    if pml4 == 0
    then some (enomem, (record { pml4 = pml4; areas = vm.areas }, m1))
    else take_object m1 >>= λ m2. some (okay, (record { pml4 = pml4; areas = [] }, m2))

abbrev pub if_okay {ℓ} : {A : Type ℓ} → Status → A → A → A
if_okay okay rest failed = rest
if_okay enomem rest failed = failed

-- A loop over `n` entries of a table from an index on, left when an entry returns an error.
abbrev pub for_entries :
    (ℕ → Machine → Option (Status × Machine)) → ℕ → ℕ → Machine → Option (Status × Machine)
for_entries body zero i m = some (okay, m)
for_entries body (suc n) i m = do
  (status, m') ← body i m
  if_okay status (for_entries body n (i + 1) m') (some (enomem, m'))

-- `MAKE_ADDR` with offset 0
abbrev pub make_addr : ℕ → ℕ → ℕ → ℕ → ℕ
make_addr m p d t =
    bit_or (bit_or (bit_or (bit_or (m * 2 ^ 39) (p * 2 ^ 30)) (d * 2 ^ 21)) (t * 2 ^ 12))
      (if is_set (m / 2 ^ 8) 1 then (2 ^ 16 - 1) * 2 ^ 48 else 0)

-- One entry of the last level in `vmem_clone_pages`.
abbrev pub clone_pte : ℕ → ℕ → ℕ → ℕ → ℕ → ℕ → Machine → Option (Status × Machine)
clone_pte dst pml4ei pdpei pdei pt ptei m =
    let pte = m.word (entry pt ptei) in
    let virt_addr = make_addr pml4ei pdpei pdei ptei in
    let src_phys_addr = pte_addr pte in
    let flags = vmem_unconvert_flags (bit_and pte pte_flags_mask) in
    if not (is_set pte pte_present)
    then some (okay, m)
    else if is_set pte pte_alloc
    then (let (copy, m1) = frame_alloc_from m in
        if copy == 0
        then some (enomem, m1)
        else vmem_map_page dst virt_addr (virt_to_phys copy) (bit_or flags vmem_alloc) (record {
          word = copy_page copy (phys_to_virt src_phys_addr) m1.word;
          frames = m1.frames;
          freed = m1.freed;
          objects = m1.objects;
        }))
    else vmem_map_page dst virt_addr src_phys_addr flags m

-- One entry of a page directory.
abbrev pub clone_pde : ℕ → ℕ → ℕ → ℕ → ℕ → Machine → Option (Status × Machine)
clone_pde dst pml4ei pdpei pd pdei m =
    let pde = m.word (entry pd pdei) in
    if not (is_set pde pte_present)
    then some (okay, m)
    else if is_set pde pte_page_size
    then vmem_map_page_2mb dst (make_addr pml4ei pdpei pdei 0) (pte_addr pde)
        (vmem_unconvert_flags (bit_and pde pte_flags_mask)) m
    else for_entries (clone_pte dst pml4ei pdpei pdei (phys_to_virt (pte_addr pde))) 512 0 m

-- One entry of a page directory pointer table.
abbrev pub clone_pdpte : ℕ → ℕ → ℕ → ℕ → Machine → Option (Status × Machine)
clone_pdpte dst pml4ei pdpt pdpei m =
    let pdpte = m.word (entry pdpt pdpei) in
    if not (is_set pdpte pte_present)
    then some (okay, m)
    else if is_set pdpte pte_page_size
    then vmem_map_page_1gb dst (make_addr pml4ei pdpei 0 0) (pte_addr pdpte)
        (vmem_unconvert_flags (bit_and pdpte pte_flags_mask)) m
    else for_entries (clone_pde dst pml4ei pdpei (phys_to_virt (pte_addr pdpte))) 512 0 m

-- One entry of the top level.
abbrev pub clone_pml4e : ℕ → ℕ → ℕ → Machine → Option (Status × Machine)
clone_pml4e dst src_pml4 pml4ei m =
    let pml4e = m.word (entry src_pml4 pml4ei) in
    if not (is_set pml4e pte_present)
    then some (okay, m)
    else for_entries (clone_pdpte dst pml4ei (phys_to_virt (pte_addr pml4e))) 512 0 m

abbrev pub vmem_clone_pages : ℕ → ℕ → Machine → Option (Status × Machine)
vmem_clone_pages dst src_pml4 m = for_entries (clone_pml4e dst src_pml4) 512 0 m
