-- ===== src/Vmem/Tables.antt =====
-- mm/vmem.c and mm/paging.h: page tables. Memory is a function from the addresses of 64-bit words to
-- words. The frames that `frame_alloc` will return, in order, and those that `frame_free` got are
-- lists; an empty list of frames is a memory with no frame left. `none` is a panic.
use heaven_os.Prelude.{
  ℕ, ◌+◌, ◌-◌, ◌*◌, ◌/◌, ◌%◌, ◌^◌, bit_and, bit_or, Bool, not, ltb, leb, ◌==◌, ◌&&◌, if◌then◌else◌,
  update, Option, none, some, List, [], ◌∷◌,
}
use heaven_os.Memory.{page_size, round_down}
use heaven_os.FrameAlloc.{kassert, ◌>>◌, sub64}
pub use heaven_os.FrameAlloc.Init.{phys_to_virt}
use heaven_os.Vmem.{vmem_convert_flags, vmem_alloc}

abbrev pub pte_present : ℕ
pte_present = 1

abbrev pub pte_page_size : ℕ
pte_page_size = 128

abbrev pub pte_flags_mask : ℕ
pte_flags_mask = 2 ^ 12 - 1

abbrev pub pte_addr_mask : ℕ
pte_addr_mask = 2 ^ 48 - 1

-- `pte & bit` as a truth value
abbrev pub is_set : ℕ → ℕ → Bool
is_set pte bit = not (bit_and pte bit == 0)

unfoldable pub pte_addr : ℕ → ℕ
pte_addr pte = bit_and (bit_and pte pte_addr_mask) (2 ^ 64 - 2 ^ 12)

abbrev pub pml4e_from_addr : ℕ → ℕ
pml4e_from_addr addr = addr / 2 ^ 39 % 512

abbrev pub pdpe_from_addr : ℕ → ℕ
pdpe_from_addr addr = addr / 2 ^ 30 % 512

abbrev pub pde_from_addr : ℕ → ℕ
pde_from_addr addr = addr / 2 ^ 21 % 512

abbrev pub pte_from_addr : ℕ → ℕ
pte_from_addr addr = addr / 2 ^ 12 % 512

-- The start of the mapping of all physical memory.
abbrev pub direct_map : ℕ
direct_map = 0xffff888000000000

abbrev pub virt_to_phys : ℕ → ℕ
virt_to_phys addr = sub64 addr direct_map

pub record Machine : Type 0 where
  pub word : ℕ → ℕ
  pub frames : List ℕ
  pub freed : List ℕ
  pub objects : ℕ

abbrev pub set_word : ℕ → ℕ → Machine → Machine
set_word a v m = record {
  word = update m.word a v;
  frames = m.frames;
  freed = m.freed;
  objects = m.objects;
}

abbrev pub free_frame : ℕ → Machine → Machine
free_frame frame m = record {
  word = m.word;
  frames = m.frames;
  freed = frame ∷ m.freed;
  objects = m.objects;
}

-- The address of an entry of a table.
abbrev pub entry : ℕ → ℕ → ℕ
entry tbl idx = tbl + 8 * idx

-- `memset(next_tbl, 0, PAGE_SIZE)` on words
abbrev pub clear_page : ℕ → (ℕ → ℕ) → ℕ → ℕ
clear_page p w a = if leb p a && ltb a (p + page_size) then 0 else w a

-- `memcpy` of a page on words
abbrev pub copy_page : ℕ → ℕ → (ℕ → ℕ) → ℕ → ℕ
copy_page d s w a = if leb d a && ltb a (d + page_size) then w (s + (a - d)) else w a

-- The frame that was allocated, as a table without entries.
abbrev fresh_table : ℕ → ℕ → ℕ → ℕ → Machine → List ℕ → Machine
fresh_table tbl idx raw_flags next m rest =
    set_word (entry tbl idx) (bit_or (bit_or (virt_to_phys next) pte_present) raw_flags) (record {
      word = clear_page next m.word;
      frames = rest;
      freed = m.freed;
      objects = m.objects;
    })

abbrev alloc_table : ℕ → ℕ → ℕ → Machine → List ℕ → Option ℕ × Machine
alloc_table tbl idx raw_flags m [] = (none, m)
alloc_table tbl idx raw_flags m (next ∷ rest) =
    (some next, fresh_table tbl idx raw_flags next m rest)

-- The next table and the machine; `none` for a null pointer.
unfoldable pub vmem_ensure_next_table : ℕ → ℕ → ℕ → Machine → Option ℕ × Machine
vmem_ensure_next_table tbl idx raw_flags m =
    let pte = m.word (entry tbl idx) in
    if is_set pte pte_present
    then (some (phys_to_virt (pte_addr pte)), set_word (entry tbl idx) (bit_or pte raw_flags) m)
    else alloc_table tbl idx raw_flags m m.frames

-- What the functions return: 0, or -ENOMEM.
pub data Status : Type 0 where
  okay enomem : Status

-- `if (tbl == NULL) return -ENOMEM;`, else the rest.
abbrev pub with_table :
    Option ℕ × Machine → (ℕ → Machine → Option (Status × Machine)) → Option (Status × Machine)
with_table (none, m) rest = some (enomem, m)
with_table (some tbl, m) rest = rest tbl m

-- The end of `vmem_map_page`.
unfoldable pub put_page : ℕ → ℕ → ℕ → ℕ → Machine → Option (Status × Machine)
put_page virt_addr frame flags pgtbl m = do
  kassert (not (is_set (m.word (entry pgtbl (pte_from_addr virt_addr))) pte_present))
  some (
    okay,
    set_word (entry pgtbl (pte_from_addr virt_addr)) (bit_or (bit_or frame pte_present) flags) m,
  )

unfoldable pub vmem_map_page : ℕ → ℕ → ℕ → ℕ → Machine → Option (Status × Machine)
vmem_map_page pml4 virt_addr frame vmem_flags m = do
  kassert (round_down virt_addr page_size == virt_addr)
  kassert (round_down frame page_size == frame)
  let flags = vmem_convert_flags vmem_flags
  with_table (vmem_ensure_next_table pml4 (pml4e_from_addr virt_addr) flags m) λ pdpt m1.
      with_table (vmem_ensure_next_table pdpt (pdpe_from_addr virt_addr) flags m1) λ pgdir m2.
        with_table (vmem_ensure_next_table pgdir (pde_from_addr virt_addr) flags m2)
          λ pgtbl m3. put_page virt_addr frame flags pgtbl m3

-- The end of `vmem_map_page_2mb`.
abbrev put_page_2mb : ℕ → ℕ → ℕ → ℕ → Machine → Option (Status × Machine)
put_page_2mb virt_addr frame flags pgdir m =
    let pde = m.word (entry pgdir (pde_from_addr virt_addr)) in
    (do
      kassert (not (is_set pde pte_present) && not (is_set pde pte_page_size))
      some (
        okay,
        set_word (entry pgdir (pde_from_addr virt_addr))
            (bit_or (bit_or (bit_or frame pte_present) pte_page_size) flags) m,
      ))

abbrev pub vmem_map_page_2mb : ℕ → ℕ → ℕ → ℕ → Machine → Option (Status × Machine)
vmem_map_page_2mb pml4 virt_addr frame vmem_flags m = do
  kassert (round_down virt_addr (2 ^ 21) == virt_addr)
  kassert (round_down frame (2 ^ 21) == frame)
  let flags = vmem_convert_flags vmem_flags
  with_table (vmem_ensure_next_table pml4 (pml4e_from_addr virt_addr) flags m) λ pdpt m1.
      with_table (vmem_ensure_next_table pdpt (pdpe_from_addr virt_addr) flags m1)
        λ pgdir m2. put_page_2mb virt_addr frame flags pgdir m2

-- The end of `vmem_map_page_1gb`.
abbrev put_page_1gb : ℕ → ℕ → ℕ → ℕ → Machine → Option (Status × Machine)
put_page_1gb virt_addr frame flags pdpt m =
    let pdpe = m.word (entry pdpt (pdpe_from_addr virt_addr)) in
    (do
      kassert (not (is_set pdpe pte_present && not (is_set pdpe pte_page_size)))
      some (
        okay,
        set_word (entry pdpt (pdpe_from_addr virt_addr))
            (bit_or (bit_or (bit_or frame pte_present) pte_page_size) flags) m,
      ))

abbrev pub vmem_map_page_1gb : ℕ → ℕ → ℕ → ℕ → Machine → Option (Status × Machine)
vmem_map_page_1gb pml4 virt_addr frame vmem_flags m = do
  kassert (round_down virt_addr (2 ^ 30) == virt_addr)
  kassert (round_down frame (2 ^ 30) == frame)
  let flags = vmem_convert_flags vmem_flags
  with_table (vmem_ensure_next_table pml4 (pml4e_from_addr virt_addr) flags m)
      λ pdpt m1. put_page_1gb virt_addr frame flags pdpt m1

-- A frame is freed when the entry has the bit of `VMEM_ALLOC`, which is that of `PTE_USER`.
unfoldable pub vmem_unmap_page : ℕ → ℕ → Machine → Machine
vmem_unmap_page pml4 virt_addr m =
    let pml4e = m.word (entry pml4 (pml4e_from_addr virt_addr)) in
    let pdpe = m.word (entry (phys_to_virt (pte_addr pml4e)) (pdpe_from_addr virt_addr)) in
    let pde = m.word (entry (phys_to_virt (pte_addr pdpe)) (pde_from_addr virt_addr)) in
    let at = entry (phys_to_virt (pte_addr pde)) (pte_from_addr virt_addr) in
    let pte = m.word at in
    if not (is_set pml4e pte_present)
    then m
    else if not (is_set pdpe pte_present)
    then m
    else if not (is_set pde pte_present)
    then m
    else set_word at 0
        (if is_set pte vmem_alloc then free_frame (phys_to_virt (pte_addr pte)) m else m)
