-- ===== src/Vmem.antt =====
-- mm/vmem.c: the areas of an address space, as the list that its ring of areas holds.
pub mod Lookup
pub mod Overlap
pub mod Flags
pub mod Tables
pub mod Space
pub mod Life
pub mod Entry
pub mod Walk
pub mod Keep
pub mod Grow
pub mod Ensure
pub mod Map
pub mod Way
pub mod Mapped
pub mod Unmap
pub mod Fault
pub mod Areas
pub mod Sample
mod Tests
mod PagingTests
use heaven_os.Prelude.{
  ℕ, ◌+◌, ◌*◌, ◌%◌, ◌^◌, bit_and, bit_or, Bool, true, false, ◌==◌, ◌||◌, not, ltb, leb, ◌&&◌,
  if◌then◌else◌, Option, none, some, List, [], ◌∷◌,
}
use heaven_os.Memory.{page_size}

-- `VMEM_USER` and `VMEM_WRITE`
abbrev pub vmem_user : ℕ
vmem_user = 1

abbrev pub vmem_write : ℕ
vmem_write = 2

abbrev pub vmem_alloc : ℕ
vmem_alloc = 4

-- `PTE_WRITEABLE`, `PTE_USER` and `PTE_ALLOC`
abbrev pub pte_writeable : ℕ
pte_writeable = 2

abbrev pub pte_user : ℕ
pte_user = 4

abbrev pub pte_alloc : ℕ
pte_alloc = 1024

-- `if (flags & test) acc |= bit;`
abbrev pub or_if : ℕ → ℕ → ℕ → ℕ → ℕ
or_if flags test bit acc = if bit_and flags test == 0 then acc else bit_or acc bit

pub vmem_convert_flags : ℕ → ℕ
vmem_convert_flags flags =
    or_if flags vmem_alloc pte_alloc
      (or_if flags vmem_write pte_writeable (or_if flags vmem_user pte_user 0))

pub vmem_unconvert_flags : ℕ → ℕ
vmem_unconvert_flags flags =
    or_if flags pte_alloc vmem_alloc
      (or_if flags pte_writeable vmem_write (or_if flags pte_user vmem_user 0))

-- The size is in pages.
pub record Area : Type 0 where
  pub start : ℕ
  pub size : ℕ
  pub flags : ℕ

abbrev pub area_end : Area → ℕ
area_end area = (area.start + area.size * page_size) % 2 ^ 64

unfoldable pub vmem_is_mapped : List Area → ℕ → Option Area
vmem_is_mapped [] addr = none
vmem_is_mapped (area ∷ areas) addr =
    let rest = vmem_is_mapped areas addr in
    if leb area.start addr && ltb addr (area_end area) then some area else rest

-- `other_size` is added to the address as a number of bytes.
pub vmem_intersects : List Area → ℕ → ℕ → Bool
vmem_intersects [] other_start other_size = false
vmem_intersects (area ∷ areas) other_start other_size =
    let rest = vmem_intersects areas other_start other_size in
    if not (leb ((other_start + other_size) % 2 ^ 64) area.start || leb (area_end area) other_start)
    then true
    else rest
