-- ===== src/Boot/Translate.antt =====
-- How the processor reads the entries that boot/early.c writes.
use heaven_os.Prelude.{
  ℕ, suc, ◌+◌, ◌*◌, ◌/◌, ◌%◌, ◌^◌, ◌≤◌, ◌<◌, ◌≡◌, ◌⊎◌, true, refl, ◌∙◌, arith, some, bit_or,
}
use native.Mathlib.Nat.{le_refl}
use heaven_os.Prelude.Bits.{bit_or-zero}
use heaven_os.Prelude.Fields.{bit_or-fields}
use heaven_os.Vmem.Tables.{
  entry, is_set, pte_addr, pte_present, pte_page_size, phys_to_virt, virt_to_phys,
}
use heaven_os.Vmem.Entry.{IsFlags, frame-flags, is_set-bit_or, pte_addr-eq}
use heaven_os.Vmem.Walk.{drop, word_at, walk}
use heaven_os.Boot.{Words, Linked, large_entry, table_entry}

-- The entry of a large page of physical memory.
add_bits :
    (c f g : ℕ) → f < 2 ^ 12 → g < 2 ^ 12 → bit_or (c * 2 ^ 12 + f) g ≡ c * 2 ^ 12 + bit_or f g
add_bits c f g hf hg =
    let (same, small) = bit_or-fields 12 c 0 f g hf hg in
    let none_above : 0 * 2 ^ 12 + g ≡ g = omega arith in
    let same' : bit_or (c * 2 ^ 12 + f) g ≡ bit_or c 0 * 2 ^ 12 + bit_or f g =
      rw none_above at same in
    rw (same', bit_or-zero c c (le_refl c)) refl

large_entry-sum : (p : ℕ) → p % 4096 ≡ 0 → large_entry p ≡ p + 131
large_entry-sum p aligned =
    let whole : p / 4096 * 2 ^ 12 + 0 ≡ p = omega arith in
    let one = add_bits (p / 4096) 0 128 (omega arith) (omega arith) in
    let two = add_bits (p / 4096) 128 1 (omega arith) (omega arith) in
    let three = add_bits (p / 4096) 129 2 (omega arith) (omega arith) in
    let one' : bit_or p 128 ≡ p / 4096 * 2 ^ 12 + 128 = rw whole at one in
    rw (one', two, three) (omega arith)

pub large_entry-IsLarge :
    (p : ℕ)
    → p % 4096 ≡ 0
    → p < 2 ^ 48
    → (is_set (large_entry p) pte_present ≡ true)
      × (is_set (large_entry p) pte_page_size ≡ true)
      × (pte_addr (large_entry p) ≡ p)
large_entry-IsLarge p aligned small = (
  is_set-bit_or 0 (bit_or (bit_or p 128) 1) 2
      ∙ rw (is_set-bit_or 0 (bit_or p 128) 1) (ground arith),
  is_set-bit_or 7 (bit_or (bit_or p 128) 1) 2
      ∙ rw (is_set-bit_or 7 (bit_or p 128) 1, is_set-bit_or 7 p 128) (ground arith),
  omega (arith, pte_addr-eq (large_entry p), large_entry-sum p aligned),
)

table-IsFlags : IsFlags 2
table-IsFlags = record { low = omega arith; not_present = refl; not_size = refl }

-- One step of the walk, at a table and at a large page.
module _ (level t va : ℕ) (w : Words) where
  pub walk-table :
      (table : ℕ)
      → word_at w t (drop (suc level) va % 512) ≡ table_entry table
      → table % 4096 ≡ 0
      → table < 2 ^ 48
      → walk (suc level) w t va ≡ walk level w (phys_to_virt table) va
  walk-table table here aligned small =
      let (addr, present, large) = frame-flags table 2 small aligned table-IsFlags in
      rw (here, present, large, addr) refl

  pub walk-large :
      (p : ℕ)
      → word_at w t (drop (suc level) va % 512) ≡ large_entry p
      → p % 4096 ≡ 0
      → p < 2 ^ 48
      → walk (suc level) w t va ≡ some (large_entry p)
  walk-large p here aligned small =
      let (present, large, addr) = large_entry-IsLarge p aligned small in
      rw (here, present, large) refl

-- The tables are aligned, lie in the lower half of physical memory, and do not overlap.
pub record IsLaid (l : Linked) : Type 0 where
  pub pml4 : (l.early_pml4 % 4096 ≡ 0) × (l.early_pml4 < 2 ^ 46)
  pub pdpts : (l.direct_phys_mapping_pdpts % 4096 ≡ 0) × (l.direct_phys_mapping_pdpts < 2 ^ 46)
  pub pdpt : (l.higher_half_pdpt % 4096 ≡ 0) × (l.higher_half_pdpt < 2 ^ 46)
  pub pgdirs : (l.higher_half_pgdirs % 4096 ≡ 0) × (l.higher_half_pgdirs < 2 ^ 46)
  pub pml4-pdpts :
      (l.early_pml4 + 4096 ≤ l.direct_phys_mapping_pdpts)
      ⊎ (l.direct_phys_mapping_pdpts + 128 * 4096 ≤ l.early_pml4)
  pub pml4-pdpt :
      (l.early_pml4 + 4096 ≤ l.higher_half_pdpt) ⊎ (l.higher_half_pdpt + 4096 ≤ l.early_pml4)
  pub pml4-pgdirs :
      (l.early_pml4 + 4096 ≤ l.higher_half_pgdirs) ⊎ (l.higher_half_pgdirs + 8192 ≤ l.early_pml4)
  pub pdpts-pdpt :
      (l.direct_phys_mapping_pdpts + 128 * 4096 ≤ l.higher_half_pdpt)
      ⊎ (l.higher_half_pdpt + 4096 ≤ l.direct_phys_mapping_pdpts)
  pub pdpts-pgdirs :
      (l.direct_phys_mapping_pdpts + 128 * 4096 ≤ l.higher_half_pgdirs)
      ⊎ (l.higher_half_pgdirs + 8192 ≤ l.direct_phys_mapping_pdpts)
  pub pdpt-pgdirs :
      (l.higher_half_pdpt + 4096 ≤ l.higher_half_pgdirs)
      ⊎ (l.higher_half_pgdirs + 8192 ≤ l.higher_half_pdpt)

-- The words as the kernel sees them through the mapping of physical memory.
abbrev pub view : Words → Words
view w a = w (virt_to_phys a)

pub view-entry :
    (w : Words) (t i : ℕ)
    → t < 2 ^ 47
    → i < 512
    → word_at (view w) (phys_to_virt t) i ≡ w (entry t i)
view-entry w t i ht hi =
    let same : virt_to_phys (entry (phys_to_virt t) i) ≡ entry t i = omega arith in rw same refl
