-- ===== src/Apic/Madt.antt =====
-- `apic_init` of drivers/apic.c reads the addresses of the APICs from the MADT.
use heaven_os.Prelude.{
  ℕ, zero, suc, ◌+◌, ◌^◌, ◌<◌, ◌≤◌, ◌≡◌, ◌≢◌, ◌==◌, leb, true, false, refl, arith, none, some, List,
  [], ◌∷◌, length, if◌then◌else◌, Bool-cases, inl, inr,
}
use heaven_os.Prelude.Last.{IsLast, missing, IsLast-step}
use heaven_os.Memory.{Bytes}
use heaven_os.Memory.Words.{load32}
use heaven_os.FrameAlloc.Init.{phys_to_virt}
use heaven_os.Acpi.{Acpi, acpi_lookup, table_length, header_size}
use heaven_os.Apic.{
  Apic, Bus, type_ioapic, first_entry, entry_type, entry_length, ioapic_address, madt_loop,
  apic_enable, apic_init,
}

-- The entries of the MADT from an address on, up to its end.
pub data Entries (m : Bytes) (stop : ℕ) : ℕ → List ℕ → Type 0 where
  ended : (at : ℕ) → stop ≤ at → Entries m stop at []
  more :
      (at : ℕ) (entries : List ℕ)
      → at < stop
      → Entries m stop (at + entry_length m at) entries
      → Entries m stop at (at ∷ entries)

-- The last I/O APIC of the entries, or the address before when they have none.
abbrev pub IsIoapic : Bytes → ℕ → List ℕ → ℕ → Type 0
IsIoapic m before entries r = IsLast (entry_type m) (ioapic_address m) type_ioapic before entries r

madt_loop-IsIoapic :
    (fuel stop at ioapic : ℕ) (entries : List ℕ) (m : Bytes)
    → Entries m stop at entries
    → length entries < fuel
    → (r : ℕ) × (madt_loop fuel stop at m ioapic ≡ some r) × IsIoapic m ioapic entries r
unfolding madt_loop
madt_loop-IsIoapic zero stop at ioapic entries m h enough = absurd (omega (arith, enough))
madt_loop-IsIoapic (suc fuel) stop at ioapic [] m (ended i over) enough =
    let over' : leb stop i ≡ true = ground (arith, over) in
    (ioapic, rw over' refl, missing (λ j t e. cc))
madt_loop-IsIoapic (suc fuel) stop at ioapic (x ∷ entries) m (more i rest within h) enough =
    let within' : leb stop i ≡ false = ground (arith, within) in
    let (r, e, kept) =
      madt_loop-IsIoapic fuel stop (i + entry_length m i)
        (if entry_type m i == type_ioapic then ioapic_address m i else ioapic) rest m h
        (omega (arith, enough)) in
    (
      r,
      rw (within', e) refl,
      IsLast-step (entry_type m) (ioapic_address m) type_ioapic ioapic i rest r kept,
    )

-- With a MADT whose entries reach its end, on fuel that exceeds their number, and a 32-bit address of
-- the local APIC, `apic_init` ends: it panics exactly when the last I/O APIC of the entries, or the
-- pointer before if there is none, has address 0, and else leaves this address, that of the local APIC in
-- the mapping of physical memory, and the writes that enable it.
pub apic_init-IsIoapic :
    (fuel signature header : ℕ) (acpi : Acpi) (m : Bytes) (apic : Apic) (bus : Bus)
    (entries : List ℕ)
    → acpi_lookup acpi signature m ≡ some header
    → header ≢ 0
    → Entries m (header + table_length header m) (header + first_entry) entries
    → length entries < fuel
    → load32 m (header + header_size) < 2 ^ 32
    → (apic' : Apic) × IsIoapic m apic.ioapic_ptr entries apic'.ioapic_ptr
      × (apic'.lapic_ptr ≡ 0xffff888000000000 + load32 m (header + header_size))
      × (apic_init fuel signature acpi m apic bus
          ≡ (if apic'.ioapic_ptr == 0 then none else some (apic', apic_enable apic' bus)))
unfolding apic_init
apic_init-IsIoapic fuel signature header acpi m apic bus entries looked given h enough small =
    let given' : (header == 0) ≡ false = ground (arith, given) in
    let (r, e, kept) =
      madt_loop-IsIoapic fuel (header + table_length header m) (header + first_entry)
        apic.ioapic_ptr entries m h enough in
    let lapic : phys_to_virt (load32 m (header + header_size))
        ≡ 0xffff888000000000 + load32 m (header + header_size) =
      omega (arith, small) in
    let some_lapic : (phys_to_virt (load32 m (header + header_size)) == 0) ≡ false =
      ground (arith, lapic) in
    (
      record { lapic_ptr = phys_to_virt (load32 m (header + header_size)); ioapic_ptr = r },
      kept,
      lapic,
      rw (looked, given', e)
          (elim (Bool-cases (r == 0)) [
            | inl none_there ↦ rw none_there refl
            | inr there ↦ rw (there, some_lapic) refl
          ]),
    )
