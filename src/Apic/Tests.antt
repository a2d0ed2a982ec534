-- ===== src/Apic/Tests.antt =====
-- The theorems on drivers/apic.c at a MADT with one I/O APIC, and a PIT that is over at the second read.
use heaven_os.Prelude.{
  ℕ, ◌+◌, ◌-◌, ◌^◌, ◌≡◌, ◌==◌, leb, if◌then◌else◌, refl, arith, none, some, [], ◌∷◌, length, false,
}
use heaven_os.Memory.{Bytes, memcmp}
use heaven_os.Acpi.{Acpi, acpi_lookup, lookup_loop, acpi_check, checksum_loop}
use heaven_os.Apic.{
  Apic, Bus, Device, write, read, apic_enable, apic_init, apic_setup_timer, start_callibration,
}
use heaven_os.Apic.Madt.{Entries, ended, more, IsIoapic, apic_init-IsIoapic}
use heaven_os.Apic.Timer.{polled, OverAt, now, later, left_over, apic_setup_timer-ticks}

-- The XSDT at 1000 lists the table at physical address 0, whose signature, as that of the string at
-- 3000, is zeros.
abbrev madt : ℕ
madt = 0xffff888000000000

abbrev tables : Bytes
tables a =
    if a == 1004
    then 44
    else if a == madt + 4
    then 56
    else if a == madt + 44
    then 1
    else if a == madt + 45
    then 12
    else if a == madt + 48
    then 16
    else if a == madt + 9
    then 127
    else if a == madt + 36
    then 44
    else 0

abbrev root : Acpi
root = record { rsdt = 0; xsdt = 1000 }

abbrev no_apic : Apic
no_apic = record { lapic_ptr = 0; ioapic_ptr = 0 }

one_ioapic : Entries tables (madt + 56) (madt + 44) ((madt + 44) ∷ [])
one_ioapic = more (madt + 44) [] (omega arith) (ended (madt + 56) (omega arith))

looked_up : acpi_lookup root 3000 tables ≡ some madt
unfolding acpi_lookup lookup_loop acpi_check checksum_loop memcmp
looked_up = refl

apic_init-IsIoapic_example :
    (apic' : Apic) × IsIoapic tables 0 ((madt + 44) ∷ []) apic'.ioapic_ptr
    × (apic'.lapic_ptr ≡ madt + 44)
    × (apic_init 2 3000 root tables no_apic []
        ≡ (if apic'.ioapic_ptr == 0 then none else some (apic', apic_enable apic' [])))
apic_init-IsIoapic_example =
    apic_init-IsIoapic 2 3000 madt root tables no_apic [] ((madt + 44) ∷ []) looked_up (omega arith)
      one_ioapic (omega arith) (omega arith)

abbrev pit : Device
pit bus = if leb 12 (length bus) then 32 else 0

abbrev local : Apic
local = record { lapic_ptr = 4096; ioapic_ptr = 0 }

abbrev started : Bus
started = start_callibration pit local []

started-OverAt : OverAt false pit 1 started
started-OverAt = later 0 started refl (now _ refl)

apic_setup_timer-ticks_example :
    apic_setup_timer 2 false pit local []
    ≡ some (
        write (4096 + 0x320) (0x20000 + 32)
        ∷ write (4096 + 0x3e0) 0xb
        ∷ write (4096 + 0x380) (2 ^ 32 - 1 - left_over pit local (polled 2 started))
        ∷ read (4096 + 0x390)
        ∷ write (4096 + 0x320) 0x10000
        ∷ polled 2 started)
apic_setup_timer-ticks_example =
    apic_setup_timer-ticks 1 2 false pit local [] (omega arith) started-OverAt (omega arith)
