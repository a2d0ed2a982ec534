-- ===== src/Acpi/Tests.antt =====
-- The theorems on drivers/acpi.c at a table of 44 bytes with one entry.
use heaven_os.Prelude.{ℕ, ◌%◌, ◌≡◌, ◌==◌, if◌then◌else◌, refl, arith, some, inl}
use heaven_os.Memory.{Bytes}
use heaven_os.Acpi.{Acpi, acpi_check, table_length, xsdt_entry, entry_count, acpi_lookup}
use heaven_os.Acpi.Check.{byte_sum, acpi_check-byte_sum}
use heaven_os.Acpi.Lookup.{IsFirst, acpi_lookup-IsFirst}

-- The length and the checksum of the table at 1000; all else is 0.
abbrev one_table : Bytes
one_table a = if a == 1004 then 44 else if a == 1009 then 212 else 0

abbrev root : Acpi
root = record { rsdt = 0; xsdt = 1000 }

one_entry : entry_count 1000 8 one_table ≡ 1
one_entry = refl

acpi_check-byte_sum_example :
    acpi_check 1000 one_table ≡ (byte_sum (table_length 1000 one_table) 1000 one_table % 256 == 0)
acpi_check-byte_sum_example = acpi_check-byte_sum 1000 one_table (omega arith)

acpi_lookup-IsFirst_example :
    (r : ℕ) × (acpi_lookup root 2000 one_table ≡ some r)
    × IsFirst (xsdt_entry 1000 one_table) 2000 (entry_count 1000 8 one_table) 0 one_table r
acpi_lookup-IsFirst_example =
    acpi_lookup-IsFirst root 2000 one_table (omega arith) (inl (omega arith))
