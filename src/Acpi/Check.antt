-- ===== src/Acpi/Check.antt =====
-- `acpi_check` of drivers/acpi.c is the checksum of ACPI.
use heaven_os.Prelude.{ℕ, zero, suc, ◌+◌, ◌%◌, ◌^◌, ◌<◌, ◌≡◌, bit_and, ◌==◌, refl, ◌∙◌, arith}
use heaven_os.Prelude.Bits.{bit_and-mask}
use heaven_os.Memory.{Bytes}
use heaven_os.Acpi.{checksum_loop, acpi_check, table_length, int_rounds}

-- The sum of `n` bytes from an address on.
abbrev pub byte_sum : ℕ → ℕ → Bytes → ℕ
byte_sum zero addr m = 0
byte_sum (suc n) addr m = m addr + byte_sum n (addr + 1) m

checksum_loop-byte_sum :
    (n addr checksum : ℕ) (m : Bytes)
    → checksum_loop n addr checksum m % 256 ≡ (checksum + byte_sum n addr m) % 256
unfolding checksum_loop
checksum_loop-byte_sum zero addr checksum m = omega arith
checksum_loop-byte_sum (suc n) addr checksum m =
    checksum_loop-byte_sum n (addr + 1) ((checksum + m addr) % 2 ^ 32) m ∙ omega arith

-- For a table with a length below 2^31, `acpi_check` is true exactly when the sum of its bytes is a
-- multiple of 256.
pub acpi_check-byte_sum :
    (table : ℕ) (m : Bytes)
    → table_length table m < 2 ^ 31
    → acpi_check table m ≡ (byte_sum (table_length table m) table m % 256 == 0)
unfolding acpi_check
acpi_check-byte_sum table m short =
    let rounds : int_rounds (table_length table m) ≡ table_length table m = ground arith in
    let mask : bit_and (checksum_loop (table_length table m) table 0 m) 255
        ≡ checksum_loop (table_length table m) table 0 m % 256 =
      bit_and-mask 8 _ in
    let sum : checksum_loop (table_length table m) table 0 m % 256
        ≡ byte_sum (table_length table m) table m % 256 =
      checksum_loop-byte_sum (table_length table m) table 0 m ∙ omega arith in
    rw (rounds, mask, sum) refl
