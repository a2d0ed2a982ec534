-- ===== src/Acpi.antt =====
-- drivers/acpi.c: the root tables of ACPI in the bytes of memory. The two pointers to them are 0 when
-- they are not set. `none` is a panic; the messages of `acpi_init` are left out.
pub mod Check
pub mod Lookup
mod Tests
use heaven_os.Prelude.{
  ℕ, zero, suc, ◌+◌, ◌-◌, ◌*◌, ◌/◌, ◌%◌, ◌^◌, bit_and, Bool, true, false, not, ltb, ◌==◌,
  if◌then◌else◌, Option, none, some,
}
use heaven_os.Memory.{Bytes, Sign, minus_one, nought, plus_one, memcmp}
use heaven_os.Memory.Words.{load32, load64}
use heaven_os.FrameAlloc.{kassert, ◌>>=◌, ◌>>◌, sub64}
use heaven_os.FrameAlloc.Init.{phys_to_virt}

pub record Acpi : Type 0 where
  pub rsdt : ℕ
  pub xsdt : ℕ

-- `sizeof(acpi_sdt_header_t)`
abbrev pub header_size : ℕ
header_size = 36

-- `header.length`
abbrev pub table_length : ℕ → Bytes → ℕ
table_length table m = load32 m (table + 4)

-- The rounds of a loop up to `(int)length`: a length of 2^31 or more is negative.
abbrev pub int_rounds : ℕ → ℕ
int_rounds length = if ltb length (2 ^ 31) then length else 0

-- `n` rounds of `checksum += bytes[i]`, at 32 bits.
unfoldable pub checksum_loop : ℕ → ℕ → ℕ → Bytes → ℕ
checksum_loop zero addr checksum m = checksum
checksum_loop (suc n) addr checksum m = checksum_loop n (addr + 1) ((checksum + m addr) % 2 ^ 32) m

unfoldable pub acpi_check : ℕ → Bytes → Bool
acpi_check table m = bit_and (checksum_loop (int_rounds (table_length table m)) table 0 m) 255 == 0

-- `offsetof(acpi_rsdp_t, length)`
abbrev rsdp_v1_size : ℕ
rsdp_v1_size = 20

abbrev acpi_rsdp_check : ℕ → Bytes → Option ℕ
acpi_rsdp_check rsdp m = do
  kassert (not (rsdp == 0))
  kassert (bit_and (checksum_loop rsdp_v1_size rsdp 0 m) 255 == 0)
  some rsdp

-- The RSDP stands behind the header of a Multiboot tag, and 0 is no tag.
abbrev acpi_rsdt_init : ℕ → Bytes → Acpi → Option Acpi
acpi_rsdt_init mb_acpi_rsdp_v1 m acpi = do
  kassert (not (mb_acpi_rsdp_v1 == 0))
  rsdp ← acpi_rsdp_check (mb_acpi_rsdp_v1 + 8) m
  let rsdt = phys_to_virt (load32 m (rsdp + 16))
  kassert (acpi_check rsdt m)
  some (record { rsdt = rsdt; xsdt = acpi.xsdt })

abbrev acpi_xsdt_init : ℕ → Bytes → Acpi → Option Acpi
acpi_xsdt_init mb_acpi_rsdp_v2 m acpi = do
  kassert (not (mb_acpi_rsdp_v2 == 0))
  rsdp ← acpi_rsdp_check (mb_acpi_rsdp_v2 + 8) m
  kassert (bit_and (checksum_loop (int_rounds (load32 m (rsdp + 20))) rsdp 0 m) 255 == 0)
  let xsdt = phys_to_virt (load64 m (rsdp + 24))
  kassert (acpi_check xsdt m)
  some (record { rsdt = acpi.rsdt; xsdt = xsdt })

abbrev pub acpi_init : ℕ → ℕ → Bytes → Acpi → Option Acpi
acpi_init mb_acpi_rsdp_v1 mb_acpi_rsdp_v2 m acpi =
    if mb_acpi_rsdp_v2 == 0
    then acpi_rsdt_init mb_acpi_rsdp_v1 m acpi
    else acpi_xsdt_init mb_acpi_rsdp_v2 m acpi

abbrev pub is_nought : Sign → Bool
is_nought minus_one = false
is_nought nought = true
is_nought plus_one = false

-- `memcmp(signature, &sdt->header.signature, 4) == 0`
abbrev pub has_signature : ℕ → ℕ → Bytes → Bool
has_signature signature sdt m = is_nought (memcmp signature sdt 4 m)

-- The loop of both lookups, `n` rounds from index `i` on; 0 is a null pointer.
unfoldable pub lookup_loop : (ℕ → ℕ) → ℕ → ℕ → ℕ → Bytes → ℕ
lookup_loop entry signature zero i m = 0
lookup_loop entry signature (suc n) i m =
    let rest = lookup_loop entry signature n (i + 1) m in
    if has_signature signature (entry i) m
    then (if acpi_check (entry i) m then entry i else 0)
    else rest

abbrev pub rsdt_entry : ℕ → Bytes → ℕ → ℕ
rsdt_entry rsdt m i = phys_to_virt (load32 m (rsdt + header_size + 4 * i))

abbrev pub xsdt_entry : ℕ → Bytes → ℕ → ℕ
xsdt_entry xsdt m i = phys_to_virt (load64 m (xsdt + header_size + 8 * i))

-- The number of entries of a root table, each of a size.
abbrev pub entry_count : ℕ → ℕ → Bytes → ℕ
entry_count table size m = sub64 (table_length table m) header_size / size

abbrev pub acpi_rsdt_lookup : ℕ → ℕ → Bytes → ℕ
acpi_rsdt_lookup rsdt signature m =
    lookup_loop (rsdt_entry rsdt m) signature (entry_count rsdt 4 m) 0 m

abbrev pub acpi_xsdt_lookup : ℕ → ℕ → Bytes → ℕ
acpi_xsdt_lookup xsdt signature m =
    lookup_loop (xsdt_entry xsdt m) signature (entry_count xsdt 8 m) 0 m

unfoldable pub acpi_lookup : Acpi → ℕ → Bytes → Option ℕ
acpi_lookup acpi signature m = do
  kassert (not (signature == 0))
  if acpi.xsdt == 0
      then (if acpi.rsdt == 0 then none else some (acpi_rsdt_lookup acpi.rsdt signature m))
      else some (acpi_xsdt_lookup acpi.xsdt signature m)
