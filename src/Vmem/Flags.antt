-- ===== src/Vmem/Flags.antt =====
-- The flags of mm/vmem.c and those of the page tables.
use heaven_os.Prelude.{ℕ, ◌*◌, ◌/◌, ◌%◌, ◌≡◌, arith, bit_and}
use heaven_os.Prelude.Bits.{bit_and_digit, bit_and-one}
use heaven_os.Vmem.{vmem_convert_flags, vmem_unconvert_flags}

and_two : (x : ℕ) → bit_and x 2 ≡ x / 2 % 2 * 2
and_two x = omega (arith, bit_and_digit x 2, bit_and-one (x / 2))

and_four : (x : ℕ) → bit_and x 4 ≡ x / 4 % 2 * 4
and_four x = omega (arith, bit_and_digit x 4, and_two (x / 2))

-- The conversion to the bits of a page table entry and back keeps the three flags of mm/vmem.c.
pub vmem_unconvert_flags-vmem_convert_flags :
    (flags : ℕ) → vmem_unconvert_flags (vmem_convert_flags flags) ≡ flags % 8
unfolding vmem_unconvert_flags vmem_convert_flags
vmem_unconvert_flags-vmem_convert_flags f = ground (arith, bit_and-one f, and_two f, and_four f)
