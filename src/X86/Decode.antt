-- ===== src/X86/Decode.antt =====
-- The segment descriptors of arch/x86/x86.c, read the way the processor reads them.
use heaven_os.Prelude.{ℕ, ◌+◌, ◌*◌, ◌/◌, ◌%◌, ◌^◌, ◌<◌, ◌≡◌, bit_and, bit_or, refl, ◌∙◌, arith}
use heaven_os.Prelude.Bits.{bit_and-mask, bit_or-zero}
use native.Mathlib.Nat.{le_refl}
use heaven_os.Prelude.Fields.{bit_or-fields, bit_or-disjoint, zero-bit_or}
use heaven_os.X86.{Descriptor, Gdt, gdt_descriptor, gdt_init, tss_seg, tss_size}

-- The base, the limit, the access byte and the four flags of a descriptor.
abbrev pub base_of : Descriptor → ℕ
base_of d = d.dw0 / 2 ^ 16 + d.dw1 % 2 ^ 8 * 2 ^ 16 + d.dw1 / 2 ^ 24 * 2 ^ 24

abbrev pub limit_of : Descriptor → ℕ
limit_of d = d.dw0 % 2 ^ 16 + d.dw1 / 2 ^ 16 % 2 ^ 4 * 2 ^ 16

abbrev pub access_of : Descriptor → ℕ
access_of d = d.dw1 / 2 ^ 8 % 2 ^ 8

abbrev pub flags_of : Descriptor → ℕ
flags_of d = d.dw1 / 2 ^ 20 % 2 ^ 4

-- The base of a descriptor of two entries in 64-bit mode.
abbrev pub system_base : Gdt → ℕ → ℕ
system_base gdt idx = base_of (gdt idx) + (gdt (idx + 1)).dw0 * 2 ^ 32

-- The fields of the second word, added one after the other.
module _ (b l t hi lo : ℕ) where
  add_flags : b < 256 → bit_or b (hi * 2 ^ 20 + lo * 2 ^ 8) ≡ hi * 2 ^ 20 + lo * 2 ^ 8 + b
  add_flags hb =
      let whole : hi * 2 ^ 20 + lo * 2 ^ 8 ≡ (hi * 2 ^ 12 + lo) * 2 ^ 8 = omega arith in
      rw whole (bit_or-disjoint 8 b (hi * 2 ^ 12 + lo) hb)

  add_present :
      b < 256
      → lo < 256
      → (bit_or (hi * 2 ^ 20 + lo * 2 ^ 8 + b) (2 ^ 15) ≡ hi * 2 ^ 20 + bit_or lo 128 * 2 ^ 8 + b)
        × (bit_or lo 128 < 256)
  add_present hb hlo =
      let (low, small) = bit_or-fields 8 lo 128 b 0 hb (omega arith) in
      let (high, small') =
        bit_or-fields 20 hi 0 (lo * 2 ^ 8 + b) (128 * 2 ^ 8 + 0) (omega arith) (omega arith) in
      let (access, byte) = bit_or-fields 8 0 0 lo 128 hlo (omega arith) in
      let parts : hi * 2 ^ 20 + lo * 2 ^ 8 + b ≡ hi * 2 ^ 20 + (lo * 2 ^ 8 + b) = omega arith in
      let high' : bit_or (hi * 2 ^ 20 + (lo * 2 ^ 8 + b)) (2 ^ 15)
          ≡ bit_or hi 0 * 2 ^ 20 + bit_or (lo * 2 ^ 8 + b) (128 * 2 ^ 8 + 0) =
        high in
      (
        rw (parts, high', bit_or-zero hi hi (le_refl hi), low, bit_or-zero b b (le_refl b))
            (omega arith),
        byte,
      )

  add_limit :
      (z : ℕ)
      → b < 256
      → z < 256
      → l < 16
      → bit_or (hi * 2 ^ 20 + z * 2 ^ 8 + b) (l * 2 ^ 16) ≡ hi * 2 ^ 20 + l * 2 ^ 16 + z * 2 ^ 8 + b
  add_limit z hb hz hl =
      let (high, small) =
        bit_or-fields 20 hi 0 (z * 2 ^ 8 + b) (l * 2 ^ 16) (omega arith) (omega arith) in
      let low = bit_or-disjoint 16 (z * 2 ^ 8 + b) l (omega arith) in
      let parts : hi * 2 ^ 20 + z * 2 ^ 8 + b ≡ hi * 2 ^ 20 + (z * 2 ^ 8 + b) = omega arith in
      let plain : 0 * 2 ^ 20 + l * 2 ^ 16 ≡ l * 2 ^ 16 = omega arith in
      let high' : bit_or (hi * 2 ^ 20 + (z * 2 ^ 8 + b)) (l * 2 ^ 16)
          ≡ bit_or hi 0 * 2 ^ 20 + bit_or (z * 2 ^ 8 + b) (l * 2 ^ 16) =
        rw plain at high in
      rw (parts, high', bit_or-zero hi hi (le_refl hi), low) (omega arith)

  dw1-sum :
      b < 256
      → l < 16
      → hi < 16
      → lo < 256
      → (bit_or
            (bit_or (bit_or (bit_or b (hi * 2 ^ 20 + lo * 2 ^ 8)) (2 ^ 15)) (l * 2 ^ 16))
            (t * 2 ^ 24)
          ≡ t * 2 ^ 24 + (hi * 2 ^ 20 + l * 2 ^ 16 + bit_or lo 128 * 2 ^ 8 + b))
        × (bit_or lo 128 < 256)
  dw1-sum hb hl hhi hlo =
      let (present, byte) = add_present hb hlo in
      (
        rw (add_flags hb, present, add_limit (bit_or lo 128) hb byte hl)
            (bit_or-disjoint 24 (hi * 2 ^ 20 + l * 2 ^ 16 + bit_or lo 128 * 2 ^ 8 + b) t
              (omega arith)),
        byte,
      )

high_half : (a f : ℕ) → f < 2 ^ 16 → bit_or (a * 2 ^ 16) f ≡ a * 2 ^ 16 + f
high_half a f hf =
    let (same, small) = bit_or-fields 16 a 0 0 f (omega arith) hf in
    let left : a * 2 ^ 16 + 0 ≡ a * 2 ^ 16 = omega arith in
    let right : 0 * 2 ^ 16 + f ≡ f = omega arith in
    let same' : bit_or (a * 2 ^ 16) f ≡ bit_or a 0 * 2 ^ 16 + bit_or 0 f =
      rw (left, right) at same in
    rw (same', bit_or-zero a a (le_refl a), zero-bit_or f f (le_refl f)) refl

-- For a limit of 20 bits and flags in their places, the processor reads from `GDT_DESCRIPTOR` the low
-- 32 bits of the base, the limit, the access byte with the bit of a present segment, and the flags.
pub gdt_descriptor-fields :
    (base limit hi lo : ℕ)
    → limit < 2 ^ 20
    → hi < 16
    → lo < 256
    → (base_of (gdt_descriptor base limit (hi * 2 ^ 20 + lo * 2 ^ 8)) ≡ base % 2 ^ 32)
      × (limit_of (gdt_descriptor base limit (hi * 2 ^ 20 + lo * 2 ^ 8)) ≡ limit)
      × (access_of (gdt_descriptor base limit (hi * 2 ^ 20 + lo * 2 ^ 8)) ≡ bit_or lo 128)
      × (flags_of (gdt_descriptor base limit (hi * 2 ^ 20 + lo * 2 ^ 8)) ≡ hi)
unfolding gdt_descriptor
gdt_descriptor-fields base limit hi lo hlimit hhi hlo =
    let (word, byte) =
      dw1-sum (base / 2 ^ 16 % 2 ^ 8) (limit / 2 ^ 16 % 2 ^ 4) (base / 2 ^ 24 % 2 ^ 8) hi lo
        (omega arith) (omega arith) hhi hlo in
    let low = high_half (base % 2 ^ 16) (limit % 2 ^ 16) (omega arith) in
    rw
      (
        bit_and-mask 16 base,
        bit_and-mask 16 limit,
        bit_and-mask 8 (base / 2 ^ 16),
        bit_and-mask 4 (limit / 2 ^ 16),
        bit_and-mask 8 (base / 2 ^ 24),
        word,
        low,
      )
      (omega (arith, byte), omega (arith, byte), omega (arith, byte), omega (arith, byte))

-- From `gdt_init` the processor reads the TSS segment, for any address of 64 bits: the two entries
-- hold the whole address, the limit is the size of the TSS, and the access byte is that of an
-- available 64-bit TSS that is present. The flags count the limit in pages.
pub gdt_init-tss :
    (tss : ℕ) (gdt : Gdt)
    → tss < 2 ^ 64
    → (system_base (gdt_init tss gdt) tss_seg ≡ tss)
      × (limit_of (gdt_init tss gdt tss_seg) ≡ tss_size)
      × (access_of (gdt_init tss gdt tss_seg) ≡ 0x89)
      × (flags_of (gdt_init tss gdt tss_seg) ≡ 0b1001)
gdt_init-tss tss gdt small =
    let (base, limit, access, flags) =
      gdt_descriptor-fields tss tss_size 9 137 (omega arith) (omega arith) (omega arith) in
    let high : bit_and (tss / 2 ^ 32) 0xffffffff ≡ tss / 2 ^ 32 =
      bit_and-mask 32 (tss / 2 ^ 32) ∙ omega arith in
    (rw (base, high) (omega arith), limit, access, flags)
