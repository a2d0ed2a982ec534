-- ===== src/Multiboot/Iter.antt =====
-- The iterator over the memory map of kernel/multiboot.c.
use heaven_os.Prelude.{
  ℕ, zero, suc, ◌+◌, ◌*◌, ◌<◌, ◌≡◌, ◌≢◌, true, false, leb, ◌==◌, refl, arith, some, List, [], ◌∷◌,
}
use heaven_os.Memory.{Bytes}
use heaven_os.Multiboot.{
  Multiboot, tag_size, entry_size, memmap_info_size, mb_memmap_iter_init, mb_memmap_iter_next,
  memmap_loop,
}

-- The addresses of `n` entries of a size, from an address on.
abbrev pub entries_from : ℕ → ℕ → ℕ → List ℕ
entries_from at size zero = []
entries_from at size (suc n) = at ∷ entries_from (at + size) size n

-- The memory map has `n` entries of a size behind its fixed fields.
pub record IsMemmap (n : ℕ) (m : Bytes) (mb : Multiboot) : Type 0 where
  pub nonnull : mb.mb_memmap_info ≢ 0
  pub step : 0 < entry_size m mb.mb_memmap_info
  pub size : tag_size m mb.mb_memmap_info ≡ memmap_info_size + n * entry_size m mb.mb_memmap_info

memmap_loop-entries_from :
    (n fuel at : ℕ) (m : Bytes) (mb : Multiboot)
    → 0 < at
    → 0 < entry_size m mb.mb_memmap_info
    → at + n * entry_size m mb.mb_memmap_info ≡ mb.mb_memmap_info + tag_size m mb.mb_memmap_info
    → n < fuel
    → memmap_loop fuel at m mb ≡ some (entries_from at (entry_size m mb.mb_memmap_info) n)
unfolding memmap_loop mb_memmap_iter_next
memmap_loop-entries_from n zero at m mb above step ends enough = absurd (omega (arith, enough))
memmap_loop-entries_from zero (suc fuel) at m mb above step ends enough =
    let over : leb (mb.mb_memmap_info + tag_size m mb.mb_memmap_info) at ≡ true = ground arith in
    rw over refl
memmap_loop-entries_from (suc n) (suc fuel) at m mb above step ends enough =
    let size = entry_size m mb.mb_memmap_info in
    let more : leb (mb.mb_memmap_info + tag_size m mb.mb_memmap_info) at ≡ false = grind arith in
    let nonnull : (at == 0) ≡ false = ground arith in
    let tail =
      memmap_loop-entries_from n fuel (at + size) m mb (omega (arith, above)) step (grind arith)
        (omega (arith, enough)) in
    rw (more, nonnull, tail) refl

-- For a memory map that holds a number of whole entries of a size that is not 0, on fuel that exceeds
-- the number, the loop over the iterator ends, and its body sees every entry once, in order.
pub memmap_loop-IsMemmap :
    (n fuel : ℕ) (m : Bytes) (mb : Multiboot)
    → IsMemmap n m mb
    → n < fuel
    → (it : ℕ) × (mb_memmap_iter_init mb ≡ some it)
      × (memmap_loop fuel it m mb
          ≡ some (
              entries_from
                (mb.mb_memmap_info + memmap_info_size)
                (entry_size m mb.mb_memmap_info)
                n))
memmap_loop-IsMemmap n fuel m mb map enough =
    let nonnull : (mb.mb_memmap_info == 0) ≡ false = ground (arith, map.nonnull) in
    (
      mb.mb_memmap_info + memmap_info_size,
      rw nonnull refl,
      memmap_loop-entries_from n fuel (mb.mb_memmap_info + memmap_info_size) m mb (omega arith)
          map.step (omega (arith, map.size)) enough,
    )
