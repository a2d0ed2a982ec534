-- ===== src/FrameAlloc/Invariant.antt =====
-- The invariant of the free lists of a zone of mm/frame_alloc.c, and what linking a block in and
-- unlinking one do to it.
use heaven_os.Prelude.{
  ℕ, ◌+◌, ◌%◌, ◌≤◌, ◌<◌, ◌≡◌, arith, update, count, erase, count-erase, List, ◌∷◌,
}
use heaven_os.FrameAlloc.{Zone, max_order}
use heaven_os.FrameAlloc.Geometry.{size, In}
use heaven_os.FrameAlloc.Cover.{within, cover, cover-push, cover-extract}

-- Free blocks are aligned and stand in the zone, and no address is in two of them.
pub record IsSound (z : Zone) (free : ℕ → List ℕ) : Type 0 where
  pub blocks :
      (k b : ℕ)
      → k ≤ max_order
      → 0 < count b (free k)
      → (b % size k ≡ 0) × In z.start_addr z.end_addr b
  pub once : (a : ℕ) → cover free a ≤ 1

-- A block of the zone that no free block overlaps.
pub record IsLoose (z : Zone) (free : ℕ → List ℕ) (k b : ℕ) : Type 0 where
  pub low : k ≤ max_order
  pub aligned : b % size k ≡ 0
  pub inside : In z.start_addr z.end_addr b
  pub clear : (a : ℕ) → within b (size k) a + cover free a ≤ 1

module _ {z : Zone} {free : ℕ → List ℕ} (inv : IsSound z free) (k b : ℕ) where
  -- A loose block is linked in.
  pub push-IsSound : IsLoose z free k b → IsSound z (update free k (b ∷ free k))
  push-IsSound loose = record {
    blocks = λ j c lowj mem. ground (arith, inv.blocks j c, loose.aligned, loose.inside);
    once = λ a. omega (arith, cover-push free k loose.low b a, loose.clear a);
  }

  module _ (low : k ≤ max_order) (mem : 0 < count b (free k)) where
    -- A free block is unlinked, and is loose from then on.
    pub extract-IsSound : IsSound z (update free k (erase b (free k)))
    extract-IsSound = record {
      blocks = λ j c lowj there. ground (arith, inv.blocks j c, count-erase b c (free k) mem);
      once = λ a. omega (arith, cover-extract free k low b a mem, inv.once a);
    }

    pub extract-IsLoose : IsLoose z (update free k (erase b (free k))) k b
    extract-IsLoose = record {
      low = low;
      aligned = (inv.blocks k b low mem).0;
      inside = (inv.blocks k b low mem).1;
      clear = λ a. omega (arith, cover-extract free k low b a mem, inv.once a);
    }
