-- ===== src/FrameAlloc/Bitmap.antt =====
-- The writes of zone_alloc of mm/frame_alloc.c to the bitmaps of a zone.
use heaven_os.Prelude.{ℕ, ◌%◌, ◌<◌, ◌≡◌, ◌≢◌, refl, arith, false, ◌==◌, update, some, List}
use heaven_os.Memory.{Bytes, u8}
use heaven_os.FrameAlloc.{Zone, max_order, buddy_index, byte_addr, change_bit}
use heaven_os.FrameAlloc.Geometry.{IsZone, In}

-- The zone is aligned to blocks of the highest order, and the orders below the highest have a bitmap.
pub record IsLaidOut (z : Zone) : Type 0 where
  pub zone : IsZone z.start_addr z.end_addr
  pub nonnull : (k : ℕ) → k < max_order → z.bitmap k ≢ 0

-- The address is no byte of a bitmap that the blocks of the zone use.
abbrev pub IsApart : Zone → ℕ → Type 0
IsApart z x = (k a : ℕ) → k < max_order → In z.start_addr z.end_addr a → x ≢ byte_addr z k a

-- The memory after a change of the bit of the pair of `b`.
pub changed : (ℕ → ℕ → ℕ) → Zone → ℕ → ℕ → Bytes → Bytes
changed op z k b m =
    update m (byte_addr z k b) (u8 (op (m (byte_addr z k b)) (buddy_index z k b % 8)))

-- A zone with other free lists.
abbrev pub with_free : Zone → (ℕ → List ℕ) → Zone
with_free z free = record z { free = free }

module _ {z : Zone} (laid : IsLaidOut z) (k b : ℕ) (low : k < max_order) (op : ℕ → ℕ → ℕ)
    (m : Bytes) where
  pub change_bit-eq :
      (free : ℕ → List ℕ) → change_bit op (with_free z free) k b m ≡ some (changed op z k b m)
  unfolding change_bit changed
  change_bit-eq free =
      let e : (z.bitmap k == 0) ≡ false = ground (arith, laid.nonnull k low) in rw e refl

  pub changed-apart :
      In z.start_addr z.end_addr b → (x : ℕ) → IsApart z x → changed op z k b m x ≡ m x
  unfolding changed
  changed-apart here x apart =
      let e : (byte_addr z k b == x) ≡ false = ground (arith, apart k b low here) in rw e refl
