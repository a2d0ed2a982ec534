-- ===== src/FrameAlloc/Split.antt =====
-- The loop of `zone_alloc` of mm/frame_alloc.c that splits a block, and the zeroing of the result.
use heaven_os.Prelude.{
  ℕ, zero, suc, ◌+◌, ◌*◌, ◌%◌, ◌^◌, ◌<◌, ◌≡◌, refl, ◌∙◌, arith, ◌==◌, if◌then◌else◌, update, Option,
  some, List, ◌∷◌,
}
use heaven_os.Memory.{Bytes, memset, page_size}
use heaven_os.Memory.Fill.{memset-at}
use heaven_os.FrameAlloc.{Zone, max_order, buddy_of, split, set_bit}
use heaven_os.FrameAlloc.Geometry.{
  size, size-pos, size-suc, block_size-eq-size, In, block_in, pair_start, halves, aligned_down,
  buddy_of-aligned, pair_start_of_aligned,
}
use heaven_os.FrameAlloc.Cover.{within, cover, cover-push}
use heaven_os.FrameAlloc.Bitmap.{
  IsLaidOut, IsApart, with_free, changed, changed-apart, change_bit-eq,
}
use heaven_os.FrameAlloc.Invariant.{IsSound, IsLoose, push-IsSound}

-- Halving a loose block of order `suc k` frees its second half.
module _ {z : Zone} (laid : IsLaidOut z) {free : ℕ → List ℕ} (inv : IsSound z free) {k b : ℕ}
    (loose : IsLoose z free (suc k) b) where
  half_low : k < max_order
  half_low = loose.low

  half_aligned : b % size k ≡ 0
  half_aligned = aligned_down k b loose.aligned

  second_half : (pair_start k b ≡ b) × (buddy_of k b ≡ b + size k)
  second_half =
      ground (arith, pair_start_of_aligned k b loose.aligned, halves k b half_aligned, size-pos k)

  halved : ℕ → List ℕ
  halved = update free k (buddy_of k b ∷ free k)

  buddy_inside : In z.start_addr z.end_addr (buddy_of k b)
  buddy_inside = omega (
    arith,
    second_half,
    loose.inside,
    block_in laid.zone (suc k) b loose.low loose.inside loose.aligned,
    size-suc k,
    size-pos k,
  )

  buddy_IsLoose : IsLoose z free k (buddy_of k b)
  buddy_IsLoose = record {
    low = omega (arith, half_low);
    aligned = buddy_of-aligned k b half_aligned;
    inside = buddy_inside;
    clear = λ x. ground (arith, loose.clear x, second_half, size-suc k);
  }

  halved-IsSound : IsSound z halved
  unfolding halved
  halved-IsSound = push-IsSound inv k (buddy_of k b) buddy_IsLoose

  halved-cover :
      (x : ℕ) → cover halved x + within b (size k) x ≡ cover free x + within b (size (suc k)) x
  unfolding halved
  halved-cover x = ground (
    arith,
    cover-push free k buddy_IsLoose.low (buddy_of k b) x,
    second_half,
    size-suc k,
    size-pos k,
  )

  halved-IsLoose : IsLoose z halved k b
  halved-IsLoose = record {
    low = buddy_IsLoose.low;
    aligned = half_aligned;
    inside = loose.inside;
    clear = λ x. omega (arith, halved-cover x, loose.clear x);
  }

-- The split of a loose block down to an order: the first part is loose, the rest is free.
pub record Halved (z : Zone) (free : ℕ → List ℕ) (m : Bytes) (large order b : ℕ)
    (r : Option (Zone × Bytes)) : Type 0 where
  pub lists : ℕ → List ℕ
  pub mem : Bytes
  pub returns : r ≡ some (with_free z lists, mem)
  pub sound : IsSound z lists
  pub loose : IsLoose z lists order b
  pub covers :
      (x : ℕ) → cover lists x + within b (size order) x ≡ cover free x + within b (size large) x
  pub same : (x : ℕ) → IsApart z x → mem x ≡ m x

Halved-step :
    {z : Zone} (laid : IsLaidOut z) {free : ℕ → List ℕ} {m : Bytes} (inv : IsSound z free)
    (k order b : ℕ) (loose : IsLoose z free (suc k) b) {r : Option (Zone × Bytes)}
    → Halved z (halved laid inv loose) (changed set_bit z k b m) k order b r
    → Halved z free m (suc k) order b r
Halved-step laid {m} inv k order b loose h = record {
  lists = h.lists;
  mem = h.mem;
  returns = h.returns;
  sound = h.sound;
  loose = h.loose;
  covers = λ x. omega (arith, h.covers x, halved-cover laid inv loose x);
  same = λ x i. h.same x i ∙ changed-apart laid k b loose.low set_bit m loose.inside x i;
}

pub split-Halved :
    {z : Zone} (laid : IsLaidOut z) (left order large b : ℕ) {free : ℕ → List ℕ} {m : Bytes}
    → order + left ≡ large
    → IsSound z free
    → IsLoose z free large b
    → Halved z free m large order b (split left order b (with_free z free) m)
unfolding split halved
split-Halved {z} laid zero order large b {free} {m} e inv loose =
    let e' : order ≡ large = omega arith in
    rw e' (record {
      lists = free;
      mem = m;
      returns = refl;
      sound = inv;
      loose = loose;
      covers = λ x. refl;
      same = λ x h. refl;
    })
split-Halved {z} laid (suc left) order large b {free} {m} e inv loose =
    let k = order + left in
    let l : large ≡ suc k = omega arith in
    let whole : IsLoose z free (suc k) b = rw l at loose in
    rw (l, change_bit-eq laid k b whole.low set_bit m free)
      (Halved-step laid inv k order b whole (
        split-Halved laid left order k b refl (halved-IsSound laid inv whole)
          (halved-IsLoose laid inv whole)))

-- The memory after a block of an order was zeroed.
unfoldable pub zeroed : ℕ → ℕ → Bytes → Bytes
zeroed order b m = memset b 0 (page_size * 2 ^ order) m

pub zeroed-at :
    (order b : ℕ) (m : Bytes) (x : ℕ)
    → zeroed order b m x ≡ (if within b (size order) x == 1 then 0 else m x)
unfolding zeroed
zeroed-at order b m x =
    ground (arith, memset-at b 0 (page_size * 2 ^ order) m x, block_size-eq-size order)
