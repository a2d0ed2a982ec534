-- ===== src/FrameAlloc/Cover.antt =====
-- How often the free lists of a zone cover an address.
use heaven_os.Prelude.{
  ℕ, zero, suc, ◌+◌, ◌≤◌, ◌<◌, ◌≡◌, refl, arith, ltb, if◌then◌else◌, update, count, erase, List, [],
  ◌∷◌, dec_lt,
}
use heaven_os.FrameAlloc.{max_order}
use heaven_os.FrameAlloc.Geometry.{size, size-pos}

-- 1 at the addresses of a block, 0 elsewhere.
abbrev pub within : ℕ → ℕ → ℕ → ℕ
within b s a = if ltb a b then 0 else if ltb a (b + s) then 1 else 0

-- The number of blocks of size `s` in a list that hold an address.
unfoldable pub hits : ℕ → List ℕ → ℕ → ℕ
hits s [] a = 0
hits s (b ∷ bs) a = within b s a + hits s bs a

hits-cons : (s b : ℕ) (bs : List ℕ) (a : ℕ) → hits s (b ∷ bs) a ≡ within b s a + hits s bs a
unfolding hits
hits-cons s b bs a = refl

-- The number of free blocks of the orders below `n` that hold an address.
unfoldable pub cover_below : ℕ → (ℕ → List ℕ) → ℕ → ℕ
cover_below zero free a = 0
cover_below (suc n) free a = cover_below n free a + hits (size n) (free n) a

-- The number of free blocks that hold an address.
unfoldable pub cover : (ℕ → List ℕ) → ℕ → ℕ
cover free a = cover_below (suc max_order) free a

hits-erase :
    (s b : ℕ) (bs : List ℕ) (a : ℕ)
    → 0 < count b bs
    → hits s (erase b bs) a + within b s a ≡ hits s bs a
unfolding hits
hits-erase s b [] a h = absurd (omega arith)
hits-erase s b (c ∷ bs) a h = ground (arith, hits-erase s b bs a)

-- A free block covers its own first address.
count-le-hits : (s b : ℕ) (bs : List ℕ) → 0 < s → count b bs ≤ hits s bs b
unfolding hits
count-le-hits s b [] h = omega arith
count-le-hits s b (c ∷ bs) h = ground (arith, count-le-hits s b bs h)

cover_below-update_of_le :
    (n k : ℕ) (free : ℕ → List ℕ) (bs : List ℕ) (a : ℕ)
    → n ≤ k
    → cover_below n (update free k bs) a ≡ cover_below n free a
unfolding cover_below
cover_below-update_of_le zero k free bs a h = refl
cover_below-update_of_le (suc n) k free bs a h =
    ground (arith, cover_below-update_of_le n k free bs a)

cover_below-update :
    (n k : ℕ) (free : ℕ → List ℕ) (bs : List ℕ) (a : ℕ)
    → k < n
    → cover_below n (update free k bs) a + hits (size k) (free k) a
      ≡ cover_below n free a + hits (size k) bs a
unfolding cover_below
cover_below-update zero k free bs a h = absurd (omega arith)
cover_below-update (suc n) k free bs a h = elim (dec_lt k n) [
  | yes p ↦ ground (arith, cover_below-update n k free bs a p)
  | no p ↦ ground (arith, cover_below-update_of_le n k free bs a)
]

hits-le-cover_below :
    (n k : ℕ) (free : ℕ → List ℕ) (a : ℕ) → k < n → hits (size k) (free k) a ≤ cover_below n free a
unfolding cover_below
hits-le-cover_below zero k free a h = absurd (omega arith)
hits-le-cover_below (suc n) k free a h = elim (dec_lt k n) [
  | yes p ↦ omega (arith, hits-le-cover_below n k free a p)
  | no p ↦ let e : k ≡ n = omega arith in rw e (omega arith)
]

module _ (free : ℕ → List ℕ) (k : ℕ) (low : k ≤ max_order) where
  -- Linking a block in covers its addresses once more.
  pub cover-push :
      (b a : ℕ) → cover (update free k (b ∷ free k)) a ≡ cover free a + within b (size k) a
  unfolding cover
  cover-push b a = omega (
    arith,
    cover_below-update (suc max_order) k free (b ∷ free k) a (omega arith),
    hits-cons (size k) b (free k) a,
  )

  -- Unlinking a block uncovers its addresses once.
  pub cover-extract :
      (b a : ℕ)
      → 0 < count b (free k)
      → cover (update free k (erase b (free k))) a + within b (size k) a ≡ cover free a
  unfolding cover
  cover-extract b a h = omega (
    arith,
    cover_below-update (suc max_order) k free (erase b (free k)) a (omega arith),
    hits-erase (size k) b (free k) a h,
  )

  pub count-le-cover : (b : ℕ) → count b (free k) ≤ cover free b
  unfolding cover
  count-le-cover b = omega (
    arith,
    count-le-hits (size k) b (free k) (size-pos k),
    hits-le-cover_below (suc max_order) k free b (omega arith),
  )
