-- ===== src/FrameAlloc/Alloc.antt =====
-- `zone_alloc` of mm/frame_alloc.c: the block that fits, and the search for a larger one.
use heaven_os.Prelude.{
  ℕ, zero, suc, ◌+◌, ◌-◌, ◌*◌, ◌^◌, ◌≤◌, ◌<◌, ◌≡◌, ◌⊎◌, inl, inr, refl, ap, ◌∙◌, arith, true, false,
  ltb, leb, ◌==◌, if◌then◌else◌, Bool-cases, ==_iff, update, count, erase, Option, none, some, List,
  [], ◌∷◌,
}
use heaven_os.Memory.{Bytes, memset, page_size}
use heaven_os.FrameAlloc.{
  Zone, max_order, change_bit, split, search_larger, take_fit, flip_larger, zone_alloc, flip_bit,
}
use heaven_os.FrameAlloc.Geometry.{size, In}
use heaven_os.FrameAlloc.Cover.{within, cover, cover-extract}
use heaven_os.FrameAlloc.Bitmap.{
  IsLaidOut, IsApart, with_free, changed, changed-apart, change_bit-eq,
}
use heaven_os.FrameAlloc.Invariant.{IsSound, IsLoose, extract-IsSound, extract-IsLoose}
use heaven_os.FrameAlloc.Split.{Halved, split-Halved, zeroed, zeroed-at}

-- What `zone_alloc` returns when it has a block: the block is of the order asked for, aligned to
-- it, and in the zone; the free lists cover every address as before but those of the block, which
-- they do not cover any more; and of the bytes that are in no bitmap, those of the block are zeroed
-- and no other one changes.
pub record Allocated (z : Zone) (free : ℕ → List ℕ) (m : Bytes) (order : ℕ)
    (r : Option (Option ℕ × Zone × Bytes)) : Type 0 where
  pub block : ℕ
  pub lists : ℕ → List ℕ
  pub mem : Bytes
  pub returns : r ≡ some (some block, with_free z lists, mem)
  pub sound : IsSound z lists
  pub loose : IsLoose z lists order block
  pub covers : (x : ℕ) → cover lists x + within block (size order) x ≡ cover free x
  pub bytes : (x : ℕ) → IsApart z x → mem x ≡ (if within block (size order) x == 1 then 0 else m x)

-- The end of both ways to find a block.
abbrev hand_out : ℕ → ℕ → Option (Zone × Bytes) → Option (Option ℕ × Zone × Bytes)
hand_out order b none = none
hand_out order b (some (z, m)) = some (some b, z, memset b 0 (page_size * 2 ^ order) m)

-- The memory after the bit of a block that leaves its free list was turned over.
record Flipped (z : Zone) (free : ℕ → List ℕ) (m : Bytes) (i b : ℕ) (r : Option Bytes)
    : Type 0 where
  mem : Bytes
  returns : r ≡ some mem
  same : (x : ℕ) → IsApart z x → mem x ≡ m x

module _ {z : Zone} (laid : IsLaidOut z) {free : ℕ → List ℕ} (m : Bytes) (inv : IsSound z free)
    (i b : ℕ) (low : i ≤ max_order) (mem : 0 < count b (free i)) where
  inside : In z.start_addr z.end_addr b
  inside = (inv.blocks i b low mem).1

  lists_without : ℕ → List ℕ
  lists_without = update free i (erase b (free i))

  flip_Flipped :
      i < max_order
      → (lists : ℕ → List ℕ) → Flipped z free m i b (change_bit flip_bit (with_free z lists) i b m)
  flip_Flipped lowi lists = record {
    mem = changed flip_bit z i b m;
    returns = change_bit-eq laid i b lowi flip_bit m lists;
    same = changed-apart laid i b lowi flip_bit m inside;
  }

  flip_larger-Flipped :
      (lists : ℕ → List ℕ) → Flipped z free m i b (flip_larger i b (with_free z lists) m)
  flip_larger-Flipped lists = elim (Bool-cases (ltb i max_order)) [
    | inl lt ↦ unfold flip_larger in rw lt (flip_Flipped (ground arith) lists)
    | inr ge ↦ unfold flip_larger in rw ge (record { mem = m; returns = refl; same = λ x h. refl })
  ]

  -- The block is split down to an order and zeroed.
  taken :
      (order : ℕ)
      → order ≤ i
      → {q : Option Bytes} (f : Flipped z free m i b q) {r : Option (Zone × Bytes)}
      → Halved z lists_without f.mem i order b r
      → {s : Option (Option ℕ × Zone × Bytes)}
      → ((lists : ℕ → List ℕ) (mem : Bytes)
          → r ≡ some (with_free z lists, mem)
          → s ≡ some (some b, with_free z lists, memset b 0 (page_size * 2 ^ order) mem))
      → Allocated z free m order s
  unfolding lists_without
  taken order le f h run = record {
    block = b;
    lists = h.lists;
    mem = zeroed order b h.mem;
    returns = unfold zeroed in run h.lists h.mem h.returns;
    sound = h.sound;
    loose = h.loose;
    covers = λ x. omega (arith, h.covers x, cover-extract free i low b x mem);
    bytes = λ x g. ground (arith, zeroed-at order b h.mem x, h.same x g, f.same x g);
  }

  without_IsSound : IsSound z lists_without
  unfolding lists_without
  without_IsSound = extract-IsSound inv i b low mem

  without_IsLoose : IsLoose z lists_without i b
  unfolding lists_without
  without_IsLoose = extract-IsLoose inv i b low mem

  search_take :
      (left order : ℕ) (bs : List ℕ)
      → order ≤ i
      → free i ≡ b ∷ bs
      → Allocated z free m order (search_larger (suc left) i order (with_free z free) m)
  search_take left order bs le e =
      let f = flip_larger-Flipped lists_without in
      let h =
        split-Halved laid (i - order) order i b (omega arith) without_IsSound without_IsLoose in
      taken order le f h (λ lists mem' r. search_runs f r)
    where
      present : (count b (free i) == 0) ≡ false
      present = ground arith

      search_runs :
          {lists : ℕ → List ℕ} {mem' : Bytes}
          (f : Flipped z free m i b (flip_larger i b (with_free z lists_without) m))
          → split (i - order) order b (with_free z lists_without) f.mem
            ≡ some (with_free z lists, mem')
          → search_larger (suc left) i order (with_free z free) m
            ≡ some (some b, with_free z lists, memset b 0 (page_size * 2 ^ order) mem')
      search_runs f r = unfold search_larger lists_without in rw e (rw (present, f.returns, r) refl)

  take_Allocated :
      i < max_order
      → (bs : List ℕ) → free i ≡ b ∷ bs
      → Allocated z free m i (zone_alloc (with_free z free) i m)
  take_Allocated lowi bs e =
      let f = flip_Flipped lowi lists_without in
      let h : Halved z lists_without f.mem i i b (some (with_free z lists_without, f.mem)) =
        record {
          lists = lists_without;
          mem = f.mem;
          returns = refl;
          sound = without_IsSound;
          loose = without_IsLoose;
          covers = λ x. refl;
          same = λ x g. refl;
        } in
      taken i (omega arith) f h (λ lists mem' r. first f ∙ ap (hand_out i b) r)
    where
      present : (count b (free i) == 0) ≡ false
      present = ground arith

      fits : leb i max_order ≡ true
      fits = ground arith

      chosen : zone_alloc (with_free z free) i m ≡ take_fit i b (with_free z free) m
      chosen = unfold zone_alloc in rw (fits, e) refl

      first :
          (f : Flipped z free m i b (change_bit flip_bit (with_free z lists_without) i b m))
          → zone_alloc (with_free z free) i m
            ≡ hand_out i b (some (with_free z lists_without, f.mem))
      first f = chosen ∙ unfold take_fit lists_without in rw (present, f.returns) refl

List-cases : (xs : List ℕ) → (xs ≡ []) ⊎ ((x : ℕ) × (rest : List ℕ) × (xs ≡ x ∷ rest))
List-cases [] = inl refl
List-cases (x ∷ rest) = inr (x, rest, refl)

-- A search from order `i` on finds a block, or leaves the zone as it is where all lists from `i`
-- on are empty.
abbrev pub Searched :
    Zone → (ℕ → List ℕ) → Bytes → ℕ → ℕ → Option (Option ℕ × Zone × Bytes) → Type 0
Searched z free m order i r =
    ((r ≡ some (none, with_free z free, m)) × ((j : ℕ) → i ≤ j → j ≤ max_order → free j ≡ []))
    ⊎ Allocated z free m order r

Searched-next :
    {z : Zone} {free : ℕ → List ℕ} {m : Bytes} (order i : ℕ) {r : Option (Option ℕ × Zone × Bytes)}
    → free i ≡ []
    → Searched z free m order (i + 1) r
    → Searched z free m order i r
Searched-next {free} order i e (inl (r, empty)) = inl (
  r,
  λ j le lej. elim (Bool-cases (i == j)) [
    | inl same ↦ let j' : i ≡ j = (==_iff i j).0 same in rw (← j') e
    | inr later ↦ empty j (ground arith) lej
  ],
)
Searched-next order i e (inr a) = inr a

search_larger-Searched :
    {z : Zone} (laid : IsLaidOut z) (left i order : ℕ) {free : ℕ → List ℕ} {m : Bytes}
    → left + i ≡ suc max_order
    → order ≤ i
    → IsSound z free
    → Searched z free m order i (search_larger left i order (with_free z free) m)
search_larger-Searched laid zero i order e le inv =
    inl (unfold search_larger in refl, λ j lo hi. absurd (omega arith))
search_larger-Searched {z} laid (suc left) i order {free} {m} e le inv =
    go (List-cases (free i))
      (search_larger-Searched laid left (i + 1) order (omega arith) (omega arith) inv)
  where
    go :
        (free i ≡ []) ⊎ ((b : ℕ) × (bs : List ℕ) × (free i ≡ b ∷ bs))
        → Searched z free m order (i + 1) (search_larger left (i + 1) order (with_free z free) m)
        → Searched z free m order i (search_larger (suc left) i order (with_free z free) m)
    go (inl none_here) rest =
        let runs : search_larger (suc left) i order (with_free z free) m
            ≡ search_larger left (i + 1) order (with_free z free) m =
          unfold search_larger in rw none_here refl in
        rw runs (Searched-next order i none_here rest)
    go (inr (b, bs, found)) rest =
        inr (search_take laid m inv i b (omega arith) (ground arith) left order bs le found)

-- On a zone that is laid out and whose free lists are sound, `zone_alloc` of an order below the highest
-- never faults. It returns NULL and changes nothing if no list of the order or a higher one has a
-- block; else it returns a block as `Allocated` says. The bitmaps may overlap.
pub zone_alloc-Allocated :
    {z : Zone} {m : Bytes} (order : ℕ)
    → order < max_order
    → IsLaidOut z
    → IsSound z z.free
    → Searched z z.free m order order (zone_alloc z order m)
zone_alloc-Allocated {z} {m} order low laid inv = go (List-cases (z.free order))
  where
    fits : leb order max_order ≡ true
    fits = ground arith

    go :
        (z.free order ≡ []) ⊎ ((b : ℕ) × (bs : List ℕ) × (z.free order ≡ b ∷ bs))
        → Searched z z.free m order order (zone_alloc z order m)
    go (inl empty) =
        let runs : zone_alloc z order m ≡ search_larger (max_order + 1 - order) order order z m =
          unfold zone_alloc in rw (fits, empty) refl in
        rw runs (
          search_larger-Searched laid (max_order + 1 - order) order order (omega arith)
            (omega arith) inv)
    go (inr (b, bs, found)) =
        inr (take_Allocated laid m inv order b (omega arith) (ground arith) low bs found)
