-- ===== src/FrameAlloc/Zones/Serve.antt =====
-- `frames_alloc` of mm/frame_alloc.c serves a request from the first zone that has a block.
use heaven_os.Prelude.{
  ℕ, ◌^◌, ◌≤◌, ◌<◌, ◌≡◌, ◌⊎◌, inl, inr, refl, ap, arith, dec_lt, Option, none, some, List, [], ◌∷◌,
  ◌++◌,
}
use heaven_os.Memory.{Bytes}
use heaven_os.FrameAlloc.{Zone, max_order, zone_alloc}
use heaven_os.FrameAlloc.Bitmap.{IsLaidOut, with_free}
use heaven_os.FrameAlloc.Invariant.{IsSound}
use heaven_os.FrameAlloc.Alloc.{Allocated, Searched, zone_alloc-Allocated}
use heaven_os.FrameAlloc.Zones.{alloc_from, frames_alloc}
use heaven_os.FrameAlloc.Zones.Order.{Least, pages2order-Least}

-- A property of every zone of a list.
abbrev pub All : (Zone → Type 0) → List Zone → Type 0
All P [] = Unit
All P (zone ∷ zones) = P zone × All P zones

abbrev pub Ready : Zone → Type 0
Ready zone = IsLaidOut zone × IsSound zone zone.free

-- The zone has no free block of an order or a higher one.
abbrev pub Exhausted : ℕ → Zone → Type 0
Exhausted order zone = (j : ℕ) → order ≤ j → j ≤ max_order → zone.free j ≡ []

-- The first zone that is not exhausted serves the request, and the other zones stay.
pub record Served (zones : List Zone) (m : Bytes) (order : ℕ)
    (r : Option (Option ℕ × List Zone × Bytes)) : Type 0 where
  pub before : List Zone
  pub zone : Zone
  pub after : List Zone
  pub splits : zones ≡ before ++ zone ∷ after
  pub empty : All (Exhausted order) before
  pub alloc : Allocated zone zone.free m order (zone_alloc zone order m)
  pub returns : r ≡ some (some alloc.block, before ++ with_free zone alloc.lists ∷ after, alloc.mem)

abbrev pub Outcome : List Zone → Bytes → ℕ → Option (Option ℕ × List Zone × Bytes) → Type 0
Outcome zones m order r =
    ((r ≡ some (none, zones, m)) × All (Exhausted order) zones) ⊎ Served zones m order r

alloc_from-Outcome :
    (order : ℕ) (zones : List Zone) {m : Bytes}
    → order < max_order
    → All Ready zones
    → Outcome zones m order (alloc_from zones order m)
unfolding alloc_from
alloc_from-Outcome order [] low ready = inl (refl, tt)
alloc_from-Outcome order (zone ∷ zones) {m} low ready =
    go (zone_alloc-Allocated order low ready.0.0 ready.0.1)
      (alloc_from-Outcome order zones low ready.1)
  where
    go :
        Searched zone zone.free m order order (zone_alloc zone order m)
        → Outcome zones m order (alloc_from zones order m)
        → Outcome (zone ∷ zones) m order (alloc_from (zone ∷ zones) order m)
    go (inl (nothing, gone)) (inl (rest, empty)) = inl (rw (nothing, rest) refl, (gone, empty))
    go (inl (nothing, gone)) (inr s) = inr (record {
      before = zone ∷ s.before;
      zone = s.zone;
      after = s.after;
      splits = ap (λ (zs : List Zone). zone ∷ zs) s.splits;
      empty = (gone, s.empty);
      alloc = s.alloc;
      returns = rw (nothing, s.returns) refl;
    })
    go (inr a) rest = inr (record {
      before = [];
      zone = zone;
      after = zones;
      splits = refl;
      empty = tt;
      alloc = a;
      returns = rw a.returns refl;
    })

below_top : (n k : ℕ) → n ≤ 512 → Least n k → k < max_order
below_top n k few least = elim (dec_lt k max_order) [
  | yes p ↦ p
  | no p ↦ let over : 2 ^ 9 < n = least.2 9 (omega arith) in absurd (omega arith)
]

-- `frames_alloc` of at most 512 pages, over zones that are all laid out and sound, never
-- faults. It asks for the least order that is enough for the pages; it returns NULL and changes
-- nothing if every zone is exhausted, and else allocates in the first zone that is not.
pub frames_alloc-Outcome :
    (zones : List Zone) (n : ℕ) {m : Bytes}
    → n ≤ 512
    → All Ready zones
    → (order : ℕ) × Least n order × Outcome zones m order (frames_alloc zones n m)
unfolding frames_alloc
frames_alloc-Outcome zones n few ready =
    let (order, found, least) = pages2order-Least n (omega arith) in
    let low : order < max_order = below_top n order few least in
    (order, least, rw found (alloc_from-Outcome order zones low ready))
