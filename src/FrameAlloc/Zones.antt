-- ===== src/FrameAlloc/Zones.antt =====
-- mm/frame_alloc.c: `frames_alloc`, `frames_free`, `frame_alloc`, `frame_free` and `pages2order`,
-- which serve a number of frames from the zones.
pub mod Order
pub mod Serve
use heaven_os.Prelude.{
  ℕ, zero, suc, ◌+◌, ◌-◌, ◌*◌, ◌/◌, ◌%◌, ◌^◌, ◌≤◌, ◌<◌, ◌≡◌, ◌⊎◌, inl, inr, refl, arith, Bool, true,
  false, ltb, leb, ◌&&◌, if◌then◌else◌, Bool-cases, Option, none, some, List, [], ◌∷◌,
}
use heaven_os.Memory.{Bytes}
use heaven_os.FrameAlloc.{Zone, max_order, kassert, ◌>>=◌, ◌>>◌, zone_alloc, zone_dealloc}

-- The loop of `pages2order` from an order on, with `left` turns to go.
pub order_from : ℕ → ℕ → ℕ → Option ℕ
order_from zero order pages = none
order_from (suc left) order pages =
    let rest = order_from left (order + 1) pages in
    if ltb (2 ^ order) pages then rest else some order

-- The loop ends within eleven turns for the numbers of pages that the assertion lets through.
pub pages2order : ℕ → Option ℕ
pages2order pages = do kassert (leb pages (2 ^ max_order)); order_from (max_order + 1) 0 pages

-- The loop of `frames_alloc` over the zones.
pub alloc_from : List Zone → ℕ → Bytes → Option (Option ℕ × List Zone × Bytes)
alloc_from [] order m = some (none, [], m)
alloc_from (zone ∷ zones) order m = do
  (block, zone, m) ← zone_alloc zone order m
  elim block [
    | some b ↦ some (some b, zone ∷ zones, m)
    | none ↦ do (block, zones, m) ← alloc_from zones order m; some (block, zone ∷ zones, m)
  ]

pub frames_alloc : List Zone → ℕ → Bytes → Option (Option ℕ × List Zone × Bytes)
frames_alloc zones n m = do order ← pages2order n; alloc_from zones order m

-- The loop of `frames_free` over the zones; an address of no zone is a panic.
abbrev pub free_to : List Zone → ℕ → ℕ → Bytes → Option (List Zone × Bytes)
free_to [] addr order m = none
free_to (zone ∷ zones) addr order m =
    if leb zone.start_addr addr && ltb addr zone.end_addr
    then (do (zone, m) ← zone_dealloc zone addr order m; some (zone ∷ zones, m))
    else (do (zones, m) ← free_to zones addr order m; some (zone ∷ zones, m))

abbrev pub frames_free : List Zone → ℕ → ℕ → Bytes → Option (List Zone × Bytes)
frames_free zones addr n m = do order ← pages2order n; free_to zones addr order m

abbrev pub frame_alloc : List Zone → Bytes → Option (Option ℕ × List Zone × Bytes)
frame_alloc zones m = frames_alloc zones 1 m

abbrev pub frame_free : List Zone → ℕ → Bytes → Option (List Zone × Bytes)
frame_free zones addr m = frames_free zones addr 1 m
