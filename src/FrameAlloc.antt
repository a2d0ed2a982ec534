-- ===== src/FrameAlloc.antt =====
-- mm/frame_alloc.c: the buddy allocator of physical frames. A zone keeps one free list for each
-- order, here the addresses of its blocks from the head on (`LinkedList.Laws` has what a ring of
-- utils/list.c does to such a list), and a pointer to the bitmap of each order; the bitmaps are
-- bytes of memory. `none` is a panic of an assertion, an access through a NULL bitmap, or the
-- extraction of a block that is in no list.
pub mod Geometry
pub mod Cover
pub mod Bitmap
pub mod Invariant
pub mod Split
pub mod Alloc
pub mod Init
pub mod Zones
mod Tests
use heaven_os.Prelude.{
  ℕ, zero, suc, ◌+◌, ◌-◌, ◌*◌, ◌/◌, ◌%◌, ◌^◌, bit_and, bit_or, bit_xor, Bool, true, false, ltb, leb,
  ◌==◌, ◌&&◌, if◌then◌else◌, update, count, erase, ◌≡◌, refl, Option, none, some, List, [], ◌∷◌,
}
use heaven_os.Prelude.Bits.{all_but}
use heaven_os.Memory.{Bytes, u8, page_size, memset}

-- A chain of steps that may fault.
infixl 5 ◌>>=◌
abbrev pub ◌>>=◌ {ℓ κ} : {A : Type ℓ} {B : Type κ} → Option A → (A → Option B) → Option B
none >>= f = none
some a >>= f = f a

abbrev pub kassert : Bool → Option (Unit {0})
kassert true = some tt
kassert false = none

abbrev pub ◌>>◌ {ℓ} : {B : Type ℓ} → Option (Unit {0}) → Option B → Option B
m >> k = m >>= λ _. k

infixl 5 ◌>>◌
-- An assertion that was passed held.
pub kassert-eq-some {ℓ} :
    {A : Type ℓ} (b : Bool) {k : Option A} {r : A}
    → (kassert b >> k) ≡ some r
    → (b ≡ true) × (k ≡ some r)
kassert-eq-some true e = (refl, e)
kassert-eq-some false e = cc

-- A step that was passed returned something.
pub bind-eq-some {ℓ κ} :
    {A : Type ℓ} {B : Type κ} (m : Option A) {f : A → Option B} {r : B}
    → (m >>= f) ≡ some r
    → (a : A) × (m ≡ some a) × (f a ≡ some r)
bind-eq-some none e = cc
bind-eq-some (some a) e = (a, refl, e)

abbrev pub max_order : ℕ
max_order = 10

abbrev pub max_zone_count : ℕ
max_zone_count = 10

pub record Zone : Type 0 where
  pub free : ℕ → List ℕ
  pub bitmap : ℕ → ℕ
  pub start_addr : ℕ
  pub end_addr : ℕ
  pub pages_count : ℕ

-- `(1 << order) * PAGE_SIZE`
abbrev pub block_size : ℕ → ℕ
block_size order = 2 ^ order * page_size

-- Subtraction of `uint64_t`.
abbrev pub sub64 : ℕ → ℕ → ℕ
sub64 a b = (a + 2 ^ 64 - b) % 2 ^ 64

-- `addr & ~((1 << n) - 1)` at 64 bits.
abbrev pub mask_low : ℕ → ℕ → ℕ
mask_low n addr = bit_and addr (2 ^ 64 - 2 ^ n)

-- The buddy of the block: its address with the bit of the order turned over.
abbrev pub buddy_of : ℕ → ℕ → ℕ
buddy_of order addr = bit_xor addr (2 ^ (12 + order))

abbrev pub buddy_index : Zone → ℕ → ℕ → ℕ
buddy_index zone order addr = sub64 addr zone.start_addr / block_size order / 2

-- `GET_BIT`, `SET_BIT`, `CLEAR_BIT` and `FLIP_BIT` on a byte that is promoted to `int`.
abbrev pub get_bit : ℕ → ℕ → ℕ
get_bit val bit = bit_and (val / 2 ^ bit) 1

abbrev pub set_bit : ℕ → ℕ → ℕ
set_bit val bit = bit_or val (2 ^ bit)

abbrev pub clear_bit : ℕ → ℕ → ℕ
clear_bit val bit = bit_and val (all_but 32 bit)

abbrev pub flip_bit : ℕ → ℕ → ℕ
flip_bit val bit = bit_xor val (2 ^ bit)

abbrev pub has_bitmap : Zone → ℕ → Bool
has_bitmap zone order = if zone.bitmap order == 0 then false else true

-- The address of the byte with a pair's bit.
abbrev pub byte_addr : Zone → ℕ → ℕ → ℕ
byte_addr zone order addr = zone.bitmap order + buddy_index zone order addr / 8

-- `bitmap[buddy_index / 8] = OP(bitmap[buddy_index / 8], buddy_index % 8)` for the pair of a block.
pub change_bit : (ℕ → ℕ → ℕ) → Zone → ℕ → ℕ → Bytes → Option Bytes
change_bit op zone order addr m = do
  kassert (has_bitmap zone order)
  some (
      update m (byte_addr zone order addr)
        (u8 (op (m (byte_addr zone order addr)) (buddy_index zone order addr % 8))))

pub read_bit : Zone → ℕ → ℕ → Bytes → Option ℕ
read_bit zone order addr m = do
  kassert (has_bitmap zone order)
  some (get_bit (m (byte_addr zone order addr)) (buddy_index zone order addr % 8))

-- `list_insert_after` on the head of a free list.
abbrev pub push : ℕ → ℕ → Zone → Zone
push order block zone = record zone { free = update zone.free order (block ∷ zone.free order) }

-- `list_extract` of a block of a free list.
abbrev pub extract : ℕ → ℕ → Zone → Option Zone
extract order block zone =
    if count block (zone.free order) == 0
    then none
    else some (record zone { free = update zone.free order (erase block (zone.free order)) })

-- The loop that halves a block from order `order + left` down to `order`.
pub split : ℕ → ℕ → ℕ → Zone → Bytes → Option (Zone × Bytes)
split zero order block zone m = some (zone, m)
split (suc left) order block zone m = do
  m ← change_bit set_bit zone (order + left) block m
  split left order block (push (order + left) (buddy_of (order + left) block) zone) m

-- The bit of a block that leaves its free list; blocks of the highest order have no pair.
pub flip_larger : ℕ → ℕ → Zone → Bytes → Option Bytes
unfolding change_bit
flip_larger i block zone m = if ltb i max_order then change_bit flip_bit zone i block m else some m

-- The search from order `i` on for a larger block, with `left` orders to go.
pub search_larger : ℕ → ℕ → ℕ → Zone → Bytes → Option (Option ℕ × Zone × Bytes)
search_larger zero i order zone m = some (none, zone, m)
search_larger (suc left) i order zone m = elim (zone.free i) [
  | [] ↦ search_larger left (i + 1) order zone m
  | block ∷ _ ↦ do
    zone ← extract i block zone
    m ← flip_larger i block zone m
    (zone, m) ← split (i - order) order block zone m
    some (some block, zone, memset block 0 (page_size * 2 ^ order) m)
]

-- A block of the order itself. Its bit is turned over for every order, the highest included.
pub take_fit : ℕ → ℕ → Zone → Bytes → Option (Option ℕ × Zone × Bytes)
take_fit order block zone m = do
  zone ← extract order block zone
  m ← change_bit flip_bit zone order block m
  some (some block, zone, memset block 0 (page_size * 2 ^ order) m)

pub zone_alloc : Zone → ℕ → Bytes → Option (Option ℕ × Zone × Bytes)
zone_alloc zone order m = do
  kassert (leb order max_order)
  elim (zone.free order) [
    | [] ↦ search_larger (max_order + 1 - order) order order zone m
    | block ∷ _ ↦ take_fit order block zone m
  ]

-- The loop of `zone_dealloc` at order `order`, with `left` orders below the highest: the address
-- and the order of the block to link in, and the state.
pub coalesce : ℕ → ℕ → ℕ → Zone → Bytes → Option (ℕ × ℕ × Zone × Bytes)
coalesce zero order addr zone m = some (addr, order, zone, m)
coalesce (suc left) order addr zone m = do
  bit ← read_bit zone order addr m
  elim (bit == 0) [
    | true ↦ do m ← change_bit set_bit zone order addr m; some (addr, order, zone, m)
    | false ↦ do
      m ← change_bit clear_bit zone order addr m
      zone ← extract order (buddy_of order addr) zone
      coalesce left (order + 1)
          (if ltb (buddy_of order addr) addr then buddy_of order addr else addr) zone m
  ]

pub zone_dealloc : Zone → ℕ → ℕ → Bytes → Option (Zone × Bytes)
unfolding coalesce
zone_dealloc zone addr order m = do
  kassert (mask_low 12 addr == addr)
  kassert (leb order max_order)
  (free_block, free_order, zone, m) ← coalesce (max_order - order) order addr zone m
  kassert (mask_low (12 + free_order) addr == free_block)
  some (push free_order free_block zone, m)
