-- ===== src/Memory/Words.antt =====
-- Little-endian words in the bytes of memory, as the pointer casts of the kernel read and write them.
use heaven_os.Prelude.{ℕ, ◌+◌, ◌*◌, ◌/◌, ◌^◌, ◌≤◌, ◌<◌, ◌≡◌, ◌⊎◌, inl, ◌∙◌, ◌%◌, arith, update}
use heaven_os.Memory.{Bytes, u8}

abbrev pub load32 : Bytes → ℕ → ℕ
load32 m a = m a + 256 * m (a + 1) + 65536 * m (a + 2) + 16777216 * m (a + 3)

abbrev pub load64 : Bytes → ℕ → ℕ
load64 m a = load32 m a + 4294967296 * load32 m (a + 4)

unfoldable pub store32 : Bytes → ℕ → ℕ → Bytes
store32 m a v =
    update (update (update (update m a (u8 v)) (a + 1) (u8 (v / 256))) (a + 2) (u8 (v / 65536)))
      (a + 3) (u8 (v / 16777216))

unfoldable pub store16 : Bytes → ℕ → ℕ → Bytes
store16 m a v = update (update m a (u8 v)) (a + 1) (u8 (v / 256))

unfoldable pub store64 : Bytes → ℕ → ℕ → Bytes
unfolding store32
store64 m a v = store32 (store32 m a v) (a + 4) (v / 2 ^ 32)

-- A word is read back.
pub load32-store32 : (m : Bytes) (a v : ℕ) → v < 2 ^ 32 → load32 (store32 m a v) a ≡ v
unfolding store32
load32-store32 m a v h = ground arith

-- No other byte is written.
pub store32-outside : (m : Bytes) (a v b : ℕ) → (b < a) ⊎ (a + 4 ≤ b) → store32 m a v b ≡ m b
unfolding store32
store32-outside m a v b h = ground arith

-- Words apart from it are read as before.
pub load32-store32_apart :
    (m : Bytes) (a v b : ℕ) → (b + 4 ≤ a) ⊎ (a + 4 ≤ b) → load32 (store32 m a v) b ≡ load32 m b
load32-store32_apart m a v b h = ground (
  arith,
  store32-outside m a v b,
  store32-outside m a v (b + 1),
  store32-outside m a v (b + 2),
  store32-outside m a v (b + 3),
)

-- The same for words of 64 bits.
pub store64-outside : (m : Bytes) (a v b : ℕ) → (b < a) ⊎ (a + 8 ≤ b) → store64 m a v b ≡ m b
unfolding store64
store64-outside m a v b h =
    ground (arith, store32-outside (store32 m a v) (a + 4) (v / 2 ^ 32) b, store32-outside m a v b)

load32-store32_low : (m : Bytes) (a v : ℕ) → load32 (store32 m a v) a ≡ v % 2 ^ 32
unfolding store32
load32-store32_low m a v = ground arith

pub load64-store64 : (m : Bytes) (a v : ℕ) → v < 2 ^ 64 → load64 (store64 m a v) a ≡ v
unfolding store64
load64-store64 m a v h =
    let low =
      load32-store32_apart (store32 m a v) (a + 4) (v / 2 ^ 32) a (inl (omega arith))
      ∙ load32-store32_low m a v in
    let high = load32-store32_low (store32 m a v) (a + 4) (v / 2 ^ 32) in
    rw (low, high) (omega (arith, h))

pub load64-same :
    (m m' : Bytes) (a : ℕ) → ((b : ℕ) → a ≤ b → b < a + 8 → m' b ≡ m b) → load64 m' a ≡ load64 m a
load64-same m m' a h = omega (
  arith,
  h a (omega arith) (omega arith),
  h (a + 1) (omega arith) (omega arith),
  h (a + 2) (omega arith) (omega arith),
  h (a + 3) (omega arith) (omega arith),
  h (a + 4) (omega arith) (omega arith),
  h (a + 5) (omega arith) (omega arith),
  h (a + 6) (omega arith) (omega arith),
  h (a + 7) (omega arith) (omega arith),
)
