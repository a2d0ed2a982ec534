-- ===== src/Memory/Move.antt =====
-- `memcpy` and `memmove` of common.c as functions of the address.
use heaven_os.Prelude.{
  ℕ, zero, suc, ◌+◌, ◌-◌, ◌*◌, ◌/◌, ◌%◌, ◌≤◌, ◌≡◌, ◌⊎◌, ◌∙◌, inl, inr, refl, arith, true, ltb, ◌&&◌,
  if◌then◌else◌, update, Bool-cases, ==_iff, bit_or, bit_and, ap,
}
use heaven_os.Prelude.Bits.{bit_or_digit, bit_and_digit, bit_and-one}
use heaven_os.Memory.{
  Bytes, memcpy, movsb_up, movsb_down, movsq_up, movsq_down, copy_word, word_aligned, memmove,
}

-- The bytes after `n` bytes from `s` on have been copied to `d`, all read first.
abbrev pub copied : ℕ → ℕ → ℕ → Bytes → Bytes
copied d s n m a = if ltb a d then m a else if ltb a (d + n) then m (s + (a - d)) else m a

-- Upwards no source byte is overwritten before it is read, if the target does not start inside it.
movsb_up-copied :
    (d s c : ℕ) (m : Bytes) (a : ℕ) → (d ≤ s) ⊎ (s + c ≤ d) → movsb_up d s c m a ≡ copied d s c m a
unfolding movsb_up
movsb_up-copied d s zero m a h = ground arith
movsb_up-copied d s (suc c) m a h =
    movsb_up-copied (d + 1) (s + 1) c (update m d (m s)) a (omega arith) ∙ ground arith

movsq_up-copied :
    (d s c : ℕ) (m : Bytes) (a : ℕ)
    → (d ≤ s) ⊎ (s + c * 8 ≤ d)
    → movsq_up d s c m a ≡ copied d s (c * 8) m a
unfolding movsq_up
movsq_up-copied d s zero m a h = ground arith
movsq_up-copied d s (suc c) m a h =
    movsq_up-copied (d + 8) (s + 8) c (copy_word d s m) a (omega arith) ∙ ground arith

-- Downwards, `d` and `s` are where the last byte of each range stands, `lo` and `from` the first.
movsb_down-copied :
    (c lo from : ℕ) (m : Bytes) (a : ℕ)
    → from ≤ lo
    → movsb_down (lo + c - 1) (from + c - 1) c m a ≡ copied lo from c m a
unfolding movsb_down
movsb_down-copied zero lo from m a h = ground arith
movsb_down-copied (suc c) lo from m a h =
    let d' : lo + suc c - 1 - 1 ≡ lo + c - 1 = omega arith in
    let s' : from + suc c - 1 - 1 ≡ from + c - 1 = omega arith in
    let d : lo + suc c - 1 ≡ lo + c = omega arith in
    let s : from + suc c - 1 ≡ from + c = omega arith in
    rw (d', s', d, s)
      (movsb_down-copied c lo from (update m (lo + c) (m (from + c))) a h ∙ ground arith)

movsq_down-copied :
    (c lo from : ℕ) (m : Bytes) (a : ℕ)
    → from ≤ lo
    → movsq_down (lo + c * 8 - 8) (from + c * 8 - 8) c m a ≡ copied lo from (c * 8) m a
unfolding movsq_down
movsq_down-copied zero lo from m a h = ground arith
movsq_down-copied (suc c) lo from m a h =
    let d' : lo + suc c * 8 - 8 - 8 ≡ lo + c * 8 - 8 = omega arith in
    let s' : from + suc c * 8 - 8 - 8 ≡ from + c * 8 - 8 = omega arith in
    let d : lo + suc c * 8 - 8 ≡ lo + c * 8 = omega arith in
    let s : from + suc c * 8 - 8 ≡ from + c * 8 = omega arith in
    rw (d', s', d, s)
      (movsq_down-copied c lo from (copy_word (lo + c * 8) (from + c * 8) m) a h ∙ ground arith)

memcpy-eq-movsb : (d s n : ℕ) (m : Bytes) → memcpy d s n m ≡ movsb_up d s n m
unfolding memcpy movsb_up
memcpy-eq-movsb d s zero m = refl
memcpy-eq-movsb d s (suc n) m = memcpy-eq-movsb (d + 1) (s + 1) n (update m d (m s))

-- When all three are multiples of eight, so is the length.
word_aligned-mod : (s d n : ℕ) → word_aligned s d n ≡ true → n % 8 ≡ 0
unfolding word_aligned
word_aligned-mod s d n h = omega (
  arith,
  (==_iff _ _).0 h,
  bit_or_digit x y,
  bit_or_digit (x / 2) (y / 2),
  bit_or_digit (x / 2 / 2) (y / 2 / 2),
  bit_and_digit n 7,
  bit_and_digit (n / 2) 3,
  bit_and-one (n / 2 / 2),
)
  where
    x : ℕ
    x = bit_or (bit_and s 7) (bit_and d 7)

    y : ℕ
    y = bit_and n 7

-- `memmove` copies the `n` bytes as they were, also where the two ranges overlap, and changes
-- nothing else, whichever of its four copying loops it chooses.
pub memmove-copied : (d s n : ℕ) (m : Bytes) (a : ℕ) → memmove d s n m a ≡ copied d s n m a
unfolding memmove
memmove-copied d s n m a = elim (Bool-cases (ltb s d && ltb d (s + n))) [
  | inl over ↦ rw over (elim (Bool-cases (word_aligned (s + n) (d + n) n)) [
    | inl w ↦
        rw w (rw (whole (s + n) (d + n) w) at (movsq_down-copied (n / 8) d s m a (ground arith)))
    | inr nw ↦ rw nw (movsb_down-copied n d s m a (ground arith))
  ])
  | inr apart ↦ rw apart (elim (Bool-cases (word_aligned s d n)) [
    | inl w ↦ rw w (rw (whole s d w) at (movsq_up-copied d s (n / 8) m a (ground arith)))
    | inr nw ↦ rw nw (movsb_up-copied d s n m a (ground arith))
  ])
]
  where
    whole : (x y : ℕ) → word_aligned x y n ≡ true → n / 8 * 8 ≡ n
    whole x y w = omega (arith, word_aligned-mod x y n w)

-- `memcpy` copies the `n` bytes as they were and changes nothing else, if the target does not start
-- inside the source.
pub memcpy-copied :
    (d s n : ℕ) (m : Bytes) (a : ℕ) → (d ≤ s) ⊎ (s + n ≤ d) → memcpy d s n m a ≡ copied d s n m a
memcpy-copied d s n m a h =
    ap (λ (g : Bytes). g a) (memcpy-eq-movsb d s n m) ∙ movsb_up-copied d s n m a h
