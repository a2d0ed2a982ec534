-- ===== src/Memory/Compare.antt =====
-- `memcmp` and `strlen` of common.h.
use heaven_os.Prelude.{
  ℕ, zero, suc, ◌+◌, ◌<◌, ◌≡◌, ◌≢◌, inl, inr, arith, ap, ◌∙◌, ltb, ◌==◌, Bool-cases, some,
}
use native.Mathlib.Nat.{add-zero, zero-add}
use heaven_os.Memory.{Bytes, Sign, minus_one, nought, plus_one, memcmp, strlen_from, strlen}

-- What the sign of `memcmp` says of the two ranges: all bytes are equal, or the first ones that
-- differ are in that order.
abbrev pub FirstDiffer : (ℕ → ℕ → Type 0) → ℕ → ℕ → ℕ → Bytes → Type 0
FirstDiffer R s1 s2 n m =
    (i : ℕ) × (i < n) × ((j : ℕ) → j < i → m (s1 + j) ≡ m (s2 + j)) × R (m (s1 + i)) (m (s2 + i))

abbrev pub Compares : Sign → ℕ → ℕ → ℕ → Bytes → Type 0
Compares nought s1 s2 n m = (j : ℕ) → j < n → m (s1 + j) ≡ m (s2 + j)
Compares minus_one s1 s2 n m = FirstDiffer ◌<◌ s1 s2 n m
Compares plus_one s1 s2 n m = FirstDiffer (λ x y. y < x) s1 s2 n m

shift_index : (m : Bytes) (s i : ℕ) → m (s + suc i) ≡ m (s + 1 + i)
shift_index m s i = ap m (omega arith)

module _ (s1 s2 n : ℕ) (m : Bytes) (same : m s1 ≡ m s2) where
  equal_up_to :
      (k : ℕ)
      → ((j : ℕ) → j < k → m (s1 + 1 + j) ≡ m (s2 + 1 + j))
      → (j : ℕ) → j < suc k
      → m (s1 + j) ≡ m (s2 + j)
  equal_up_to k h zero lt = rw (add-zero, add-zero) same
  equal_up_to k h (suc j) lt = rw (shift_index m s1 j, shift_index m s2 j) (h j (omega arith))

  FirstDiffer-cons :
      (R : ℕ → ℕ → Type 0) → FirstDiffer R (s1 + 1) (s2 + 1) n m → FirstDiffer R s1 s2 (suc n) m
  FirstDiffer-cons R (i, lt, before, order) =
      (suc i, omega arith, equal_up_to i before, rw (shift_index m s1 i, shift_index m s2 i) order)

  Compares-cons : (r : Sign) → Compares r (s1 + 1) (s2 + 1) n m → Compares r s1 s2 (suc n) m
  Compares-cons nought h = equal_up_to n h
  Compares-cons minus_one h = FirstDiffer-cons ◌<◌ h
  Compares-cons plus_one h = FirstDiffer-cons (λ x y. y < x) h

first_here :
    (R : ℕ → ℕ → Type 0) (s1 s2 n : ℕ) (m : Bytes) → R (m s1) (m s2) → FirstDiffer R s1 s2 (suc n) m
first_here R s1 s2 n m r = (0, omega arith, λ j lt. absurd (omega arith), rw (add-zero, add-zero) r)

-- `memcmp` is 0 when all bytes of the two ranges agree; else there is a first index at which they
-- differ, and the sign is that of the two bytes there, as unsigned numbers.
pub memcmp-Compares : (s1 s2 n : ℕ) (m : Bytes) → Compares (memcmp s1 s2 n m) s1 s2 n m
unfolding memcmp
memcmp-Compares s1 s2 zero m = λ j lt. absurd (omega arith)
memcmp-Compares s1 s2 (suc n) m = elim (Bool-cases (m s1 == m s2)) [
  | inl e ↦ rw e (
      Compares-cons s1 s2 n m (ground arith) (memcmp (s1 + 1) (s2 + 1) n m)
        (memcmp-Compares (s1 + 1) (s2 + 1) n m))
  | inr ne ↦ rw ne (elim (Bool-cases (ltb (m s1) (m s2))) [
    | inl lt ↦ rw lt (first_here ◌<◌ s1 s2 n m (ground arith))
    | inr ge ↦ rw ge (first_here (λ x y. y < x) s1 s2 n m (ground arith))
  ])
]

-- With fuel for the text and its end, `strlen` finds the first NUL byte.
strlen_from-total :
    (n f str len : ℕ) (m : Bytes)
    → m (str + (len + n)) ≡ 0
    → ((j : ℕ) → j < n → m (str + (len + j)) ≢ 0)
    → n < f
    → strlen_from f str len m ≡ some (len + n)
unfolding strlen_from
strlen_from-total n zero str len m e h lt = absurd (omega arith)
strlen_from-total zero (suc f) str len m e h lt = ground arith
strlen_from-total (suc n) (suc f) str len m e h lt = ground (
  arith,
  h 0 (omega arith),
  strlen_from-total n f str (len + 1) m (rw (shift n) e)
      (λ j k. rw (shift j) (h (suc j) (omega arith))) (omega arith),
)
  where
    shift : (j : ℕ) → m (str + (len + 1 + j)) ≡ m (str + (len + suc j))
    shift j = ap m (omega arith)

-- Given fuel beyond the length, `strlen` returns the index of the first NUL byte.
pub strlen-total :
    (f str n : ℕ) (m : Bytes)
    → m (str + n) ≡ 0
    → ((j : ℕ) → j < n → m (str + j) ≢ 0)
    → n < f
    → strlen f str m ≡ some n
unfolding strlen
strlen-total f str n m e h lt =
    strlen_from-total n f str 0 m (rw zero-add e) (λ j k. rw zero-add (h j k)) lt
    ∙ ap (λ (t : ℕ). some t) (zero-add n)
