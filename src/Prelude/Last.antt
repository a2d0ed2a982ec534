-- ===== src/Prelude/Last.antt =====
-- What a loop leaves that keeps the value of the last item of a kind.
use Prim.Native.Nat.{ℕ, zero, suc, ◌<◌}
use mathlib.Core.Path.{◌≡◌, refl, subst}
use mathlib.Core.Logic.{◌≢◌, inl, inr}
use mathlib.Core.Option.{some}
use mathlib.Core.List.{List, ◌∷◌}
use native.Mathlib.Omega.{arith}
use heaven_os.Prelude.Tests.{◌==◌, if◌then◌else◌, Bool-cases, some_injective}
use heaven_os.Prelude.Lists.{get_elem?}

-- The value of the last item of a key in a list, or else the value that was there before.
pub data IsLast (key value : ℕ → ℕ) (type before : ℕ) (items : List ℕ) : ℕ → Type 0 where
  found :
      (i item : ℕ)
      → get_elem? items i ≡ some item
      → key item ≡ type
      → ((j t : ℕ) → i < j → get_elem? items j ≡ some t → key t ≢ type)
      → IsLast key value type before items (value item)
  missing :
      ((j t : ℕ) → get_elem? items j ≡ some t → key t ≢ type)
      → IsLast key value type before items before

module _ (key value : ℕ → ℕ) (type before x : ℕ) (items : List ℕ) where
  IsLast-other :
      (r : ℕ)
      → key x ≢ type
      → IsLast key value type before items r
      → IsLast key value type before (x ∷ items) r
  IsLast-other r other (found i item at matches behind) =
      found (suc i) item at matches (λ j t lt e. after j t lt e)
    where
      after : (j t : ℕ) → suc i < j → get_elem? (x ∷ items) j ≡ some t → key t ≢ type
      after zero t lt e = absurd (omega (arith, lt))
      after (suc j) t lt e = behind j t (omega (arith, lt)) e
  IsLast-other r other (missing none_there) = missing (λ j t e. nowhere j t e)
    where
      nowhere : (j t : ℕ) → get_elem? (x ∷ items) j ≡ some t → key t ≢ type
      nowhere zero t e = subst (λ (y : ℕ). key y ≢ type) (some_injective e) (other)
      nowhere (suc j) t e = none_there j t e

  IsLast-same :
      (r : ℕ)
      → key x ≡ type
      → IsLast key value type (value x) items r
      → IsLast key value type before (x ∷ items) r
  IsLast-same r same (found i item at matches behind) =
      found (suc i) item at matches (λ j t lt e. after j t lt e)
    where
      after : (j t : ℕ) → suc i < j → get_elem? (x ∷ items) j ≡ some t → key t ≢ type
      after zero t lt e = absurd (omega (arith, lt))
      after (suc j) t lt e = behind j t (omega (arith, lt)) e
  IsLast-same r same (missing none_there) = found 0 x refl same (λ j t lt e. after j t lt e)
    where
      after : (j t : ℕ) → 0 < j → get_elem? (x ∷ items) j ≡ some t → key t ≢ type
      after zero t lt e = absurd (omega (arith, lt))
      after (suc j) t lt e = none_there j t e

-- A round of a loop that keeps the value of each item of the key.
pub IsLast-step :
    (key value : ℕ → ℕ) (type before x : ℕ) (items : List ℕ) (r : ℕ)
    → IsLast key value type (if key x == type then value x else before) items r
    → IsLast key value type before (x ∷ items) r
IsLast-step key value type before x items r h = elim (Bool-cases (key x == type)) [
  | inl e ↦ IsLast-same key value type before x items r (ground arith) (rw e at h)
  | inr e ↦ IsLast-other key value type before x items r (ground arith) (rw e at h)
]
