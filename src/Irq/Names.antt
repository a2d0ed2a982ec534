-- ===== src/Irq/Names.antt =====
-- `get_irq_name` of arch/x86/irq.c against the table of names that it reads.
use heaven_os.Prelude.{
  ℕ, zero, suc, ◌^◌, ◌<◌, ◌≤◌, ◌≡◌, ◌⊎◌, ◌↔◌, leb, ◌==◌, true, refl, arith, none, List, [], ◌∷◌,
  length, get_elem?, inl, inr, Bool-cases, get_elem?-length, ℕ_discrete,
}
use heaven_os.Irq.{exc_names, get_irq_name, irq_timer, irq_spurious}

get_elem?-beyond : (xs : List (List ℕ)) (i : ℕ) → length xs ≤ i → get_elem? xs i ≡ none
get_elem?-beyond [] i h = refl
get_elem?-beyond (x ∷ xs) zero h = absurd (omega arith)
get_elem?-beyond (x ∷ xs) (suc i) h = get_elem?-beyond xs i (omega arith)

-- For a vector as an `int`, `get_irq_name` reads outside its table of names exactly when the vector is
-- 22, the number of names, or negative.
pub get_irq_name-outside :
    (n : ℕ) → n < 2 ^ 32 → (get_irq_name n ≡ none) ↔ ((n ≡ 22) ⊎ (2 ^ 31 ≤ n))
get_irq_name-outside n small = (outside, inside)
  where
    inside : (n ≡ 22) ⊎ (2 ^ 31 ≤ n) → get_irq_name n ≡ none
    inside (inl e) = rw e refl
    inside (inr le) =
        let high : leb (2 ^ 31) n ≡ true = ground (arith, le) in
        rw high (get_elem?-beyond exc_names n (omega (arith, le)))

    outside : get_irq_name n ≡ none → (n ≡ 22) ⊎ (2 ^ 31 ≤ n)
    outside e = elim (Bool-cases (leb (2 ^ 31) n)) [
      | inl high ↦ inr (ground arith)
      | inr low ↦ elim (Bool-cases (leb n 22)) [
        | inl few ↦ elim (ℕ_discrete n 22) [
          | yes same ↦ inl same
          | no other ↦
              let (x, there) = get_elem?-length exc_names n (ground (arith, few, other)) in
              let read : get_elem? exc_names n ≡ none = rw (low, few) at e in cc
        ]
        | inr many ↦ elim (Bool-cases (n == irq_timer)) [
          | inl t ↦ let shut = rw (low, many, t) at e in cc
          | inr t ↦ elim (Bool-cases (n == irq_spurious)) [
            | inl u ↦ let shut = rw (low, many, t, u) at e in cc
            | inr u ↦ let shut = rw (low, many, t, u) at e in cc
          ]
        ]
      ]
    ]
