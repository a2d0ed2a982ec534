-- ===== src/LinkedList/Ring.antt =====
-- What a linked ring of utils/list.c stands for: the nodes after the head, in order.
use heaven_os.Prelude.{ℕ, ◌<◌, ◌≡◌, ◌⊎◌, inl, inr, List, [], ◌∷◌, arith, ◌==◌, Bool-cases, count}
use heaven_os.LinkedList.{Links, null}

-- From `a` the `next` pointers lead through `xs` to `b`, and the `prev` pointers lead back.
abbrev pub Chain : Links → ℕ → List ℕ → ℕ → Type 0
Chain l a [] b = (l.next a ≡ b) × (l.prev b ≡ a)
Chain l a (x ∷ xs) b = (l.next a ≡ x) × (l.prev x ≡ a) × Chain l x xs b

abbrev pub Uniq : List ℕ → Type 0
Uniq [] = Unit
Uniq (x ∷ xs) = (count x xs ≡ 0) × Uniq xs

-- `head` is the sentinel of a ring of the distinct nodes `xs`.
pub record IsRing (l : Links) (head : ℕ) (xs : List ℕ) : Type 0 where
  pub chain : Chain l head xs head
  pub uniq : Uniq (head ∷ xs)
  pub some_node : count null (head ∷ xs) ≡ 0

-- A change of links that spares the links of a chain keeps it.
pub Chain-frame :
    (l g : Links) (a b : ℕ) (xs : List ℕ)
    → g.next a ≡ l.next a
    → g.prev b ≡ l.prev b
    → ((x : ℕ) → 0 < count x xs → (g.next x ≡ l.next x) × (g.prev x ≡ l.prev x))
    → Chain l a xs b
    → Chain g a xs b
Chain-frame l g a b [] na pb same c = (ground arith, ground arith)
Chain-frame l g a b (x ∷ xs) na pb same c = (
  ground arith,
  ground (arith, same x),
  Chain-frame l g x b xs (ground (arith, same x)) pb (λ y h. same y (ground arith)) c.2,
)

-- The node before a member of a chain.
pub prev_mem :
    (l : Links) (a b x : ℕ) (xs : List ℕ)
    → 0 < count x xs
    → Chain l a xs b
    → 0 < count (l.prev x) (a ∷ xs)
prev_mem l a b x [] h c = absurd (omega arith)
prev_mem l a b x (y ∷ xs) h c = elim (Bool-cases (x == y)) [
  | inl e ↦ ground arith
  | inr ne ↦ ground (arith, prev_mem l y b x xs (ground arith) c.2)
]

-- The node after a member of a chain.
pub next_mem :
    (l : Links) (a b x : ℕ) (xs : List ℕ)
    → 0 < count x xs
    → Uniq xs
    → Chain l a xs b
    → (l.next x ≡ b) ⊎ (0 < count (l.next x) xs)
next_mem l a b x [] h u c = absurd (omega arith)
next_mem l a b x (y ∷ []) h u c = ground arith
next_mem l a b x (y ∷ z ∷ xs) h u c = elim (Bool-cases (x == y)) [
  | inl e ↦ ground arith
  | inr ne ↦ ground (arith, next_mem l y b x (z ∷ xs) (ground arith) u.1 c.2)
]
