-- ===== src/LinkedList/Laws.antt =====
-- What the operations of utils/list.c do to the list that a ring stands for.
use heaven_os.Prelude.{
  ℕ, ◌≤◌, ◌<◌, ◌≡◌, ◌≢◌, inl, inr, Bool, true, false, some, List, [], ◌∷◌, arith, ◌==◌, Bool-cases,
  count, erase,
}
use heaven_os.LinkedList.{
  Links, null, set_next, set_prev, list_empty, list_init, list_insert_after, list_extract,
}
use heaven_os.LinkedList.Ring.{Chain, Uniq, IsRing, Chain-frame, prev_mem, next_mem}

abbrev pub is_nil : List ℕ → Bool
is_nil [] = true
is_nil (_ ∷ _) = false

-- `list_empty` on the head of a ring says whether the ring stands for the empty list.
pub list_empty-ring :
    {l : Links} {head : ℕ} (xs : List ℕ) → IsRing l head xs → list_empty head l ≡ some (is_nil xs)
unfolding list_empty
list_empty-ring [] r = ground arith
list_empty-ring (x ∷ xs) r = ground arith

-- `g` has the links of `l` at every node that is not in `xs`.
abbrev pub SameOutside : List ℕ → Links → Links → Type 0
SameOutside xs l g = (y : ℕ) → count y xs ≡ 0 → (g.next y ≡ l.next y) × (g.prev y ≡ l.prev y)

-- `list_init` makes an empty ring of any node but NULL, and writes to no other node.
pub list_init-IsRing :
    (l : Links) (head : ℕ)
    → head ≢ null
    → (l' : Links) × (list_init head l ≡ some l') × IsRing l' head [] × SameOutside (head ∷ []) l l'
unfolding list_init
list_init-IsRing l head h = (
  set_prev head head (set_next head head l),
  ground arith,
  record { chain = ground arith; uniq = ground arith; some_node = ground arith },
  λ y h. ground arith,
)

insert_after_links : ℕ → ℕ → Links → Links
insert_after_links node new l =
    set_prev (l.next node) new
      (set_next new (l.next node) (set_prev new node (set_next node new l)))

-- `list_insert_after` on the head of a ring puts a node that is not NULL and not yet in the ring
-- in front of the list, and writes to no node outside the ring but the new one.
pub list_insert_after-IsRing :
    {l : Links} {head : ℕ} (xs : List ℕ) (new : ℕ)
    → IsRing l head xs
    → new ≢ null
    → count new (head ∷ xs) ≡ 0
    → (l' : Links) × (list_insert_after head new l ≡ some l')
      × IsRing l' head (new ∷ xs)
      × SameOutside (head ∷ new ∷ xs) l l'
unfolding list_insert_after insert_after_links
list_insert_after-IsRing {l} {head} [] new r nn fresh = (
  insert_after_links head new l,
  ground arith,
  record { chain = ground arith; uniq = ground arith; some_node = ground arith },
  λ y h. ground arith,
)
list_insert_after-IsRing {l} {head} (x ∷ xs) new r nn fresh = (
  insert_after_links head new l,
  ground arith,
  record {
    chain = (
      ground arith,
      ground arith,
      (
        ground arith,
        ground arith,
        Chain-frame l (insert_after_links head new l) x head xs (ground arith) (ground arith)
            (λ y h. ground arith) r.chain.2,
      ),
    );
    uniq = ground arith;
    some_node = ground arith;
  },
  λ y h. ground arith,
)

extract_links : ℕ → Links → Links
extract_links node l = set_prev (l.next node) (l.prev node) (set_next (l.prev node) (l.next node) l)

-- Unlinking a member `x` of a chain, where no node of `a ∷ xs` comes twice and `b` is not in `xs`.
Chain-extract :
    (l : Links) (a b x : ℕ) (xs : List ℕ)
    → 0 < count x xs
    → Uniq (a ∷ xs)
    → count b xs ≡ 0
    → Chain l a xs b
    → Chain (extract_links x l) a (erase x xs) b
unfolding extract_links
Chain-extract l a b x [] h u nb c = absurd (omega arith)
Chain-extract l a b x (y ∷ []) h u nb c = ground arith
Chain-extract l a b x (y ∷ z ∷ xs) h u nb c = elim (Bool-cases (x == y)) [
  | inl e ↦ rw e (
    ground arith,
    ground arith,
    Chain-frame l (extract_links x l) z b xs (ground arith) (ground arith) (λ w k. ground arith)
        c.2.2,
  )
  | inr ne ↦ rw ne (
    ground (arith, prev_mem l y b x (z ∷ xs)),
    ground (arith, next_mem l y b x (z ∷ xs)),
    Chain-extract l y b x (z ∷ xs) (ground arith) u.1 (ground arith) c.2,
  )
]

next_ne :
    (l : Links) (a b x : ℕ) (xs : List ℕ)
    → 0 < count x xs
    → Uniq xs
    → count b xs ≡ 0
    → Chain l a xs b
    → l.next x ≢ x
next_ne l a b x [] h u nb c = absurd (omega arith)
next_ne l a b x (y ∷ []) h u nb c = ground arith
next_ne l a b x (y ∷ z ∷ xs) h u nb c = elim (Bool-cases (x == y)) [
  | inl e ↦ ground arith
  | inr ne ↦ next_ne l y b x (z ∷ xs) (ground arith) u.1 (ground arith) c.2
]

count-erase-le : (x y : ℕ) (xs : List ℕ) → count y (erase x xs) ≤ count y xs
count-erase-le x y [] = omega arith
count-erase-le x y (z ∷ xs) = ground (arith, count-erase-le x y xs)

Uniq-erase : (x : ℕ) (xs : List ℕ) → Uniq xs → Uniq (erase x xs)
Uniq-erase x [] u = tt
Uniq-erase x (y ∷ xs) u = elim (Bool-cases (x == y)) [
  | inl e ↦ rw e u.1
  | inr ne ↦ rw ne (omega (arith, count-erase-le x y xs, u.0), Uniq-erase x xs u.1)
]

extract-SameOutside :
    (l : Links) (a b x : ℕ) (xs : List ℕ)
    → 0 < count x xs
    → Uniq xs
    → Chain l a xs b
    → SameOutside (a ∷ b ∷ xs) l (extract_links x l)
unfolding extract_links
extract-SameOutside l a b x xs h u c y out =
    ground (arith, prev_mem l a b x xs, next_mem l a b x xs)

-- `list_extract` on a member of a ring takes it out of the list, and writes to no node outside the
-- ring.
pub list_extract-IsRing :
    {l : Links} {head : ℕ} (xs : List ℕ) (x : ℕ)
    → IsRing l head xs
    → 0 < count x xs
    → (l' : Links) × (list_extract x l ≡ some l')
      × IsRing l' head (erase x xs)
      × SameOutside (head ∷ xs) l l'
list_extract-IsRing {l} {head} xs x r h = (
  extract_links x l,
  unfold list_extract extract_links in ground (arith, next_ne l head head x xs),
  record {
    chain = Chain-extract l head head x xs h r.uniq r.uniq.0 r.chain;
    uniq = (omega (arith, count-erase-le x head xs, r.uniq.0), Uniq-erase x xs r.uniq.1);
    some_node = omega (arith, count-erase-le x null xs, r.some_node);
  },
  λ y out. extract-SameOutside l head head x xs h r.uniq.1 r.chain y (ground arith),
)
