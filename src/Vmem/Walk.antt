-- ===== src/Vmem/Walk.antt =====
-- The walk of the processor through the page tables, and the tree that the tables of mm/vmem.c are.
use heaven_os.Prelude.{
  ℕ, zero, suc, ◌+◌, ◌*◌, ◌/◌, ◌%◌, ◌^◌, ◌≤◌, ◌<◌, ◌≡◌, ◌≢◌, ◌⊎◌, true, false, if◌then◌else◌, inl,
  inr, Bool-cases, update, refl, arith, Option, none, some, List, get_elem?,
}
use heaven_os.Vmem.Tables.{
  entry, is_set, pte_present, pte_page_size, pte_addr, phys_to_virt, direct_map,
}

-- An address of 48 bits without the bits below the index of a level.
abbrev pub drop : ℕ → ℕ → ℕ
drop zero x = x % 2 ^ 48 / 4096
drop (suc level) x = drop level x / 512

-- The entry of a table and the table it points to.
abbrev pub word_at : (ℕ → ℕ) → ℕ → ℕ → ℕ
word_at w t i = w (entry t i)

abbrev pub next_table : ℕ → ℕ
next_table e = phys_to_virt (pte_addr e)

-- The entry that maps an address: of the last level, or of a large page; `level` counts the levels
-- below the table.
abbrev pub walk : ℕ → (ℕ → ℕ) → ℕ → ℕ → Option ℕ
walk zero w t va =
    let e = word_at w t (drop 0 va % 512) in if is_set e pte_present then some e else none
walk (suc level) w t va =
    let e = word_at w t (drop (suc level) va % 512) in
    let rest = walk level w (next_table e) va in
    if is_set e pte_present then (if is_set e pte_page_size then some e else rest) else none

-- The tables form a tree: `level` is 0 for what is no table, and one more than the number of levels
-- below a table, and `prefix` holds the indexes on the way to it.
pub record IsTree (w level prefix : ℕ → ℕ) (pml4 : ℕ) : Type 0 where
  pub top : level pml4 ≡ 4
  pub top_prefix : prefix pml4 ≡ 0
  pub aligned : (t : ℕ) → 0 < level t → t % 4096 ≡ 0
  pub child_level :
      (t i : ℕ)
      → 1 < level t
      → i < 512
      → is_set (word_at w t i) pte_present ≡ true
      → is_set (word_at w t i) pte_page_size ≡ false
      → level (next_table (word_at w t i)) + 1 ≡ level t
  pub child_prefix :
      (t i : ℕ)
      → 1 < level t
      → i < 512
      → is_set (word_at w t i) pte_present ≡ true
      → is_set (word_at w t i) pte_page_size ≡ false
      → prefix (next_table (word_at w t i)) ≡ 512 * prefix t + i

-- Frames of the direct mapping that are no tables, each one once.
pub record IsFresh (level : ℕ → ℕ) (frames : List ℕ) : Type 0 where
  pub no_table : (i f : ℕ) → get_elem? frames i ≡ some f → level f ≡ 0
  pub in_map :
      (i f : ℕ) → get_elem? frames i ≡ some f → (direct_map ≤ f) × (f < 2 ^ 64) × (f % 4096 ≡ 0)
  pub once : (i j f : ℕ) → get_elem? frames i ≡ some f → get_elem? frames j ≡ some f → i ≡ j

-- An entry points to a table.
pub record Points (w : ℕ → ℕ) (t i n : ℕ) : Type 0 where
  pub present : is_set (word_at w t i) pte_present ≡ true
  pub small : is_set (word_at w t i) pte_page_size ≡ false
  pub next : next_table (word_at w t i) ≡ n

-- What a call did to the tables.
pub record Extends (w w' level level' prefix prefix' : ℕ → ℕ) : Type 0 where
  pub same_level : (t : ℕ) → 0 < level t → level' t ≡ level t
  pub same_prefix : (t : ℕ) → 0 < level t → prefix' t ≡ prefix t
  pub same_points : (t i n : ℕ) → 0 < level t → i < 512 → Points w t i n → Points w' t i n
  pub same_walk : (l t va : ℕ) → level t ≡ suc l → walk l w' t va ≡ walk l w t va

pub entry-injective :
    (t u i j : ℕ)
    → t % 4096 ≡ 0
    → u % 4096 ≡ 0
    → i < 512
    → j < 512
    → entry t i ≡ entry u j
    → (t ≡ u) × (i ≡ j)
entry-injective t u i j ht hu hi hj e = (omega arith, omega arith)

pub update-same : (f : ℕ → ℕ) (i v : ℕ) → update f i v i ≡ v
update-same f i v = ground arith

pub update-other : (f : ℕ → ℕ) (i v j : ℕ) → j ≢ i → update f i v j ≡ f j
update-other f i v j ne = ground (arith, ne)

-- The walk goes on from entries that agree on what it reads.
pub walk-step :
    (l t va : ℕ) (w w' : ℕ → ℕ)
    → (let e = word_at w t (drop (suc l) va % 512) in
        let e' = word_at w' t (drop (suc l) va % 512) in
        (is_set e' pte_present ≡ is_set e pte_present)
        × ((is_set e pte_present ≡ true) → is_set e pte_page_size ≡ true → e' ≡ e)
        × ((is_set e pte_present ≡ true)
            → is_set e pte_page_size ≡ false
            → (is_set e' pte_page_size ≡ false)
              × (walk l w' (next_table e') va ≡ walk l w (next_table e) va)))
    → walk (suc l) w' t va ≡ walk (suc l) w t va
walk-step l t va w w' (present, large, small) =
    let e = word_at w t (drop (suc l) va % 512) in
    elim (Bool-cases (is_set e pte_present)) [
      | inr p ↦ rw (present, p) refl
      | inl p ↦ elim (Bool-cases (is_set e pte_page_size)) [
        | inl s ↦ let same = large p s in rw (same, p, s) refl
        | inr s ↦ let (s', rest) = small p s in rw (present, p, s, s') rest
      ]
    ]

pub walk-Points :
    (l t n va : ℕ) (w : ℕ → ℕ)
    → Points w t (drop (suc l) va % 512) n
    → walk (suc l) w t va ≡ walk l w n va
walk-Points l t n va w points = rw (points.present, points.small, points.next) refl

-- No large page is in the way to an address that is not mapped.
pub walk-none :
    (l t va : ℕ) (w : ℕ → ℕ)
    → walk (suc l) w t va ≡ none
    → (is_set (word_at w t (drop (suc l) va % 512)) pte_present ≡ false)
      ⊎ (is_set (word_at w t (drop (suc l) va % 512)) pte_page_size ≡ false)
walk-none l t va w unmapped =
    let e = word_at w t (drop (suc l) va % 512) in
    elim (Bool-cases (is_set e pte_present)) [
      | inr p ↦ inl p
      | inl p ↦ elim (Bool-cases (is_set e pte_page_size)) [
        | inr s ↦ inr s
        | inl s ↦ let mapped = rw (p, s) at unmapped in cc
      ]
    ]
