-- ===== src/Vmem/Grow.antt =====
-- A table of mm/vmem.c that `vmem_ensure_next_table` makes keeps the tree and the mappings.
use heaven_os.Prelude.{
  ℕ, zero, suc, ◌+◌, ◌-◌, ◌*◌, ◌%◌, ◌<◌, ◌≡◌, ◌≢◌, ◌⊎◌, true, false, ltb, leb, ◌&&◌, inl, inr,
  ℕ_discrete, update, refl, sym, ◌∙◌, arith, none,
}
use heaven_os.Vmem.Tables.{entry, clear_page, is_set, pte_present, pte_page_size}
use heaven_os.Vmem.Walk.{
  drop, word_at, next_table, walk, walk-step, IsTree, Extends, entry-injective, update-same,
  update-other,
}

-- A write of an entry that was not present, to point to a page of zeros that was no table.
module _ (w level prefix : ℕ → ℕ) (pml4 tbl idx v new : ℕ) (tree : IsTree w level prefix pml4)
    (upper : 1 < level tbl) (in_table : idx < 512)
    (absent : is_set (word_at w tbl idx) pte_present ≡ false) (page : new % 4096 ≡ 0)
    (no_table : level new ≡ 0) (points : next_table v ≡ new) (present : is_set v pte_present ≡ true)
    (size : is_set v pte_page_size ≡ false) where
  written : ℕ → ℕ
  written = update (clear_page new w) (entry tbl idx) v

  level' : ℕ → ℕ
  level' = update level new (level tbl - 1)

  prefix' : ℕ → ℕ
  prefix' = update prefix new (512 * prefix tbl + idx)

  -- A table is not the new page.
  old : (t : ℕ) → 0 < level t → t ≢ new
  old t ht e = let nought : level t ≡ 0 = rw e no_table in absurd (omega arith)

  old_word : (t i : ℕ) → 0 < level t → i < 512 → clear_page new w (entry t i) ≡ word_at w t i
  old_word t i ht hi =
      let ne : t ≢ new = old t ht in
      let even : t % 4096 ≡ 0 = tree.aligned t ht in
      let out : (leb new (entry t i) && ltb (entry t i) (new + 4096)) ≡ false = ground arith in
      rw out refl

  new_word : (i : ℕ) → i < 512 → word_at written new i ≡ 0
  unfolding written
  new_word i hi =
      let ne : tbl ≢ new = old tbl (omega arith) in
      let even : tbl % 4096 ≡ 0 = tree.aligned tbl (omega arith) in
      let other : entry new i ≢ entry tbl idx =
        λ e. ne (sym (entry-injective new tbl i idx page even hi in_table e).0) in
      let inside : (leb new (entry new i) && ltb (entry new i) (new + 4096)) ≡ true =
        ground arith in
      update-other (clear_page new w) (entry tbl idx) v (entry new i) other ∙ rw inside refl

  which :
      (t i : ℕ)
      → 0 < level t
      → i < 512
      → ((t ≡ tbl) × (i ≡ idx)) ⊎ (word_at written t i ≡ word_at w t i)
  unfolding written
  which t i ht hi = elim (ℕ_discrete (entry t i) (entry tbl idx)) [
    | yes e ↦ inl (
        entry-injective t tbl i idx (tree.aligned t ht) (tree.aligned tbl (omega arith)) hi in_table
          e)
    | no ne ↦
        inr (update-other (clear_page new w) (entry tbl idx) v (entry t i) ne ∙ old_word t i ht hi)
  ]

  at_idx : word_at written tbl idx ≡ v
  unfolding written
  at_idx = update-same (clear_page new w) (entry tbl idx) v

  old_level : (t : ℕ) → 0 < level t → level' t ≡ level t
  unfolding level'
  old_level t ht = update-other level new (level tbl - 1) t (old t ht)

  old_prefix : (t : ℕ) → 0 < level t → prefix' t ≡ prefix t
  unfolding prefix'
  old_prefix t ht = update-other prefix new (512 * prefix tbl + idx) t (old t ht)

  -- The tables from the outside, and the new one.
  table_cases : (t : ℕ) → 0 < level' t → (t ≡ new) ⊎ (0 < level t)
  unfolding level'
  table_cases t ht = elim (ℕ_discrete t new) [
    | yes e ↦ inl e
    | no ne ↦ inr (omega (arith, ht, update-other level new (level tbl - 1) t ne))
  ]

  new_level : level' new + 1 ≡ level tbl
  unfolding level'
  new_level = omega (arith, update-same level new (level tbl - 1), upper)

  new_prefix : prefix' new ≡ 512 * prefix tbl + idx
  unfolding prefix'
  new_prefix = update-same prefix new (512 * prefix tbl + idx)

  -- An entry of the new table is not present.
  new_absent : (i : ℕ) → i < 512 → is_set (word_at written new i) pte_present ≡ false
  new_absent i hi = rw (new_word i hi) refl

  child_level' :
      (t i : ℕ)
      → 1 < level' t
      → i < 512
      → is_set (word_at written t i) pte_present ≡ true
      → is_set (word_at written t i) pte_page_size ≡ false
      → level' (next_table (word_at written t i)) + 1 ≡ level' t
  child_level' t i ht hi p s = elim (table_cases t (omega arith)) [
    | inl e ↦ let none_there = new_absent i hi in let p' = rw e at p in cc
    | inr in_old ↦
        let lt : level' t ≡ level t = old_level t in_old in
        elim (which t i in_old hi) [
          | inl (e, e') ↦ rw (e, e', at_idx, points, old_level tbl (omega arith)) new_level
          | inr e ↦
              let p' = rw e at p in
              let s' = rw e at s in
              let child = tree.child_level t i (omega arith) hi p' s' in
              rw (e, lt, old_level (next_table (word_at w t i)) (omega arith)) child
        ]
  ]

  child_prefix' :
      (t i : ℕ)
      → 1 < level' t
      → i < 512
      → is_set (word_at written t i) pte_present ≡ true
      → is_set (word_at written t i) pte_page_size ≡ false
      → prefix' (next_table (word_at written t i)) ≡ 512 * prefix' t + i
  child_prefix' t i ht hi p s = elim (table_cases t (omega arith)) [
    | inl e ↦ let none_there = new_absent i hi in let p' = rw e at p in cc
    | inr in_old ↦
        let lt : level' t ≡ level t = old_level t in_old in
        elim (which t i in_old hi) [
          | inl (e, e') ↦ rw (e, e', at_idx, points, old_prefix tbl (omega arith)) new_prefix
          | inr e ↦
              let p' = rw e at p in
              let s' = rw e at s in
              let child = tree.child_level t i (omega arith) hi p' s' in
              rw (e, old_prefix t in_old, old_prefix (next_table (word_at w t i)) (omega arith))
                (tree.child_prefix t i (omega arith) hi p' s')
        ]
  ]

  pub grow-IsTree :
      IsTree
        (update (clear_page new w) (entry tbl idx) v)
        (update level new (level tbl - 1))
        (update prefix new (512 * prefix tbl + idx))
        pml4
  unfolding written level' prefix'
  grow-IsTree = record {
    top = old_level pml4 (omega (arith, tree.top)) ∙ tree.top;
    top_prefix = old_prefix pml4 (omega (arith, tree.top)) ∙ tree.top_prefix;
    aligned =
        λ t ht. elim (table_cases t ht) [ inl e ↦ rw e page | inr in_old ↦ tree.aligned t in_old ];
    child_level = child_level';
    child_prefix = child_prefix';
  }

  walk-new : (l va : ℕ) → walk l written new va ≡ none
  walk-new zero va = rw (new_absent (drop 0 va % 512) (omega arith)) refl
  walk-new (suc l) va = rw (new_absent (drop (suc l) va % 512) (omega arith)) refl

  grow-walk : (l t va : ℕ) → level t ≡ suc l → walk l written t va ≡ walk l w t va
  grow-walk zero t va ht = elim (which t (drop 0 va % 512) (omega arith) (omega arith)) [
    | inl (e, e') ↦ let one : level tbl ≡ 1 = rw e at ht in absurd (omega arith)
    | inr e ↦ rw e refl
  ]
  grow-walk (suc l) t va ht =
      let i = drop (suc l) va % 512 in
      elim (which t i (omega arith) (omega arith)) [
        | inl (e, e') ↦
            let old_absent : is_set (word_at w t i) pte_present ≡ false = rw (e, e') absent in
            let now : word_at written t i ≡ v = rw (e, e') at_idx in
            rw (old_absent, now, present, size, points) (walk-new l va)
        | inr e ↦ walk-step l t va w written (
          rw e refl,
          λ p s. e,
          λ p s. (
            rw e s,
            rw e (
                grow-walk l (next_table (word_at w t i)) va
                  (omega (arith, tree.child_level t i (omega arith) (omega arith) p s))),
          ),
        )
      ]

  pub grow-Extends :
      Extends w
        (update (clear_page new w) (entry tbl idx) v)
        level
        (update level new (level tbl - 1))
        prefix
        (update prefix new (512 * prefix tbl + idx))
  unfolding written level' prefix'
  grow-Extends = record {
    same_level = old_level;
    same_prefix = old_prefix;
    same_points = λ t i n ht hi points. elim (which t i ht hi) [
      | inl (e, e') ↦ let p = rw (e, e') at points.present in cc
      | inr e ↦ record {
        present = rw e points.present;
        small = rw e points.small;
        next = rw e points.next;
      }
    ];
    same_walk = grow-walk;
  }
