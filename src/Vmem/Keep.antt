-- ===== src/Vmem/Keep.antt =====
-- A table of mm/vmem.c that `vmem_ensure_next_table` finds keeps the tree and the mappings.
use heaven_os.Prelude.{
  ℕ, zero, suc, ◌+◌, ◌%◌, ◌<◌, ◌≡◌, ◌⊎◌, true, false, inl, inr, ℕ_discrete, update, refl, sym, ◌∙◌,
  ap, arith,
}
use heaven_os.Vmem.Tables.{entry, is_set, pte_present, pte_page_size, pte_addr, phys_to_virt}
use heaven_os.Vmem.Walk.{
  drop, word_at, next_table, walk, walk-step, IsTree, Extends, entry-injective, update-same,
  update-other,
}

-- A write of an entry that points to a table keeps what the walk reads of it.
module _ (w level prefix : ℕ → ℕ) (pml4 tbl idx v : ℕ) (tree : IsTree w level prefix pml4)
    (upper : 1 < level tbl) (in_table : idx < 512)
    (addr : pte_addr v ≡ pte_addr (word_at w tbl idx))
    (present : is_set v pte_present ≡ is_set (word_at w tbl idx) pte_present)
    (size : is_set v pte_page_size ≡ is_set (word_at w tbl idx) pte_page_size)
    (table : is_set (word_at w tbl idx) pte_page_size ≡ false) where
  written : ℕ → ℕ
  written = update w (entry tbl idx) v

  -- An entry of a table is the written one, or as it was.
  which :
      (t i : ℕ)
      → 0 < level t
      → i < 512
      → ((t ≡ tbl) × (i ≡ idx)) ⊎ (word_at written t i ≡ word_at w t i)
  unfolding written
  which t i ht hi = elim (ℕ_discrete (entry t i) (entry tbl idx)) [
    | yes e ↦ inl (
        entry-injective t tbl i idx (tree.aligned t ht) (tree.aligned tbl (omega arith)) hi in_table
          e)
    | no ne ↦ inr (update-other w (entry tbl idx) v (entry t i) ne)
  ]

  at_idx : word_at written tbl idx ≡ v
  unfolding written
  at_idx = update-same w (entry tbl idx) v

  same_present :
      (t i : ℕ)
      → 0 < level t
      → i < 512
      → is_set (word_at written t i) pte_present ≡ is_set (word_at w t i) pte_present
  same_present t i ht hi = elim (which t i ht hi) [
    | inl (e, e') ↦ rw (e, e', at_idx) present
    | inr e ↦ rw e refl
  ]

  same_size :
      (t i : ℕ)
      → 0 < level t
      → i < 512
      → is_set (word_at written t i) pte_page_size ≡ is_set (word_at w t i) pte_page_size
  same_size t i ht hi = elim (which t i ht hi) [
    | inl (e, e') ↦ rw (e, e', at_idx) size
    | inr e ↦ rw e refl
  ]

  same_next :
      (t i : ℕ)
      → 0 < level t
      → i < 512
      → next_table (word_at written t i) ≡ next_table (word_at w t i)
  same_next t i ht hi = elim (which t i ht hi) [
    | inl (e, e') ↦ rw (e, e', at_idx) (ap phys_to_virt addr)
    | inr e ↦ rw e refl
  ]

  pub keep-IsTree : IsTree (update w (entry tbl idx) v) level prefix pml4
  unfolding written
  keep-IsTree = record {
    top = tree.top;
    top_prefix = tree.top_prefix;
    aligned = tree.aligned;
    child_level = λ t i ht hi p s.
        ap (λ (x : ℕ). level x + 1) (same_next t i (omega (arith, ht)) hi)
        ∙ tree.child_level t i ht hi (sym (same_present t i (omega (arith, ht)) hi) ∙ p)
            (sym (same_size t i (omega (arith, ht)) hi) ∙ s);
    child_prefix = λ t i ht hi p s.
        ap prefix (same_next t i (omega (arith, ht)) hi)
        ∙ tree.child_prefix t i ht hi (sym (same_present t i (omega (arith, ht)) hi) ∙ p)
            (sym (same_size t i (omega (arith, ht)) hi) ∙ s);
  }

  keep-walk : (l t va : ℕ) → level t ≡ suc l → walk l written t va ≡ walk l w t va
  keep-walk zero t va ht = elim (which t (drop 0 va % 512) (omega arith) (omega arith)) [
    | inl (e, e') ↦ let one : level tbl ≡ 1 = rw e at ht in absurd (omega arith)
    | inr e ↦ rw e refl
  ]
  keep-walk (suc l) t va ht =
      let i = drop (suc l) va % 512 in
      walk-step l t va w written (
        same_present t i (omega arith) (omega arith),
        λ p s. elim (which t i (omega arith) (omega arith)) [
          | inl (e, e') ↦
              let no : is_set (word_at w t i) pte_page_size ≡ false = rw (e, e') table in
              let clash : true ≡ false = sym s ∙ no in cc
          | inr e ↦ e
        ],
        λ p s. (
          same_size t i (omega arith) (omega arith) ∙ s,
          rw (same_next t i (omega arith) (omega arith)) (
              keep-walk l (next_table (word_at w t i)) va
                (omega (arith, tree.child_level t i (omega arith) (omega arith) p s))),
        ),
      )

  pub keep-Extends : Extends w (update w (entry tbl idx) v) level level prefix prefix
  unfolding written
  keep-Extends = record {
    same_level = λ t h. refl;
    same_prefix = λ t h. refl;
    same_points = λ t i n ht hi points. record {
      present = same_present t i ht hi ∙ points.present;
      small = same_size t i ht hi ∙ points.small;
      next = same_next t i ht hi ∙ points.next;
    };
    same_walk = keep-walk;
  }
