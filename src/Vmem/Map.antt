-- ===== src/Vmem/Map.antt =====
-- `vmem_map_page` of mm/vmem.c maps the page, and no other.
use heaven_os.Prelude.{ℕ, zero, suc, ◌%◌, ◌<◌, ◌≡◌, ◌≢◌, update, refl, sym, ◌∙◌, ap, arith}
use heaven_os.Vmem.Tables.{entry}
use heaven_os.Vmem.Walk.{
  word_at, next_table, drop, walk, walk-step, IsTree, Points, entry-injective, update-same,
  update-other,
}

-- A write into a table of the last level.
module _ (w level prefix : ℕ → ℕ) (pml4 pt va v : ℕ) (tree : IsTree w level prefix pml4)
    (last : level pt ≡ 1) (way : prefix pt ≡ drop 1 va) where
  unfoldable pub put : ℕ → ℕ
  put = update w (entry pt (drop 0 va % 512)) v

  put-upper : (t i : ℕ) → 1 < level t → i < 512 → word_at put t i ≡ word_at w t i
  unfolding put
  put-upper t i ht hi =
      let ne : t ≢ pt = λ e. let one : level t ≡ 1 = rw e last in absurd (omega arith) in
      update-other w (entry pt (drop 0 va % 512)) v (entry t i) (λ e.
        ne
          (entry-injective t pt i (drop 0 va % 512) (tree.aligned t (omega arith))
            (tree.aligned pt (omega arith)) hi (omega arith) e).0)

  pub put-Points : (t i n : ℕ) → 1 < level t → i < 512 → Points w t i n → Points put t i n
  put-Points t i n ht hi points = record {
    present = rw (put-upper t i ht hi) points.present;
    small = rw (put-upper t i ht hi) points.small;
    next = rw (put-upper t i ht hi) points.next;
  }

  pub put-here : word_at put pt (drop 0 va % 512) ≡ v
  unfolding put
  put-here = update-same w (entry pt (drop 0 va % 512)) v

  -- Addresses of other pages are not affected.
  pub put-walk :
      (l t va' : ℕ)
      → level t ≡ suc l
      → prefix t ≡ drop (suc l) va'
      → drop 0 va' ≢ drop 0 va
      → walk l put t va' ≡ walk l w t va'
  unfolding put
  put-walk zero t va' ht way' ne =
      let other : entry t (drop 0 va' % 512) ≢ entry pt (drop 0 va % 512) = λ e.
        let (same_table, same_index) =
          entry-injective t pt (drop 0 va' % 512) (drop 0 va % 512) (tree.aligned t (omega arith))
            (tree.aligned pt (omega arith)) (omega arith) (omega arith) e in
        let same_way : drop 1 va' ≡ drop 1 va = sym way' ∙ ap prefix same_table ∙ way in
        ne (omega (arith, same_way, same_index)) in
      let kept = update-other w (entry pt (drop 0 va % 512)) v (entry t (drop 0 va' % 512)) other in
      rw kept refl
  put-walk (suc l) t va' ht way' ne =
      let i = drop (suc l) va' % 512 in
      let e = put-upper t i (omega arith) (omega arith) in
      walk-step l t va' w put (
        rw e refl,
        λ p s. e,
        λ p s. (
          rw e s,
          rw e (
              put-walk l (next_table (word_at w t i)) va'
                (omega (arith, tree.child_level t i (omega arith) (omega arith) p s))
                (tree.child_prefix t i (omega arith) (omega arith) p s ∙ omega arith) ne),
        ),
      )

  pub put-IsTree : IsTree (update w (entry pt (drop 0 va % 512)) v) level prefix pml4
  unfolding put
  put-IsTree = record {
    top = tree.top;
    top_prefix = tree.top_prefix;
    aligned = tree.aligned;
    child_level = λ t i ht hi p s.
        let e = put-upper t i ht hi in rw e (tree.child_level t i ht hi (rw e at p) (rw e at s));
    child_prefix = λ t i ht hi p s.
        let e = put-upper t i ht hi in rw e (tree.child_prefix t i ht hi (rw e at p) (rw e at s));
  }
