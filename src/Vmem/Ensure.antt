-- ===== src/Vmem/Ensure.antt =====
-- `vmem_ensure_next_table` of mm/vmem.c returns the table below, and keeps the tree of the tables.
use heaven_os.Prelude.{
  ℕ, suc, ◌+◌, ◌-◌, ◌*◌, ◌≤◌, ◌<◌, ◌≡◌, ◌≢◌, ◌⊎◌, bit_or, true, false, inl, inr, Bool-cases, update,
  refl, sym, ◌∙◌, ap, arith, some, List, [], ◌∷◌, length,
}
use heaven_os.Vmem.Tables.{
  Machine, entry, clear_page, is_set, pte_present, pte_page_size, phys_to_virt, virt_to_phys,
  vmem_ensure_next_table,
}
use heaven_os.Vmem.Entry.{IsFlags, or-flags, frame-flags}
use heaven_os.Vmem.Walk.{
  word_at, next_table, IsTree, IsFresh, Points, Extends, update-same, update-other,
}
use heaven_os.Vmem.Keep.{keep-IsTree, keep-Extends}
use heaven_os.Vmem.Grow.{grow-IsTree, grow-Extends}

-- The state of the tables after the call, with the number of frames that are left at least.
pub record Ensured (pml4 tbl idx next left : ℕ) (m m' : Machine)
    (level level' prefix prefix' : ℕ → ℕ) : Type 0 where
  pub tree : IsTree m'.word level' prefix' pml4
  pub fresh : IsFresh level' m'.frames
  pub extends : Extends m.word m'.word level level' prefix prefix'
  pub enough : left ≤ length m'.frames
  pub points : Points m'.word tbl idx next
  pub next_level : level' next + 1 ≡ level tbl
  pub next_prefix : prefix' next ≡ 512 * prefix tbl + idx

IsFresh-rest :
    (level : ℕ → ℕ) (new l : ℕ) (rest : List ℕ)
    → IsFresh level (new ∷ rest)
    → IsFresh (update level new l) rest
IsFresh-rest level new l rest fresh = record {
  no_table = λ i f e.
      let ne : f ≢ new =
        λ same. let clash = fresh.once (suc i) 0 f e (ap some (sym same)) in absurd (omega arith) in
      update-other level new l f ne ∙ fresh.no_table (suc i) f e;
  in_map = λ i f e. fresh.in_map (suc i) f e;
  once = λ i j f e e'. let same = fresh.once (suc i) (suc j) f e e' in omega (arith, same);
}

module _ (pml4 tbl idx g left : ℕ) (m : Machine) (level prefix : ℕ → ℕ)
    (tree : IsTree m.word level prefix pml4) (upper : 1 < level tbl) (in_table : idx < 512)
    (flags : IsFlags g) where
  keep-Ensured :
      IsFresh level m.frames
      → left ≤ length m.frames
      → is_set (word_at m.word tbl idx) pte_present ≡ true
      → is_set (word_at m.word tbl idx) pte_page_size ≡ false
      → Ensured pml4 tbl idx
          (next_table (word_at m.word tbl idx))
          left
          m
          (record {
            word = update m.word (entry tbl idx) (bit_or (word_at m.word tbl idx) g);
            frames = m.frames;
            freed = m.freed;
            objects = m.objects;
          })
          level
          level
          prefix
          prefix
  keep-Ensured fresh enough p s =
      let e = word_at m.word tbl idx in
      let (addr, present, size) = or-flags e g flags in
      let now = update-same m.word (entry tbl idx) (bit_or e g) in
      record {
        tree =
            keep-IsTree m.word level prefix pml4 tbl idx (bit_or e g) tree upper in_table addr
              present size s;
        fresh = fresh;
        extends =
            keep-Extends m.word level prefix pml4 tbl idx (bit_or e g) tree upper in_table addr
              present size s;
        enough = enough;
        points = record {
          present = rw now (present ∙ p);
          small = rw now (size ∙ s);
          next = rw now (ap phys_to_virt addr);
        };
        next_level = tree.child_level tbl idx upper in_table p s;
        next_prefix = tree.child_prefix tbl idx upper in_table p s;
      }

  grow-Ensured :
      (new : ℕ) (rest : List ℕ)
      → IsFresh level (new ∷ rest)
      → left ≤ length rest
      → is_set (word_at m.word tbl idx) pte_present ≡ false
      → Ensured pml4 tbl idx new left m
          (record {
            word =
                update
                  (clear_page new m.word)
                  (entry tbl idx)
                  (bit_or (bit_or (virt_to_phys new) pte_present) g);
            frames = rest;
            freed = m.freed;
            objects = m.objects;
          })
          level
          (update level new (level tbl - 1))
          prefix
          (update prefix new (512 * prefix tbl + idx))
  grow-Ensured new rest fresh enough absent =
      let v = bit_or (bit_or (virt_to_phys new) pte_present) g in
      let (lo, hi, page) = fresh.in_map 0 new refl in
      let (addr, present, size) =
        frame-flags (virt_to_phys new) g (omega arith) (omega arith) flags in
      let points : next_table v ≡ new = ap phys_to_virt addr ∙ omega arith in
      let now = update-same (clear_page new m.word) (entry tbl idx) v in
      record {
        tree =
            grow-IsTree m.word level prefix pml4 tbl idx v new tree upper in_table absent page
              (fresh.no_table 0 new refl) points present size;
        fresh = IsFresh-rest level new (level tbl - 1) rest fresh;
        extends =
            grow-Extends m.word level prefix pml4 tbl idx v new tree upper in_table absent page
              (fresh.no_table 0 new refl) points present size;
        enough = enough;
        points = record { present = rw now present; small = rw now size; next = rw now points };
        next_level = omega (arith, update-same level new (level tbl - 1), upper);
        next_prefix = update-same prefix new (512 * prefix tbl + idx);
      }

  -- The call of `frame_alloc`.
  alloc-Ensured :
      (frames : List ℕ)
      → m.frames ≡ frames
      → IsFresh level frames
      → suc left ≤ length frames
      → is_set (word_at m.word tbl idx) pte_present ≡ false
      → (next : ℕ) × (m' : Machine) × (level' : ℕ → ℕ) × (prefix' : ℕ → ℕ) × (vmem_ensure_next_table
            tbl idx g m
          ≡ (some next, m'))
        × Ensured pml4 tbl idx next left m m' level level' prefix prefix'
  unfolding vmem_ensure_next_table
  alloc-Ensured [] e fresh enough absent = absurd (omega arith)
  alloc-Ensured (new ∷ rest) e fresh enough absent = (
    new,
    record {
      word =
          update (clear_page new m.word) (entry tbl idx)
            (bit_or (bit_or (virt_to_phys new) pte_present) g);
      frames = rest;
      freed = m.freed;
      objects = m.objects;
    },
    update level new (level tbl - 1),
    update prefix new (512 * prefix tbl + idx),
    simp (absent, e) refl,
    grow-Ensured new rest fresh (omega arith) absent,
  )

  -- With a frame for it, the call returns the table below.
  pub ensure-Ensured :
      IsFresh level m.frames
      → suc left ≤ length m.frames
      → (is_set (word_at m.word tbl idx) pte_present ≡ false)
        ⊎ (is_set (word_at m.word tbl idx) pte_page_size ≡ false)
      → (next : ℕ) × (m' : Machine) × (level' : ℕ → ℕ) × (prefix' : ℕ → ℕ) × (vmem_ensure_next_table
            tbl idx g m
          ≡ (some next, m'))
        × Ensured pml4 tbl idx next left m m' level level' prefix prefix'
  unfolding vmem_ensure_next_table
  ensure-Ensured fresh enough (inl absent) = alloc-Ensured m.frames refl fresh enough absent
  ensure-Ensured fresh enough (inr s) =
      elim (Bool-cases (is_set (word_at m.word tbl idx) pte_present)) [
        | inr absent ↦ alloc-Ensured m.frames refl fresh enough absent
        | inl p ↦ (
          next_table (word_at m.word tbl idx),
          record {
            word = update m.word (entry tbl idx) (bit_or (word_at m.word tbl idx) g);
            frames = m.frames;
            freed = m.freed;
            objects = m.objects;
          },
          level,
          prefix,
          rw p refl,
          keep-Ensured fresh (omega arith) p s,
        )
      ]
