-- ===== src/Vmem/Way.antt =====
-- The three calls of `vmem_ensure_next_table` in `vmem_map_page` of mm/vmem.c.
use heaven_os.Prelude.{ℕ, ◌%◌, ◌≤◌, ◌≡◌, update, sym, ◌∙◌, arith, none, some, length}
use heaven_os.Vmem.Tables.{Machine, entry, vmem_ensure_next_table}
use heaven_os.Vmem.Entry.{IsFlags}
use heaven_os.Vmem.Walk.{drop, walk, walk-Points, walk-none, IsTree, IsFresh, Points}
use heaven_os.Vmem.Ensure.{ensure-Ensured}
use heaven_os.Vmem.Map.{put, put-Points}

-- The tables on the way to an address.
pub record IsWay (pml4 va pt : ℕ) (w level prefix : ℕ → ℕ) : Type 0 where
  pub pdpt : ℕ
  pub pgdir : ℕ
  pub first : Points w pml4 (drop 3 va % 512) pdpt
  pub second : Points w pdpt (drop 2 va % 512) pgdir
  pub third : Points w pgdir (drop 1 va % 512) pt
  pub pdpt_level : level pdpt ≡ 3
  pub pgdir_level : level pgdir ≡ 2
  pub pt_level : level pt ≡ 1
  pub pt_prefix : prefix pt ≡ drop 1 va

-- The walk follows the way.
pub walk-IsWay :
    (pml4 va pt : ℕ) (w level prefix : ℕ → ℕ)
    → IsWay pml4 va pt w level prefix
    → walk 3 w pml4 va ≡ walk 0 w pt va
walk-IsWay pml4 va pt w level prefix way =
    walk-Points 2 pml4 way.pdpt va w way.first
    ∙ walk-Points 1 way.pdpt way.pgdir va w way.second
    ∙ walk-Points 0 way.pgdir pt va w way.third

-- The way is not affected by a write of the last entry.
pub put-IsWay :
    (pml4 va pt v : ℕ) (w level prefix : ℕ → ℕ)
    → IsTree w level prefix pml4
    → IsWay pml4 va pt w level prefix
    → IsWay pml4 va pt (update w (entry pt (drop 0 va % 512)) v) level prefix
unfolding put
put-IsWay pml4 va pt v w level prefix tree way =
    let points = put-Points w level prefix pml4 pt va v tree way.pt_level way.pt_prefix in
    record {
      pdpt = way.pdpt;
      pgdir = way.pgdir;
      first =
          points pml4 (drop 3 va % 512) way.pdpt (omega (arith, tree.top)) (omega arith) way.first;
      second =
          points way.pdpt (drop 2 va % 512) way.pgdir (omega (arith, way.pdpt_level)) (omega arith)
            way.second;
      third =
          points way.pgdir (drop 1 va % 512) pt (omega (arith, way.pgdir_level)) (omega arith)
            way.third;
      pdpt_level = way.pdpt_level;
      pgdir_level = way.pgdir_level;
      pt_level = way.pt_level;
      pt_prefix = way.pt_prefix;
    }

-- What the calls leave of a machine, for an address and another one.
pub record IsPrepared (pml4 va va' pt : ℕ) (m m' : Machine) (level prefix : ℕ → ℕ) : Type 0 where
  pub tree : IsTree m'.word level prefix pml4
  pub fresh : IsFresh level m'.frames
  pub way : IsWay pml4 va pt m'.word level prefix
  pub same_walk : walk 3 m'.word pml4 va ≡ walk 3 m.word pml4 va
  pub other_walk : walk 3 m'.word pml4 va' ≡ walk 3 m.word pml4 va'

-- With three frames, an address that is not mapped gets its tables.
pub tables-IsPrepared :
    (pml4 va va' g : ℕ) (m : Machine) (level prefix : ℕ → ℕ)
    → IsTree m.word level prefix pml4
    → IsFresh level m.frames
    → 3 ≤ length m.frames
    → IsFlags g
    → walk 3 m.word pml4 va ≡ none
    → (t3 : ℕ) × (m1 : Machine) × (t2 : ℕ) × (m2 : Machine) × (t1 : ℕ) × (m3 : Machine)
      × (level' : ℕ → ℕ) × (prefix' : ℕ → ℕ) × (vmem_ensure_next_table pml4 (drop 3 va % 512) g m
          ≡ (some t3, m1))
      × (vmem_ensure_next_table t3 (drop 2 va % 512) g m1 ≡ (some t2, m2))
      × (vmem_ensure_next_table t2 (drop 1 va % 512) g m2 ≡ (some t1, m3))
      × IsPrepared pml4 va va' t1 m m3 level' prefix'
tables-IsPrepared pml4 va va' g m level prefix tree fresh enough flags unmapped =
    let (t3, m1, l1, p1, e1, r1) =
      ensure-Ensured pml4 pml4 (drop 3 va % 512) g 2 m level prefix tree (omega (arith, tree.top))
        (omega arith) flags fresh enough (walk-none 2 pml4 va m.word unmapped) in
    let lv3 : l1 t3 ≡ 3 = omega (arith, r1.next_level, tree.top) in
    let un1 : walk 2 m1.word t3 va ≡ none =
      sym (walk-Points 2 pml4 t3 va m1.word r1.points)
      ∙ r1.extends.same_walk 3 pml4 va tree.top
      ∙ unmapped in
    let (t2, m2, l2, p2, e2, r2) =
      ensure-Ensured pml4 t3 (drop 2 va % 512) g 1 m1 l1 p1 r1.tree (omega (arith, lv3))
        (omega arith) flags r1.fresh r1.enough (walk-none 1 t3 va m1.word un1) in
    let lv2 : l2 t2 ≡ 2 = omega (arith, r2.next_level, lv3) in
    let un2 : walk 1 m2.word t2 va ≡ none =
      sym (walk-Points 1 t3 t2 va m2.word r2.points) ∙ r2.extends.same_walk 2 t3 va lv3 ∙ un1 in
    let (t1, m3, l3, p3, e3, r3) =
      ensure-Ensured pml4 t2 (drop 1 va % 512) g 0 m2 l2 p2 r2.tree (omega (arith, lv2))
        (omega arith) flags r2.fresh r2.enough (walk-none 0 t2 va m2.word un2) in
    (
      t3,
      m1,
      t2,
      m2,
      t1,
      m3,
      l3,
      p3,
      e1,
      e2,
      e3,
      record {
        tree = r3.tree;
        fresh = r3.fresh;
        way = record {
          pdpt = t3;
          pgdir = t2;
          first =
              r3.extends.same_points pml4 (drop 3 va % 512) t3 (omega (arith, r2.tree.top))
                (omega arith)
                (r2.extends.same_points pml4 (drop 3 va % 512) t3 (omega (arith, r1.tree.top))
                  (omega arith) r1.points);
          second =
              r3.extends.same_points t3 (drop 2 va % 512) t2
                (omega (arith, r2.extends.same_level t3 (omega (arith, lv3)), lv3)) (omega arith)
                r2.points;
          third = r3.points;
          pdpt_level =
              r3.extends.same_level t3
                (omega (arith, r2.extends.same_level t3 (omega (arith, lv3)), lv3))
              ∙ r2.extends.same_level t3 (omega (arith, lv3))
              ∙ lv3;
          pgdir_level = r3.extends.same_level t2 (omega (arith, lv2)) ∙ lv2;
          pt_level = omega (arith, r3.next_level, lv2);
          pt_prefix =
              omega (arith, r3.next_prefix, r2.next_prefix, r1.next_prefix, tree.top_prefix);
        };
        same_walk =
            r3.extends.same_walk 3 pml4 va r2.tree.top
            ∙ r2.extends.same_walk 3 pml4 va r1.tree.top
            ∙ r1.extends.same_walk 3 pml4 va tree.top;
        other_walk =
            r3.extends.same_walk 3 pml4 va' r2.tree.top
            ∙ r2.extends.same_walk 3 pml4 va' r1.tree.top
            ∙ r1.extends.same_walk 3 pml4 va' tree.top;
      },
    )
