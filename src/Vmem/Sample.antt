-- ===== src/Vmem/Sample.antt =====
-- A top-level table without entries, four frames behind it and an area of code, at which the theorems
-- on pages are applied.
use heaven_os.Prelude.{
  ℕ, zero, suc, ◌+◌, ◌*◌, ◌<◌, ◌≡◌, ◌==◌, if◌then◌else◌, refl, sym, ◌∙◌, arith, some,
  some_injective, List, [], ◌∷◌, get_elem?,
}
use heaven_os.Vmem.{Area}
use heaven_os.Vmem.Tables.{Machine}
use heaven_os.Vmem.Space.{Space}
use heaven_os.Vmem.Walk.{IsTree, IsFresh}

-- `n` frames in a row.
abbrev pub frames_from : ℕ → ℕ → List ℕ
frames_from base zero = []
frames_from base (suc n) = base ∷ frames_from (base + 4096) n

frames_from-get_elem? :
    (n base i f : ℕ) → get_elem? (frames_from base n) i ≡ some f → (f ≡ base + 4096 * i) × (i < n)
frames_from-get_elem? zero base i f e = cc
frames_from-get_elem? (suc n) base zero f e = (sym (some_injective e) ∙ omega arith, omega arith)
frames_from-get_elem? (suc n) base (suc i) f e =
    let (eq, lt) = frames_from-get_elem? n (base + 4096) i f e in (omega arith, omega arith)

-- The top-level table, with no entries, and four frames behind it.
abbrev pub top_table : ℕ
top_table = 0xffff888000001000

abbrev pub first_frame : ℕ
first_frame = 0xffff888000002000

abbrev pub machine : Machine
machine = record { word = λ a. 0; frames = frames_from first_frame 4; freed = []; objects = 1 }

abbrev pub level : ℕ → ℕ
level t = if t == top_table then 4 else 0

pub tree : IsTree (λ a. 0) level (λ t. 0) top_table
tree = record {
  top = refl;
  top_prefix = refl;
  aligned = λ t h. ground arith;
  child_level = λ t i ht hi p s. cc;
  child_prefix = λ t i ht hi p s. cc;
}

pub fresh : IsFresh level (frames_from first_frame 4)
fresh = record {
  no_table = λ i f e. ground (arith, frames_from-get_elem? 4 first_frame i f e);
  in_map = λ i f e.
      let (eq, lt) = frames_from-get_elem? 4 first_frame i f e in
      (omega arith, omega arith, omega arith);
  once = λ i j f e e'. omega (
    arith,
    (frames_from-get_elem? 4 first_frame i f e).0,
    (frames_from-get_elem? 4 first_frame j f e').0,
  );
}

abbrev pub code : Area
code = record { start = 0x400000; size = 4; flags = 1 }

abbrev pub space : Space
space = record { pml4 = top_table; areas = code ∷ [] }
