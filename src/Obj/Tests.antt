-- ===== src/Obj/Tests.antt =====
-- Objects of forty bytes of mm/obj.c, and the theorems of the allocator at them.
use heaven_os.Prelude.{ℕ, ◌≡◌, ◌+◌, refl, arith, some, List, [], ◌∷◌}
use heaven_os.Memory.{page_size}
use heaven_os.Obj.{Words, ObjAlloc, object_alloc, object_free}
use heaven_os.Obj.FreeList.{Linked, object_free-Linked}
use heaven_os.Obj.Carve.{Within, object_alloc-carve}

abbrev blank : Words
blank a = 0

abbrev empty : ObjAlloc
empty = record { obj_size = 40; next_free = 0 }

abbrev one : ObjAlloc
one = record { obj_size = 40; next_free = 0x8000 }

object_free-Linked_example :
    (alloc' : ObjAlloc) × (m' : Words) × (object_free 0x9000 one blank ≡ some (alloc', m'))
    × Linked m' alloc'.next_free (0x9000 ∷ [])
object_free-Linked_example = object_free-Linked 0x9000 one blank (omega arith)

object_alloc-carve_example :
    (x : ℕ) × (alloc' : ObjAlloc) × (m' : Words) × (ys : List ℕ) × (object_alloc 0x8000 empty blank
      ≡ some (x, alloc', m'))
    × Linked m' alloc'.next_free ys
    × Within 40 0x8000 (0x8000 + page_size) (x ∷ ys)
object_alloc-carve_example =
    object_alloc-carve 0x8000 empty blank refl (omega arith) (omega arith) (omega arith)
      (omega arith)
