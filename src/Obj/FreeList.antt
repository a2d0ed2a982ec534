-- ===== src/Obj/FreeList.antt =====
-- The free objects of an allocator of mm/obj.c.
use heaven_os.Prelude.{
  ℕ, ◌≤◌, ◌≡◌, ◌≢◌, refl, arith, true, false, leb, ◌==◌, update, count, some, List, [], ◌∷◌,
}
use heaven_os.Memory.{page_size}
use heaven_os.Obj.{Words, ObjAlloc, take, object_alloc, object_free}

-- From `head` on the words link the objects of the list, none of them NULL, and end with NULL.
abbrev pub Linked : Words → ℕ → List ℕ → Type 0
Linked m head [] = head ≡ 0
Linked m head (x ∷ xs) = (head ≡ x) × (x ≢ 0) × Linked m (m x) xs

-- A write to an object that is not in the list leaves the list.
pub Linked-update :
    (m : Words) (head : ℕ) (xs : List ℕ) (a v : ℕ)
    → count a xs ≡ 0
    → Linked m head xs
    → Linked (update m a v) head xs
Linked-update m head [] a v out l = l
Linked-update m head (x ∷ xs) a v out (e, ne, l) =
    let kept : update m a v x ≡ m x = ground arith in
    (e, ne, rw kept (Linked-update m (m x) xs a v (ground arith) l))

-- While an allocator of objects of at most a page has a free object, `object_alloc` asks for no
-- page: it returns the first one and takes it out of the list, and changes no memory.
pub object_alloc-Linked :
    (page : ℕ) (alloc : ObjAlloc) (m : Words) (x : ℕ) (xs : List ℕ)
    → alloc.obj_size ≤ page_size
    → Linked m alloc.next_free (x ∷ xs)
    → (object_alloc page alloc m ≡ some (x, record alloc { next_free = m x }, m))
      × Linked m (m x) xs
unfolding object_alloc take
object_alloc-Linked page alloc m x xs fits (e, ne, l) =
    let small : leb alloc.obj_size page_size ≡ true = ground arith in
    let there : (alloc.next_free == 0) ≡ false = ground arith in
    let live : (x == 0) ≡ false = ground arith in (rw (small, there, e, live) refl, l)

-- `object_free` of an object that is not NULL leaves an allocator whose only free object is the freed one, whatever objects were
-- free before.
pub object_free-Linked :
    (obj : ℕ) (alloc : ObjAlloc) (m : Words)
    → obj ≢ 0
    → (alloc' : ObjAlloc) × (m' : Words) × (object_free obj alloc m ≡ some (alloc', m'))
      × Linked m' alloc'.next_free (obj ∷ [])
unfolding object_free
object_free-Linked obj alloc m ne =
    let some_obj : (obj == 0) ≡ false = ground arith in
    let ends : update m obj 0 obj ≡ 0 = ground arith in
    (record alloc { next_free = obj }, update m obj 0, rw some_obj refl, (refl, ne, ends))
