-- ===== src/Obj.antt =====
-- mm/obj.c: the allocator of objects of one size, whose free objects are linked by their first
-- eight bytes. Memory is the 64-bit word at each address. `none` is a panic of an assertion or an
-- access through NULL.
pub mod FreeList
pub mod Carve
mod Tests
use heaven_os.Prelude.{
  ℕ, zero, suc, true, false, ◌+◌, ◌%◌, ◌^◌, leb, ◌==◌, if◌then◌else◌, not, update, Option, none,
  some,
}
use heaven_os.Memory.{page_size, round_up}
use heaven_os.FrameAlloc.{kassert, ◌>>=◌, ◌>>◌}

abbrev pub cache_line_size_bytes : ℕ
cache_line_size_bytes = 64

-- The 64-bit words of memory, by address.
abbrev pub Words : Type 0
Words = ℕ → ℕ

pub record ObjAlloc : Type 0 where
  pub obj_size : ℕ
  pub next_free : ℕ

-- The loop that links the objects of a page, with fuel: the last object, and the memory.
pub carve : ℕ → ℕ → ℕ → ℕ → ℕ → Words → Option (ℕ × Words)
carve zero size end curr prev m = none
carve (suc fuel) size end curr prev m =
    let rest =
      carve fuel size end ((curr + round_up size cache_line_size_bytes) % 2 ^ 64) curr
        (update m curr prev) in
    if leb ((curr + size) % 2 ^ 64) end then kassert (not (curr == 0)) >> rest else some (prev, m)

-- The end of `object_alloc`: the first free object.
pub take : ObjAlloc → Words → Option (ℕ × ObjAlloc × Words)
take alloc m = do
  kassert (not (alloc.next_free == 0))
  some (alloc.next_free, record alloc { next_free = m alloc.next_free }, m)

-- `object_alloc`, where `page` is what `frame_alloc` returns if it is called. A page of 4096 bytes
-- takes at most 64 turns of the loop, and one to leave it.
pub object_alloc : ℕ → ObjAlloc → Words → Option (ℕ × ObjAlloc × Words)
object_alloc page alloc m = do
  kassert (leb alloc.obj_size page_size)
  elim (alloc.next_free == 0) [
    | false ↦ take alloc m
    | true ↦ do
      (prev, m) ← carve 65 alloc.obj_size ((page + page_size) % 2 ^ 64) page 0 m
      take (record alloc { next_free = prev }) m
  ]

pub object_free : ℕ → ObjAlloc → Words → Option (ObjAlloc × Words)
object_free obj alloc m = do
  kassert (not (obj == 0))
  some (record alloc { next_free = obj }, update m obj 0)
