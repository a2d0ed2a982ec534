-- ===== src/Obj/Carve.antt =====
-- The loop of `object_alloc` of mm/obj.c that links the objects of a page.
use heaven_os.Prelude.{
  ℕ, zero, suc, ◌+◌, ◌*◌, ◌%◌, ◌^◌, ◌≤◌, ◌<◌, ◌≡◌, ◌≢◌, ◌⊎◌, inl, inr, refl, arith, true, false,
  leb, ◌==◌, update, Bool-cases, count, Option, some, List, [], ◌∷◌,
}
use heaven_os.Memory.{page_size, round_up}
use heaven_os.Obj.{Words, ObjAlloc, carve, take, object_alloc, cache_line_size_bytes}
use heaven_os.Obj.FreeList.{Linked, Linked-update}

-- Every object of the list lies from `lo` on and ends by `hi`.
abbrev pub Within : ℕ → ℕ → ℕ → List ℕ → Type 0
Within size lo hi [] = Unit
Within size lo hi (x ∷ xs) = ((lo ≤ x) × (x + size ≤ hi)) × Within size lo hi xs

Within-count : (size lo hi : ℕ) (xs : List ℕ) → 0 < size → Within size lo hi xs → count hi xs ≡ 0
Within-count size lo hi [] pos w = refl
Within-count size lo hi (x ∷ xs) pos (w, ws) = ground (arith, Within-count size lo hi xs pos ws)

Within-grow :
    (size lo hi hi' : ℕ) (xs : List ℕ) → hi ≤ hi' → Within size lo hi xs → Within size lo hi' xs
Within-grow size lo hi hi' [] le w = tt
Within-grow size lo hi hi' (x ∷ xs) le (w, ws) =
    ((w.0, omega arith), Within-grow size lo hi hi' xs le ws)

-- What the loop returns: it links objects that lie between `lo` and `end`.
abbrev pub Carved : ℕ → ℕ → ℕ → Option (ℕ × Words) → Type 0
Carved size lo end r =
    (prev : ℕ) × (m : Words) × (ys : List ℕ) × (r ≡ some (prev, m))
    × (prev ≢ 0)
    × Linked m prev ys
    × Within size lo end ys

here : (m : Words) (a v : ℕ) → update m a v a ≡ v
here m a v = ground arith

module _ (size lo end : ℕ) (pos : 0 < size) (fits : end + size + 64 < 2 ^ 64) (low : 0 < lo) where
  abbrev stride : ℕ
  stride = round_up size cache_line_size_bytes

  stride-ge : (size ≤ stride) × (64 ≤ stride) × (stride ≤ size + 63)
  stride-ge = (omega arith, omega arith, omega arith)

  -- With fuel for the rest of the page, the loop ends, and links objects that lie between `lo` and
  -- `end`.
  pub carve-Carved :
      (fuel curr prev : ℕ) (m : Words) (xs : List ℕ)
      → lo ≤ curr
      → curr ≤ end + 63
      → end + 64 ≤ curr + 64 * fuel
      → (curr + size ≤ end) ⊎ (prev ≢ 0)
      → Linked m prev xs
      → Within size lo curr xs
      → Within size lo end xs
      → Carved size lo end (carve fuel size end curr prev m)
  unfolding carve
  carve-Carved zero curr prev m xs from to enough some_one l w we = absurd (omega arith)
  carve-Carved (suc fuel) curr prev m xs from to enough some_one l w we =
      go (Bool-cases (leb ((curr + size) % 2 ^ 64) end)) λ h.
        let next : (curr + stride) % 2 ^ 64 ≡ curr + stride = omega (arith, stride-ge) in
        rw next (
          carve-Carved fuel (curr + stride) curr (update m curr prev) (curr ∷ xs) (omega arith)
            (omega (arith, stride-ge)) (omega (arith, stride-ge))
            (inr (λ (z : curr ≡ 0). absurd (omega arith)))
            (
              refl,
              (λ (z : curr ≡ 0). absurd (omega arith)),
              rw (here m curr prev)
                  (Linked-update m prev xs curr prev (Within-count size lo curr xs pos w) l),
            )
            (
              (from, omega (arith, stride-ge)),
              Within-grow size lo curr (curr + stride) xs (omega arith) w,
            )
            ((from, h), we))
    where
      go :
          (leb ((curr + size) % 2 ^ 64) end ≡ true) ⊎ (leb ((curr + size) % 2 ^ 64) end ≡ false)
          → (curr + size ≤ end
              → Carved size lo end
                  (carve fuel size end ((curr + stride) % 2 ^ 64) curr (update m curr prev)))
          → Carved size lo end (carve (suc fuel) size end curr prev m)
      go (inl more) rest =
          let some_page : (curr == 0) ≡ false = ground arith in
          rw (more, some_page) (rest (ground arith))
      go (inr done) rest = (prev, m, xs, rw done refl, ground arith, l, we)

-- Without a free object, `object_alloc` ends, for objects of at least one byte and at most a page,
-- and a page that is not NULL and lies more than 8256 bytes below the end of the addresses of 64
-- bits. It returns an object of the page, and the objects that are free from then on lie in the
-- page as well.
pub object_alloc-carve :
    (page : ℕ) (alloc : ObjAlloc) (m : Words)
    → alloc.next_free ≡ 0
    → 0 < page
    → 0 < alloc.obj_size
    → alloc.obj_size ≤ page_size
    → page + 2 * page_size + 64 < 2 ^ 64
    → (x : ℕ) × (alloc' : ObjAlloc) × (m' : Words) × (ys : List ℕ) × (object_alloc page alloc m
        ≡ some (x, alloc', m'))
      × Linked m' alloc'.next_free ys
      × Within alloc.obj_size page (page + page_size) (x ∷ ys)
unfolding object_alloc take
object_alloc-carve page alloc m none_free low pos fits room = go (
    carve-Carved alloc.obj_size page (page + page_size) pos (omega arith) low 65 page 0 m []
      (omega arith) (omega arith) (omega arith) (inl (omega arith)) refl tt tt)
  where
    small : leb alloc.obj_size page_size ≡ true
    small = ground arith

    no_wrap : (page + page_size) % 2 ^ 64 ≡ page + page_size
    no_wrap = omega arith

    empty : (alloc.next_free == 0) ≡ true
    empty = ground arith

    go :
        Carved alloc.obj_size page
          (page + page_size)
          (carve 65 alloc.obj_size (page + page_size) page 0 m)
        → (x : ℕ) × (alloc' : ObjAlloc) × (m' : Words) × (ys : List ℕ) × (object_alloc page alloc m
            ≡ some (x, alloc', m'))
          × Linked m' alloc'.next_free ys
          × Within alloc.obj_size page (page + page_size) (x ∷ ys)
    go (prev, m', [], r, some_one, l, w) = absurd (some_one l)
    go (prev, m', (y ∷ ys), r, some_one, (e, ne, l), w) =
        let live : (prev == 0) ≡ false = ground arith in
        (
          prev,
          record alloc { next_free = m' prev },
          m',
          ys,
          rw (small, empty, no_wrap, r, live) refl,
          rw e l,
          rw e w,
        )
