-- ===== src/LinkedList.antt =====
-- utils/list.c and utils/list.h: circular doubly linked lists that are threaded through the
-- objects that they hold. A pointer is a number, NULL is 0, and the fields of every
-- `list_node_t` in memory are two functions of its address. `none` is a panic of `kassert_dbg`,
-- which is compiled in, since no build defines NDEBUG.
pub mod Ring
pub mod Laws
mod Tests
use heaven_os.Prelude.{ℕ, Bool, true, false, Option, none, some, ◌==◌, if◌then◌else◌, update}

pub record Links : Type 0 where
  pub next : ℕ → ℕ
  pub prev : ℕ → ℕ

abbrev pub null : ℕ
null = 0

abbrev pub set_next : ℕ → ℕ → Links → Links
set_next node v l = record l { next = update l.next node v }

abbrev pub set_prev : ℕ → ℕ → Links → Links
set_prev node v l = record l { prev = update l.prev node v }

pub list_empty : ℕ → Links → Option Bool
list_empty node l = if node == null then none else some (l.next node == node)

pub list_init : ℕ → Links → Option Links
list_init node l = if node == null then none else some (set_prev node node (set_next node node l))

-- The four writes of `list_insert_after`, in its order.
pub list_insert_after : ℕ → ℕ → Links → Option Links
list_insert_after node new l =
    if node == null
    then none
    else if new == null
    then none
    else let old_list_next = l.next node in
      some (
        set_prev old_list_next new
          (set_next new old_list_next (set_prev new node (set_next node new l))))

-- The second assertion is that the node is linked to another one.
pub list_extract : ℕ → Links → Option Links
list_extract node l =
    if node == null
    then none
    else if l.next node == node
    then none
    else let prev_elem = l.prev node in
      let next_elem = l.next node in
      some (set_prev next_elem prev_elem (set_next prev_elem next_elem l))
