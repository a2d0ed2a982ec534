-- ===== src/LinkedList/Tests.antt =====
-- Runs of utils/list.c on a small memory, and the ring theorems at them.
use heaven_os.Prelude.{ℕ, ◌≡◌, false, some, List, [], ◌∷◌, arith, update}
use heaven_os.LinkedList.{Links, list_empty, list_extract}
use heaven_os.LinkedList.Ring.{IsRing}
use heaven_os.LinkedList.Laws.{SameOutside, list_empty-ring, list_extract-IsRing}

abbrev blank : Links
blank = record { next = λ _. 0; prev = λ _. 0 }

-- The ring of head 100 with the nodes 200 and 300.
abbrev two : Links
two = record {
  next = update (update (update (λ _. 0) 100 200) 200 300) 300 100;
  prev = update (update (update (λ _. 0) 200 100) 300 200) 100 300;
}

abbrev nodes : List ℕ
nodes = 200 ∷ 300 ∷ []

two-IsRing : IsRing two 100 nodes
two-IsRing = record { chain = ground arith; uniq = ground arith; some_node = ground arith }

list_empty-ring_example : list_empty 100 two ≡ some false
list_empty-ring_example = list_empty-ring nodes two-IsRing

list_extract-IsRing_example :
    (l' : Links) × (list_extract 300 two ≡ some l')
    × IsRing l' 100 (200 ∷ [])
    × SameOutside (100 ∷ nodes) two l'
list_extract-IsRing_example = list_extract-IsRing nodes 300 two-IsRing (omega arith)
