-- ===== src/LinkedList/Tests.antt =====
-- Runs of ksrc/linked_list.c on a list of three nodes, and the theorems at that list.
use yalnix_os.Common.{ℕ, ◌≡◌, refl, false, none, some, [], ◌∷◌, ◌++◌, arith, ◌==◌, if◌then◌else◌}
use yalnix_os.Common.Int.{pos}
use yalnix_os.Heap.{Ptr, null, Node, Heap, load, load_list, set_next, set_prev}
use yalnix_os.LinkedList.{enqueue, dequeue, remove, is_empty, get_size}
use yalnix_os.LinkedList.Shape.{IsList}
use yalnix_os.LinkedList.Insert.{Inserts, enqueue_lem}
use yalnix_os.LinkedList.Ends.{Removes, dequeue_lem}
use yalnix_os.LinkedList.Remove.{remove_lem}
use yalnix_os.LinkedList.Search.{get_size_lem}

abbrev node_at : ℕ → Ptr → Ptr → Node
node_at k q p = record { contents = null; code = pos k; next = q; prev = p }

-- The list at 100 holds the nodes 1, 2 and 3; the node 4 is free-standing.
abbrev demo : Heap
demo = record {
  node = λ p.
      if p == 1
      then some (node_at 10 2 0)
      else (if p == 2
          then some (node_at 20 3 1)
          else (if p == 3
              then some (node_at 30 0 2)
              else (if p == 4 then some (node_at 40 0 0) else none)));
  list = λ l. if l == 100 then some (record { size = 3; head = 1; tail = 3 }) else none;
}

demo-IsList : IsList demo 100 (1 ∷ 2 ∷ 3 ∷ [])
demo-IsList = record {
  exists = omega arith;
  header = refl;
  chain = (
    node_at 10 2 0,
    omega arith,
    refl,
    refl,
    refl,
    (
      node_at 20 3 1,
      omega arith,
      refl,
      refl,
      refl,
      (node_at 30 0 2, omega arith, refl, refl, refl, tt),
    ),
  );
  distinct = (refl, (refl, (refl, tt)));
}

enqueue_lem_example :
    Inserts demo 100 4 (1 ∷ 2 ∷ 3 ∷ []) ((1 ∷ 2 ∷ 3 ∷ []) ++ 4 ∷ []) (enqueue 100 4 demo)
enqueue_lem_example =
    enqueue_lem demo 100 4 (node_at 40 0 0) (1 ∷ 2 ∷ 3 ∷ []) demo-IsList (omega arith) refl refl

dequeue_lem_example : Removes demo 100 1 (1 ∷ 2 ∷ 3 ∷ []) (2 ∷ 3 ∷ []) (dequeue 100 demo)
dequeue_lem_example = dequeue_lem demo 100 1 (2 ∷ 3 ∷ []) demo-IsList

remove_lem_example :
    Removes demo 100 2 ((1 ∷ []) ++ 2 ∷ 3 ∷ []) ((1 ∷ []) ++ 3 ∷ []) (remove 100 2 demo)
remove_lem_example = remove_lem demo 100 2 (1 ∷ []) (3 ∷ []) demo-IsList

get_size_lem_example :
    (get_size 100 demo ≡ some (pos 3, demo)) × (is_empty 100 demo ≡ some (false, demo))
get_size_lem_example = get_size_lem demo 100 (1 ∷ 2 ∷ 3 ∷ []) demo-IsList

-- A node that no list holds has no neighbours: unlinking it follows a NULL pointer.
remove_stranger : remove 100 4 demo ≡ none
unfolding remove load load_list set_prev set_next is_empty
remove_stranger = refl
