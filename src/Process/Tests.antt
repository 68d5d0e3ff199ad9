-- ===== src/Process/Tests.antt =====
-- A process with one defunct child, two orphans, and the theorems there.
use yalnix_os.Common.{List, ◌∷◌, ◌≡◌, refl, none, some, [], arith, ◌==◌, if◌then◌else◌}
use yalnix_os.Common.Int.{pos}
use yalnix_os.Heap.{null}
use yalnix_os.LinkedList.Shape.{IsList}
use yalnix_os.Memory.Samples.{small, no_pages}
use yalnix_os.Kernel.{Kernel}
use yalnix_os.Kernel.Samples.{no_objects, no_mem, pcb_3}
use yalnix_os.Process.{orphan_loop, reap_loop, reap_orphans}
use yalnix_os.Process.Orphans.{reap_orphans_lem}
use yalnix_os.Process.Samples.{stack, stack-Owns, nothing-Owns}
use yalnix_os.Process.Ended.{Ended, nodes_of, blocks_of, AllDisjoint, AreEnded, Reaps}
use yalnix_os.Process.Walk.{orphan_loop-none}
use yalnix_os.Process.Reap.{reap_loop-none}

-- The node 5 is the child's.
abbrev with_child : Kernel
with_child = record {
  heap = record {
    node = λ p.
        if p == 5
        then some (record { contents = 50; code = pos 0; next = null; prev = null })
        else none;
    list = λ l. none;
  };
  procs = record { running = 1; waiting = 310; ready = 100; delayed = 200; orphans = 400 };
  idle_node = 9;
  init_node = 1;
  pcb = λ p. if p == 50 then some pcb_3 else none;
  objects = no_objects;
  mem = no_mem;
  user = λ p a. 0;
  switched = [];
}

reap_loop-none_example : reap_loop small 2 5 with_child ≡ none
reap_loop-none_example = reap_loop-none small 2 5 with_child (omega arith)

-- The process whose node is 5 has a kernel stack, the one with the node 6 has no pages.
abbrev orphans : List Ended
orphans =
    record { node = 5; at = 50; pcb = record pcb_3 { kstack = stack.0 } }
    ∷ record { node = 6; at = 60; pcb = record pcb_3 { kstack = no_pages } }
    ∷ []

abbrev with_orphans : Kernel
with_orphans = record with_child {
  heap = record {
    node = λ p.
        if p == 5
        then some (record { contents = 50; code = pos 0; next = 6; prev = null })
        else (if p == 6
            then some (record { contents = 60; code = pos 0; next = null; prev = 5 })
            else none);
    list = λ l. if l == 400 then some (record { size = 2; head = 5; tail = 6 }) else none;
  };
  pcb = λ p.
      if p == 50
      then some (record pcb_3 { kstack = stack.0 })
      else (if p == 60 then some (record pcb_3 { kstack = no_pages }) else none);
  mem = record no_mem { free_frame = stack.1 };
}

orphans-IsList : IsList with_orphans.heap 400 (nodes_of orphans)
unfolding nodes_of
orphans-IsList = record {
  exists = omega arith;
  header = refl;
  chain = (_, omega arith, refl, refl, refl, (_, omega arith, refl, refl, refl, tt));
  distinct = (refl, (refl, tt));
}

orphans-AreEnded : AreEnded small orphans with_orphans
unfolding AreEnded AllDisjoint blocks_of
orphans-AreEnded = (
  (_, omega arith, refl, refl),
  refl,
  refl,
  stack-Owns,
  ((λ i j v w e. cc), tt),
  ((_, omega arith, refl, refl), refl, refl, nothing-Owns stack.1 stack-Owns.allocator, tt, tt),
)

reap_orphans_lem_example :
    (t : Kernel) × (reap_orphans small 3 with_orphans ≡ some (tt, t))
    × Reaps small orphans with_orphans t
reap_orphans_lem_example =
    reap_orphans_lem small 3 orphans with_orphans orphans-IsList orphans-AreEnded (omega arith)

-- The children with the nodes 5 and 6 are still on the list, but the second was collected.
abbrev one_collected : Kernel
one_collected = record with_orphans { pcb = λ p. if p == 50 then some pcb_3 else none }

orphan_loop-none_example : orphan_loop small 3 5 null one_collected ≡ none
orphan_loop-none_example =
    orphan_loop-none small 3 null null (5 ∷ []) 6 []
      (record { contents = 60; code = pos 0; next = null; prev = 5 }) one_collected
      (_, omega arith, refl, refl, refl, (_, omega arith, refl, refl, refl, tt)) (refl, (refl, tt))
      refl refl refl
