-- ===== src/Syscalls/Wait/Tests.antt =====
-- A process that waits for its children, and the theorems there.
use yalnix_os.Common.{[], ◌∷◌, refl, none, some, arith, ◌==◌, if◌then◌else◌}
use yalnix_os.Common.Int.{pos}
use yalnix_os.Heap.{Ptr, null, Node, Ll}
use yalnix_os.LinkedList.Shape.{IsList}
use yalnix_os.Memory.Samples.{small, no_pages}
use yalnix_os.Kernel.{Kernel, Pcb}
use yalnix_os.Kernel.Samples.{no_objects, no_mem, pcb_3}
use yalnix_os.Process.Samples.{stack, stack-Owns, nothing-Owns}
use yalnix_os.Process.Ended.{Ended, nodes_of, blocks_of, AllDisjoint, AreEnded}
use yalnix_os.Syscalls.{kernel_wait}
use yalnix_os.Syscalls.Reaping.{HasDefunct, Collects}
use yalnix_os.Syscalls.Wait.{kernel_wait_lem, kernel_wait-Blocks, Blocks}

abbrev node_of : Ptr → Node
node_of p = record { contents = p; code = pos 4; next = null; prev = null }

abbrev only : Ptr → Ll
only n = record { size = 1; head = n; tail = n }

abbrev parent_pcb : Pcb
parent_pcb = record pcb_3 { a_children = 500; d_children = 510 }

-- Node 1 runs, with its block at 11. Its child 5 has ended; 6 is an orphan; 7 is the child's other node.
abbrev child : Ended
child = record { node = 5; at = 50; pcb = record pcb_3 { kstack = stack.0 } }

abbrev orphan : Ended
orphan = record { node = 6; at = 60; pcb = record pcb_3 { kstack = no_pages } }

abbrev family : Kernel
family = record {
  heap = record {
    node = λ p.
        if p == 1
        then some (node_of 11)
        else (if p == 5
            then some (node_of 50)
            else (if p == 6
                then some (node_of 60)
                else (if p == 7 then some (node_of 50) else none)));
    list = λ l.
        if l == 400
        then some (only 6)
        else (if l == 500 then some (only 7) else (if l == 510 then some (only 5) else none));
  };
  procs = record { running = 1; waiting = 300; ready = 100; delayed = 200; orphans = 400 };
  idle_node = 9;
  init_node = 2;
  pcb = λ p.
      if p == 11
      then some parent_pcb
      else (if p == 50 then some child.pcb else (if p == 60 then some orphan.pcb else none));
  objects = no_objects;
  mem = record no_mem { free_frame = stack.1 };
  user = λ p a. 0;
  switched = [];
}

family-AreEnded : AreEnded small (child ∷ orphan ∷ []) family
unfolding AreEnded AllDisjoint blocks_of
family-AreEnded = (
  (_, omega arith, refl, refl),
  refl,
  refl,
  stack-Owns,
  ((λ i j v w e. cc), tt),
  ((_, omega arith, refl, refl), refl, refl, nothing-Owns stack.1 stack-Owns.allocator, tt, tt),
)

family_waits : HasDefunct small family child [] (orphan ∷ [])
unfolding nodes_of
family_waits = record {
  block = 11;
  pcb = parent_pcb;
  of_running = (node_of 11, omega arith, refl, refl);
  of_block = refl;
  node = node_of 50;
  of_child = refl;
  defunct = record {
    exists = omega arith;
    header = refl;
    chain = (_, omega arith, refl, refl, refl, tt);
    distinct = (refl, tt);
  };
  orphans = record {
    exists = omega arith;
    header = refl;
    chain = (_, omega arith, refl, refl, refl, tt);
    distinct = (refl, tt);
  };
  differ = omega arith;
  apart = λ a i. ground arith;
  ended = family-AreEnded;
}

alive : IsList family.heap 500 (7 ∷ [])
alive = record {
  exists = omega arith;
  header = refl;
  chain = (_, omega arith, refl, refl, refl, tt);
  distinct = (refl, tt);
}

kernel_wait_lem_example :
    Collects small null family child [] (orphan ∷ []) 510 (pos 4) (kernel_wait small 2 null family)
unfolding family_waits
kernel_wait_lem_example =
    kernel_wait_lem small 2 null family child [] (7 ∷ []) (orphan ∷ []) family_waits (omega arith)
      alive refl

-- Later the child is collected; its other node is still in the list of the children that are alive.
abbrev collected : Kernel
collected = record family {
  heap = record {
    node = λ p.
        if p == 1
        then some (node_of 11)
        else (if p == 3 then some (node_of 33) else (if p == 7 then some (node_of 50) else none));
    list = λ l.
        if l == 100
        then some (only 3)
        else (if l == 500
            then some (only 7)
            else (if l == 510
                then some (record { size = 0; head = null; tail = null })
                else (if l == 300
                    then some (record { size = 0; head = null; tail = null })
                    else none)));
  };
  pcb = λ p. if p == 11 then some parent_pcb else none;
}

kernel_wait-Blocks_example : Blocks collected null (3 ∷ []) [] (kernel_wait small 2 null collected)
kernel_wait-Blocks_example =
    kernel_wait-Blocks small 2 null collected 11 parent_pcb (node_of 11) 7 [] (3 ∷ []) []
      (omega arith) refl refl refl refl
      (record {
        exists = omega arith;
        header = refl;
        chain = (_, omega arith, refl, refl, refl, tt);
        distinct = (refl, tt);
      })
      (record { exists = omega arith; header = refl; chain = tt; distinct = tt })
      (record {
        ready_list = record {
          exists = omega arith;
          header = refl;
          chain = (_, omega arith, refl, refl, refl, tt);
          distinct = (refl, tt);
        };
        blocked_list = record { exists = omega arith; header = refl; chain = tt; distinct = tt };
        differ = omega arith;
        apart = λ a i. refl;
      })
      refl refl
