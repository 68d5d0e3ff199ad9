-- ===== src/Sched/Graveyard/Tests.antt =====
-- The end of a process whose parent waits for it, and the theorem there.
use yalnix_os.Common.{refl, none, some, [], ◌∷◌, arith, ◌==◌, if◌then◌else◌}
use yalnix_os.Common.Int.{pos}
use yalnix_os.Heap.{Ptr, null, Node}
use yalnix_os.Kernel.{Kernel}
use yalnix_os.Kernel.Samples.{no_objects, no_mem, pcb_3}
use yalnix_os.Sched.{graveyard}
use yalnix_os.Sched.Graveyard.{Family, Buries, graveyard_lem}

abbrev node_of : Ptr → Node
node_of p = record { contents = p; code = pos 1; next = null; prev = null }

-- Node 1 runs and its block is at 11; its parent's node 2 waits, with its block at 22; node 3 is ready.
abbrev family : Kernel
family = record {
  heap = record {
    node = λ p.
        if p == 1
        then some (node_of 11)
        else (if p == 2 then some (node_of 22) else (if p == 3 then some (node_of 33) else none));
    list = λ l.
        if l == 100
        then some (record { size = 1; head = 3; tail = 3 })
        else (if l == 300
            then some (record { size = 1; head = 2; tail = 2 })
            else (if l == 500 then some (record { size = 0; head = null; tail = null }) else none));
  };
  procs = record { running = 1; waiting = 300; ready = 100; delayed = 200; orphans = 400 };
  idle_node = 9;
  init_node = 2;
  pcb = λ p.
      if p == 11
      then some (record pcb_3 { parent = 2 })
      else (if p == 22 then some (record pcb_3 { d_children = 500 }) else none);
  objects = no_objects;
  mem = no_mem;
  user = λ p a. 0;
  switched = [];
}

is_family : Family family 1 2 500 (3 ∷ []) (2 ∷ []) []
is_family = record {
  block = 11;
  pcb = record pcb_3 { parent = 2 };
  of_proc = (node_of 11, omega arith, refl, refl);
  of_block = refl;
  is_parent = refl;
  parent_block = 22;
  parent_pcb = record pcb_3 { d_children = 500 };
  of_parent = (node_of 22, omega arith, refl, refl);
  of_parent_block = refl;
  is_list = refl;
  queues = record {
    ready_list = record {
      exists = omega arith;
      header = refl;
      chain = (node_of 33, omega arith, refl, refl, refl, tt);
      distinct = (refl, tt);
    };
    blocked_list = record {
      exists = omega arith;
      header = refl;
      chain = (node_of 22, omega arith, refl, refl, refl, tt);
      distinct = (refl, tt);
    };
    differ = omega arith;
    apart = λ a i. ground arith;
  };
  children = record { exists = omega arith; header = refl; chain = tt; distinct = tt };
  not_ready = omega arith;
  not_waiting = omega arith;
  apart = λ a i. ground arith;
  fresh = refl;
}

graveyard_lem_example : Buries family 1 2 500 (3 ∷ []) (2 ∷ []) [] (graveyard 2 family)
graveyard_lem_example = graveyard_lem 2 family 2 500 (3 ∷ []) (2 ∷ []) [] is_family (omega arith)
