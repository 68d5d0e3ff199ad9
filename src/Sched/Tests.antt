-- ===== src/Sched/Tests.antt =====
-- A kernel with two ready, two blocked and one running process, and the theorems there.
use yalnix_os.Common.{◌≡◌, refl, none, some, [], ◌∷◌, arith, ◌==◌, if◌then◌else◌}
use yalnix_os.Common.Int.{pos}
use yalnix_os.Heap.{Ptr, null, Node}
use yalnix_os.Kernel.{Kernel}
use yalnix_os.Kernel.Samples.{no_objects, no_mem}
use yalnix_os.Sched.{block, unblock_all, check_delay}
use yalnix_os.Sched.Queues.{AreQueues, Moves, switched_to}
use yalnix_os.Sched.Block.{block_lem}
use yalnix_os.Sched.Unblock.{unblock_all_lem}
use yalnix_os.Sched.Delay.{coded, check_delay_first}
use yalnix_os.Sched.Turns.{ticks, AreInTurn, ticks_lem}

abbrev node_at : Ptr → Ptr → Node
node_at q p = record { contents = null; code = pos 1; next = q; prev = p }

-- Node 1 runs, 2 and 3 are ready, 4 and 5 are delayed at 200 with one tick left; 9 is the idle
-- process.
abbrev busy : Kernel
busy = record {
  heap = record {
    node = λ p.
        if p == 1
        then some (node_at 0 0)
        else (if p == 2
            then some (node_at 3 0)
            else (if p == 3
                then some (node_at 0 2)
                else (if p == 4
                    then some (node_at 5 0)
                    else (if p == 5 then some (node_at 0 4) else none))));
    list = λ l.
        if l == 100
        then some (record { size = 2; head = 2; tail = 3 })
        else (if l == 200 then some (record { size = 2; head = 4; tail = 5 }) else none);
  };
  procs = record { running = 1; waiting = 300; ready = 100; delayed = 200; orphans = 400 };
  idle_node = 9;
  init_node = 1;
  pcb = λ p. none;
  objects = no_objects;
  mem = no_mem;
  user = λ p a. 0;
  switched = [];
}

busy-AreQueues : AreQueues busy.heap 100 200 (2 ∷ 3 ∷ []) (4 ∷ 5 ∷ [])
busy-AreQueues = record {
  ready_list = record {
    exists = omega arith;
    header = refl;
    chain = (
      node_at 3 0,
      omega arith,
      refl,
      refl,
      refl,
      (node_at 0 2, omega arith, refl, refl, refl, tt),
    );
    distinct = (refl, (refl, tt));
  };
  blocked_list = record {
    exists = omega arith;
    header = refl;
    chain = (
      node_at 5 0,
      omega arith,
      refl,
      refl,
      refl,
      (node_at 0 4, omega arith, refl, refl, refl, tt),
    );
    distinct = (refl, (refl, tt));
  };
  differ = omega arith;
  apart = λ a i. ground arith;
}

block_lem_example :
    Moves busy 200
      (1 ∷ 4 ∷ 5 ∷ 2 ∷ 3 ∷ [])
      (3 ∷ [])
      (4 ∷ 5 ∷ 1 ∷ [])
      (λ h. switched_to busy h 2)
      (block 200 busy)
block_lem_example =
    block_lem busy 200 (2 ∷ 3 ∷ []) (4 ∷ 5 ∷ []) busy-AreQueues (node_at 0 0) (omega arith) refl
      refl refl

unblock_all_lem_example :
    Moves busy 200
      (4 ∷ 5 ∷ 2 ∷ 3 ∷ [])
      (2 ∷ 3 ∷ 4 ∷ 5 ∷ [])
      []
      (λ h. record busy { heap = h })
      (unblock_all 3 200 busy)
unblock_all_lem_example =
    unblock_all_lem 3 busy 200 (2 ∷ 3 ∷ []) (4 ∷ 5 ∷ []) busy-AreQueues (omega arith)

-- Node 4 becomes ready; node 5, with one tick left too, stays delayed.
check_delay_first_example :
    let woken = record busy { heap = coded busy.heap 4 (node_at 5 0) (pos 0) } in
    Moves woken 200
      (4 ∷ 5 ∷ 4 ∷ 2 ∷ 3 ∷ [])
      (2 ∷ 3 ∷ 4 ∷ [])
      (5 ∷ [])
      (λ h. record busy { heap = h })
      (check_delay 2 busy)
check_delay_first_example =
    check_delay_first 0 busy 4 (2 ∷ 3 ∷ []) (5 ∷ []) (node_at 5 0) busy-AreQueues refl refl

-- The process 1 runs, 2 and 3 are ready, and none is delayed.
abbrev taking_turns : Kernel
taking_turns = record busy {
  heap = record busy.heap {
    list = λ l.
        if l == 100
        then some (record { size = 2; head = 2; tail = 3 })
        else (if l == 200 then some (record { size = 0; head = 0; tail = 0 }) else none);
  };
}

-- The process 3 runs after two ticks.
ticks_lem_example :
    (t : Kernel) × (ticks 1 2 taking_turns ≡ some (tt, t))
    × (t.procs.running ≡ 3)
    × AreInTurn t (1 ∷ 2 ∷ [])
ticks_lem_example = ticks_lem 0 taking_turns (2 ∷ []) 3 [] (record {
  ready_list = record {
    exists = omega arith;
    header = refl;
    chain = busy-AreQueues.ready_list.chain;
    distinct = busy-AreQueues.ready_list.distinct;
  };
  delayed_list = record { exists = omega arith; header = refl; chain = tt; distinct = tt };
  differ = omega arith;
  exists = omega arith;
  node = node_at 0 0;
  at = refl;
  not_ready = refl;
  not_idle = refl;
})
