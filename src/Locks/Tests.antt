-- ===== src/Locks/Tests.antt =====
-- A lock without an owner, which process 1 takes and gives up and process 2 takes then; and a
-- condition variable that a process waits for.
use yalnix_os.Common.{◌≡◌, refl, none, some, [], ◌∷◌, true, false, arith, ◌==◌, if◌then◌else◌}
use yalnix_os.Common.Int.{pos}
use yalnix_os.Heap.{
  Ptr, null, Heap, load, store, load_list, store_list, set_next, set_prev, free_list,
}
use yalnix_os.LinkedList.{is_empty, remove, dequeue, drop_first, shrink, clear_links, destroy_node}
use yalnix_os.Kernel.{Kernel, Lock, Cvar}
use yalnix_os.Kernel.Runs.{PointsTo}
use yalnix_os.Kernel.Samples.{no_objects, no_mem}
use yalnix_os.Locks.{try_acquire, release, hand_on, tear_down, destroy_lock, destroy_cvar}
use yalnix_os.Locks.Steps.{Ghost, IsLocked, here, next, acquires, fails, releases, others}
use yalnix_os.Locks.Exclusion.{one_holder}
use yalnix_os.Locks.Leak.{Abandons, destroy_cvar_lem}
use yalnix_os.Locks.Destroy.{IsUnused, destroy_lock_safe}

abbrev unlocked : Lock
unlocked = record { owner = null; blocked = 300; unfulfilled = pos 0; cvar = pos 0 }

-- The node 7 of the list 500 points to the lock at 70; nobody is blocked in the list 300.
abbrev lock_heap : Heap
lock_heap = record {
  node = λ p.
      if p == 7
      then some (record { contents = 70; code = pos 4; next = null; prev = null })
      else none;
  list = λ l.
      if l == 300
      then some (record { size = 0; head = null; tail = null })
      else (if l == 500 then some (record { size = 1; head = 7; tail = 7 }) else none);
}

-- The process in `q` runs, and the lock is owned by `o`.
abbrev running : Ptr → Ptr → Kernel
running q o = record {
  heap = lock_heap;
  procs = record { running = q; waiting = 310; ready = 100; delayed = 200; orphans = 400 };
  idle_node = 9;
  init_node = 1;
  pcb = λ p. none;
  objects = record no_objects {
    lock = λ p. if p == 70 then some (record unlocked { owner = o }) else none;
    pilocvar = record { count = 5; pipe = 510; lock = 500; cvar = 520 };
  };
  mem = no_mem;
  user = λ p a. 0;
  switched = [];
}

abbrev nobody : Ghost
nobody = record { holders = λ q. false; woken = 0 }

start-IsLocked : IsLocked 70 (running 1 null) nobody
start-IsLocked = record {
  lock = unlocked;
  at = refl;
  owns = λ q h. cc;
  held = λ ne. absurd (ne refl);
  promised = refl;
}

abbrev lock_node : (q o : Ptr) → PointsTo (running q o).heap 7 70
lock_node q o =
    (record { contents = 70; code = pos 4; next = null; prev = null }, omega arith, refl, refl)

-- Process 1 takes the lock, process 2 fails to release it, process 1 releases it, process 2 takes it.
one_holder_example :
    (l : Lock) × (some (record unlocked { owner = 2 }) ≡ some l)
    × (l.owner ≡ 2)
    × (◌≡◌ {A = Ptr} 2 2)
unfolding try_acquire release hand_on load load_list is_empty
one_holder_example =
    one_holder 70 start-IsLocked
      (next
        (next {u = running 2 null}
          (next
            (next {u = running 1 1}
              (next
                (next {u = running 2 1}
                  (next here (acquires 7 _ (lock_node 1 null) (omega arith) refl)) (others refl))
                (fails 7 (lock_node 2 1) refl))
              (others refl))
            (releases 7 (record unlocked { owner = 1 }) true _ (lock_node 1 1) (omega arith) refl
              refl refl))
          (others refl))
        (acquires 7 _ (lock_node 2 null) (omega arith) refl))
      2 2 refl refl

destroy_lock_safe_example :
    ((q : Ptr) → nobody.holders q ≡ false) × (nobody.woken ≡ 0) × IsUnused unlocked lock_heap
unfolding destroy_lock tear_down load load_list store_list is_empty remove dequeue drop_first shrink
    clear_links set_next set_prev store destroy_node free_list
destroy_lock_safe_example =
    destroy_lock_safe 7 70 unlocked (running 1 null) (lock_node 1 null) refl start-IsLocked
      (next here (others refl)) _ refl

-- A condition variable at 80 with the word NULL behind it, the one of the list 520, at the node 8;
-- process 2 is blocked in its list 320.
abbrev waited_for : Cvar
waited_for = record { blocked = 320; behind = null }

abbrev cvar_heap : Heap
cvar_heap = record {
  node = λ p.
      if p == 8
      then some (record { contents = 80; code = pos 6; next = null; prev = null })
      else (if p == 2
          then some (record { contents = 61; code = pos 0; next = null; prev = null })
          else none);
  list = λ l.
      if l == 520
      then some (record { size = 1; head = 8; tail = 8 })
      else (if l == 320 then some (record { size = 1; head = 2; tail = 2 }) else none);
}

abbrev one_cvar : Kernel
one_cvar = record (running 1 null) {
  heap = cvar_heap;
  objects = record (running 1 null).objects {
    cvar = λ p. if p == 80 then some waited_for else none;
  };
}

destroy_cvar_lem_example :
    (t : Kernel) × (destroy_cvar 8 one_cvar ≡ some (pos 0, t))
    × Abandons one_cvar t 8 80 waited_for [] (2 ∷ [])
destroy_cvar_lem_example =
    destroy_cvar_lem 8 80 waited_for one_cvar [] [] (2 ∷ [])
      (record { contents = 80; code = pos 6; next = null; prev = null }, omega arith, refl, refl)
      refl refl
      (record {
        exists = omega arith;
        header = refl;
        chain = (
          record { contents = 80; code = pos 6; next = null; prev = null },
          omega arith,
          refl,
          refl,
          refl,
          tt,
        );
        distinct = (refl, tt);
      })
      (record {
        exists = omega arith;
        header = refl;
        chain = (
          record { contents = 61; code = pos 0; next = null; prev = null },
          omega arith,
          refl,
          refl,
          refl,
          tt,
        );
        distinct = (refl, tt);
      })
      (omega arith) (λ a i. ground arith)
