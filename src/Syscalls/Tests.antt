-- ===== src/Syscalls/Tests.antt =====
-- A kernel with one lock, whose id is 4, and one process.
use yalnix_os.Common.{ℕ, ◌≡◌, refl, none, some, [], ◌∷◌, ◌==◌, if◌then◌else◌, arith}
use yalnix_os.Common.Int.{ℤ, pos, minus_one}
use yalnix_os.Heap.{null, Node}
use yalnix_os.Memory.Samples.{small}
use yalnix_os.Kernel.{Kernel, returned}
use yalnix_os.Kernel.Samples.{no_objects, no_mem, pcb_3}
use yalnix_os.Syscalls.{
  kernel_acquire, kernel_release, kernel_cvar_wait, kernel_cvar_signal, kernel_cvar_broadcast,
  kernel_pipe_read, kernel_pipe_write, kernel_reclaim,
}
use yalnix_os.Syscalls.Unknown.{IsUnknown, Lacks, unknown_id}

abbrev node_of : (contents code : ℕ) → Node
node_of p c = record { contents = p; code = pos c; next = null; prev = null }

-- The lock's node 7 is in the list 500; node 1 is the running process.
abbrev one_lock : Kernel
one_lock = record {
  heap = record {
    node =
        λ p. if p == 7 then some (node_of 70 4) else (if p == 1 then some (node_of 60 0) else none);
    list = λ l.
        if l == 500
        then some (record { size = 1; head = 7; tail = 7 })
        else (if l == 510
            then some (record { size = 0; head = null; tail = null })
            else (if l == 520 then some (record { size = 0; head = null; tail = null }) else none));
  };
  procs = record { running = 1; waiting = 310; ready = 100; delayed = 200; orphans = 400 };
  idle_node = 9;
  init_node = 1;
  pcb = λ p. if p == 60 then some pcb_3 else none;
  objects = record no_objects {
    lock = λ p.
        if p == 70
        then some (record { owner = null; blocked = 300; unfulfilled = pos 0; cvar = pos 0 })
        else none;
    pilocvar = record { count = 5; pipe = 510; lock = 500; cvar = 520 };
  };
  mem = no_mem;
  user = λ p a. 0;
  switched = [];
}

locks-Lacks : Lacks one_lock.heap 500 2 (pos 8)
locks-Lacks = record {
  nodes = 7 ∷ [];
  well = record {
    exists = omega arith;
    header = refl;
    chain = (node_of 70 4, omega arith, refl, refl, refl, tt);
    distinct = (refl, tt);
  };
  short = omega arith;
  none_has = (λ y at is_code. cc, tt);
}

one_lock-IsUnknown : IsUnknown one_lock 2 (pos 8)
one_lock-IsUnknown = record {
  pipes = record {
    nodes = [];
    well = record { exists = omega arith; header = refl; chain = tt; distinct = tt };
    short = omega arith;
    none_has = tt;
  };
  locks = locks-Lacks;
  cvars = record {
    nodes = [];
    well = record { exists = omega arith; header = refl; chain = tt; distinct = tt };
    short = omega arith;
    none_has = tt;
  };
}

unknown_id_example :
    (kernel_acquire small 2 (pos 8) one_lock ≡ some (returned minus_one, one_lock))
    × (kernel_release small 2 (pos 8) one_lock ≡ some (returned minus_one, one_lock))
    × (kernel_cvar_wait small 2 (pos 8) (pos 8) one_lock ≡ some (returned minus_one, one_lock))
    × (kernel_cvar_signal small 2 (pos 8) one_lock ≡ some (returned minus_one, one_lock))
    × (kernel_cvar_broadcast small 2 (pos 8) one_lock ≡ some (returned minus_one, one_lock))
    × (kernel_reclaim small 2 (pos 8) one_lock ≡ some (returned minus_one, one_lock))
    × ((buf len : ℕ)
        → kernel_pipe_read small 2 (pos 8) buf len one_lock ≡ some (returned minus_one, one_lock))
    × ((junk : ℤ) (buf len : ℕ)
        → kernel_pipe_write small 2 junk (pos 8) buf len one_lock
          ≡ some (returned minus_one, one_lock))
unknown_id_example =
    unknown_id small 2 (pos 8) one_lock one_lock-IsUnknown 60 pcb_3
      (node_of 60 0, omega arith, refl, refl) refl
