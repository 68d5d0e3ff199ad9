-- ===== src/Process/Destroy.antt =====
-- process_destroy of ksrc/process.c for a process whose node and block are there.
use yalnix_os.Common.{◌≡◌, refl, some, none, update, ==_ne}
use yalnix_os.Common.Int.{minus_one}
use yalnix_os.Heap.{Ptr, null, Heap, store-ok}
use yalnix_os.LinkedList.{destroy_node}
use yalnix_os.Memory.{Machine}
use yalnix_os.Memory.Tables.{destroy_kstack}
use yalnix_os.Kernel.{Kernel, Pcb}
use yalnix_os.Kernel.Runs.{PointsTo, data_of-ok}
use yalnix_os.Sched.Queues.{chain}
use yalnix_os.Process.{process_destroy}

-- The heap without the node.
abbrev pub without_node : Ptr → Heap → Heap
without_node n h = record h {
  node =
      update
        (update h.node n
          (some (record { contents = null; code = minus_one; next = null; prev = null })))
        n none;
}

module _ (m : Machine) (n p : Ptr) (x : Pcb) (s : Kernel) where
  -- The kernel without the process: its kernel stack's pages are given back.
  abbrev pub destroyed : Kernel
  destroyed = record s {
    heap = without_node n s.heap;
    pcb = update s.pcb p none;
    mem = record s.mem { free_frame = (destroy_kstack m x.kstack s.mem.free_frame).1 };
  }

  pub process_destroy_lem :
      PointsTo s.heap n p → s.pcb p ≡ some x → process_destroy m n s ≡ some (tt, destroyed)
  unfolding process_destroy destroy_node
  process_destroy_lem to at =
      let (y, ne, node, _) = to in
      chain _ (data_of-ok s n p to)
        (rw at (rw (==_ne n null ne) (rw (store-ok s.heap n ne node _) refl)))
