-- ===== src/Syscalls/Wait.antt =====
-- KernelWait of ksrc/syscalls.c, whether a child has ended or not.
mod Tests
use yalnix_os.Common.{
  ℕ, ◌≡◌, ◌≢◌, ◌<◌, refl, ◌∙◌, Option, some, Bool, true, false, List, [], ◌∷◌, ◌++◌, length, ◌==◌,
  not, ◌&&◌, drop, ==_ne, arith,
}
use yalnix_os.Common.Int.{minus_one}
use yalnix_os.Heap.{Ptr, null, Node, Heap, run}
use yalnix_os.LinkedList.{is_empty, dequeue}
use yalnix_os.LinkedList.Shape.{has, first_or, IsList}
use yalnix_os.LinkedList.Steps.{is_empty-nil, is_empty-cons}
use yalnix_os.Memory.{Machine}
use yalnix_os.Memory.Checks.{check_addr}
use yalnix_os.Kernel.{Kernel, Pcb, Outcome, returned, suspended, in_wait, run_heap}
use yalnix_os.Kernel.Runs.{PointsTo}
use yalnix_os.Sched.{block_wait}
use yalnix_os.Sched.Queues.{AreQueues, Moves, switched_to, chain}
use yalnix_os.Sched.Block.{block_lem, block_wait-block}
use yalnix_os.Process.Ended.{Ended}
use yalnix_os.Syscalls.{kernel_wait, try_wait}
use yalnix_os.Syscalls.Reaping.{HasDefunct, Collects, running_pcb_lem, try_wait_lem}

is_nil : List Ptr → Bool
is_nil [] = true
is_nil (x ∷ xs) = false

is_empty_lem :
    (h : Heap) (l : Ptr) (xs : List Ptr) → IsList h l xs → is_empty l h ≡ some (is_nil xs, h)
unfolding is_nil
is_empty_lem h l [] is = is_empty-nil h l is.exists is.header
is_empty_lem h l (x ∷ xs) is = is_empty-cons h l is.exists x xs is.header

-- Whether the address for the exit code passes the test of KernelWait.
abbrev pub status_ok : Machine → ℕ → Pcb → Bool
status_ok m status_ptr x =
    not (not (status_ptr == null) && not (check_addr m status_ptr m.prot_write x.userpt))

dequeue-none : (h : Heap) (l : Ptr) → IsList h l [] → dequeue l h ≡ some (null, h)
unfolding dequeue
dequeue-none h l is = run _ (is_empty-nil h l is.exists is.header) refl

module _ (m : Machine) (fuel status_ptr : ℕ) (s : Kernel) where
  -- KernelWait past its tests, for a process whose lists of children hold `cs` and `ds`.
  passes :
      (p : Ptr) (x : Pcb) (cs ds : List Ptr)
      → PointsTo s.heap s.procs.running p
      → s.pcb p ≡ some x
      → status_ok m status_ptr x ≡ true
      → IsList s.heap x.a_children cs
      → IsList s.heap x.d_children ds
      → (is_nil cs && is_nil ds) ≡ false
      → kernel_wait m fuel status_ptr s ≡ try_wait m fuel status_ptr s
  unfolding kernel_wait
  passes p x cs ds to at ok alive defunct some_child =
      let tested : (not (status_ptr == null) && not (check_addr m status_ptr m.prot_write x.userpt))
          ≡ false =
        ground arith in
      chain _ (running_pcb_lem s p x to at) (
        rw tested (
          run_heap s (is_empty x.a_children) _ (is_empty_lem s.heap x.a_children cs alive) (
            run_heap s (is_empty x.d_children) _ (is_empty_lem s.heap x.d_children ds defunct)
              (rw some_child refl))))

-- For a running process with well-formed lists of children, an address for the exit code that is NULL or
-- passes the test, and a first defunct child and a well-formed list of orphans, apart from the defunct
-- children, that have different nodes and blocks and kernel stacks that own their frames and share none,
-- and with more fuel than orphans: KernelWait returns the child's pid with its exit code stored at the
-- address; the nodes and blocks of the child and the orphans are freed, no other ones are, as many frames
-- are back as their kernel stacks had pages, and the other defunct children stay in order.
pub kernel_wait_lem :
    (m : Machine) (fuel status_ptr : ℕ) (s : Kernel) (o : Ended) (ds cs : List Ptr)
    (os : List Ended)
    → (w : HasDefunct m s o ds os) → length os < fuel
    → IsList s.heap w.pcb.a_children cs
    → status_ok m status_ptr w.pcb ≡ true
    → Collects m status_ptr s o ds os w.pcb.d_children w.node.code (kernel_wait m fuel status_ptr s)
unfolding is_nil
kernel_wait_lem m fuel status_ptr s o ds cs os w enough alive ok =
    let done = try_wait_lem m fuel status_ptr s o ds os w enough in
    record {
      taken = done.taken;
      keeps = done.keeps;
      after = done.after;
      returns =
          passes m fuel status_ptr s w.block w.pcb cs (o.node ∷ ds) w.of_running w.of_block ok alive
            w.defunct (ground arith)
          ∙ done.returns;
      reaps = done.reaps;
      children = done.children;
    }

-- What a call that blocks does: the running process is behind the waiting ones, and the first of the
-- ready queue runs.
pub record Blocks (s : Kernel) (status_ptr : ℕ) (rs ws : List Ptr) (r : Option (Outcome × Kernel))
    : Type 0 where
  pub after : Heap
  pub returns :
      r ≡ some (suspended (in_wait status_ptr), switched_to s after (first_or s.idle_node rs))
  pub queues :
      AreQueues after s.procs.ready s.procs.waiting (drop 1 rs) (ws ++ s.procs.running ∷ [])

-- For a running process whose list of defunct children is empty, whose list of children that are alive
-- is not, and an address for the exit code that is NULL or passes the test, with a ready queue and a list
-- of waiting processes that are well formed, have no common process and not the running one: KernelWait
-- leaves it blocked, behind the waiting processes, and the first of the ready queue runs, or the idle
-- process.
pub kernel_wait-Blocks :
    (m : Machine) (fuel status_ptr : ℕ) (s : Kernel) (p : Ptr) (x : Pcb) (y : Node) (c : Ptr)
    (cs rs ws : List Ptr)
    → s.procs.running ≢ null
    → s.heap.node s.procs.running ≡ some y
    → y.contents ≡ p
    → s.pcb p ≡ some x
    → status_ok m status_ptr x ≡ true
    → IsList s.heap x.a_children (c ∷ cs)
    → IsList s.heap x.d_children []
    → AreQueues s.heap s.procs.ready s.procs.waiting rs ws
    → has s.procs.running rs ≡ false
    → has s.procs.running ws ≡ false
    → Blocks s status_ptr rs ws (kernel_wait m fuel status_ptr s)
unfolding is_nil try_wait
kernel_wait-Blocks m fuel status_ptr s p x y c cs rs ws ne node to at ok alive defunct q not_ready
      not_waiting =
    let here : PointsTo s.heap s.procs.running p = (y, ne, node, to) in
    let blocked = block_lem s s.procs.waiting rs ws q y ne node not_ready not_waiting in
    record {
      after = blocked.after;
      returns =
          passes m fuel status_ptr s p x (c ∷ cs) [] here at ok alive defunct refl
          ∙ chain _ (running_pcb_lem s p x here at) (
              run_heap s (dequeue x.d_children) _ (dequeue-none s.heap x.d_children defunct)
                (chain _ (block_wait-block s ∙ blocked.returns) refl));
      queues = blocked.queues;
    }
