-- ===== src/Sched/Preempt.antt =====
-- `rr_preempt` of ksrc/scheduling.c: the round robin of the clock trap.
use yalnix_os.Common.{◌≡◌, refl, ◌≢◌, Option, some, false, List, [], ◌∷◌, ◌++◌, ==_ne, ==_iff, ap}
use yalnix_os.Heap.{Ptr, null, Node, Heap}
use yalnix_os.LinkedList.{is_empty}
use yalnix_os.LinkedList.Shape.{has, IsList}
use yalnix_os.LinkedList.Insert.{enqueue_lem}
use yalnix_os.LinkedList.Steps.{is_empty-cons, is_empty-nil}
use yalnix_os.Kernel.{Kernel, run_heap, with_heap}
use yalnix_os.Sched.{rr_preempt, ready_running, ready, run_next_ready}
use yalnix_os.Sched.Queues.{chain, KeepsBoth, Keeps-both, switched_to, run_next_ready_lem}

-- The ready queue holds `rs` behind a switch to `next`; of `nodes` at most the links change.
pub record Preempts (s : Kernel) (nodes rs : List Ptr) (next : Ptr) (o : Option (Unit {0} × Kernel))
    : Type 0 where
  pub after : Heap
  pub returns : o ≡ some (tt, switched_to s after next)
  pub is_list : IsList after s.procs.ready rs
  pub keeps : KeepsBoth s.heap after nodes s.procs.ready s.procs.ready

module _ (s : Kernel) where
  -- With no other process ready, the round robin changes nothing.
  pub rr_preempt_alone : IsList s.heap s.procs.ready [] → rr_preempt s ≡ some (tt, s)
  unfolding rr_preempt
  rr_preempt_alone is =
      run_heap s (is_empty s.procs.ready) _ (is_empty-nil s.heap s.procs.ready is.exists is.header)
        refl

  module _ (p : Ptr) (ps : List Ptr) (is : IsList s.heap s.procs.ready (p ∷ ps)) where
    not_empty : is_empty s.procs.ready s.heap ≡ some (false, s.heap)
    not_empty = is_empty-cons s.heap s.procs.ready is.exists p ps is.header

    -- For a ready queue that is not empty and does not hold the running process, which is not
    -- the idle one, rr_preempt runs the first ready process and puts the one that ran at the end
    -- of the queue, which stays well formed; only the links of the nodes involved and the
    -- queue's header were written.
    pub rr_preempt_lem :
        (x : Node)
        → s.procs.running ≢ s.idle_node
        → s.procs.running ≢ null
        → s.heap.node s.procs.running ≡ some x
        → has s.procs.running (p ∷ ps) ≡ false
        → Preempts s
            ((s.procs.running ∷ p ∷ ps) ++ ((p ∷ ps) ++ s.procs.running ∷ []))
            (ps ++ s.procs.running ∷ [])
            p
            (rr_preempt s)
    unfolding rr_preempt ready_running ready
    rr_preempt_lem x busy exists node out =
        let n = s.procs.running in
        let put = enqueue_lem s.heap s.procs.ready n x (p ∷ ps) is exists node out in
        let next =
          run_next_ready_lem (record s { heap = put.after }) ((p ∷ ps) ++ n ∷ []) put.is_list in
        record {
          after = next.after;
          returns = run_heap s (is_empty s.procs.ready) _ not_empty (
              chain (λ _. run_next_ready)
                (rw (==_ne n s.idle_node busy) (ap (with_heap s) put.returns)) next.returns);
          is_list = next.is_list;
          keeps = Keeps-both put.keeps next.keeps;
        }

    -- While the idle process runs and the ready queue is not empty, rr_preempt runs the first
    -- ready process and leaves the others queued; only the links of the queue's nodes and its
    -- header were written.
    pub rr_preempt_idle : s.procs.running ≡ s.idle_node → Preempts s (p ∷ ps) ps p (rr_preempt s)
    unfolding rr_preempt ready_running
    rr_preempt_idle idle =
        let next = run_next_ready_lem s (p ∷ ps) is in
        record {
          after = next.after;
          returns = run_heap s (is_empty s.procs.ready) _ not_empty (
              chain (λ _. run_next_ready) (rw ((==_iff s.procs.running s.idle_node).1 idle) refl)
                next.returns);
          is_list = next.is_list;
          keeps = record {
            nodes = next.keeps.nodes;
            lists = λ m a b. next.keeps.lists m a;
            payloads = next.keeps.payloads;
          };
        }
