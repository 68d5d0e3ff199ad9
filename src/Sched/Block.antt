-- ===== src/Sched/Block.antt =====
-- `block` and `h_block` of ksrc/scheduling.c.
use yalnix_os.Common.{◌≡◌, refl, sym, ◌≢◌, Option, some, false, List, [], ◌∷◌, ◌++◌, drop}
use yalnix_os.Heap.{Ptr, null, Node, Heap}
use yalnix_os.LinkedList.{enqueue, push}
use yalnix_os.LinkedList.Shape.{has, first_or}
use yalnix_os.LinkedList.Insert.{Inserts, enqueue_lem, push_lem}
use yalnix_os.Kernel.{Kernel, run_heap}
use yalnix_os.Sched.{block, h_block, block_wait, run_next_ready}
use yalnix_os.Sched.Queues.{
  Apart, IsList-Keeps, KeepsBoth, Keeps-both, switched_to, RunsNext, run_next_ready_lem, AreQueues,
  Moves, has-drop, Apart-snoc, Apart-sym, Apart-cons,
}

module _ (s : Kernel) (b : Ptr) (rs bs : List Ptr) (q : AreQueues s.heap s.procs.ready b rs bs)
    (x : Node) (exists : s.procs.running ≢ null) (node : s.heap.node s.procs.running ≡ some x)
    (not_ready : has s.procs.running rs ≡ false)
    (not_blocked : has s.procs.running bs ≡ false) where
  abbrev n : Ptr
  n = s.procs.running

  -- Once the process is in the blocked list, `ys` now, the next one runs.
  goes_on :
      {o : Option (Unit {0} × Heap)} (ys : List Ptr)
      → Apart rs ys
      → (i : Inserts s.heap b n bs ys o)
      → (r : RunsNext
          (record s { heap = i.after })
          rs
          (run_next_ready (record s { heap = i.after })))
        × AreQueues r.after s.procs.ready b (drop 1 rs) ys
        × KeepsBoth s.heap r.after ((n ∷ bs) ++ rs) b s.procs.ready
  goes_on ys apart i =
      let ready =
        IsList-Keeps i.keeps q.ready_list (λ e. q.differ (sym e))
          (Apart-cons rs bs n q.apart not_ready) in
      let next = run_next_ready_lem (record s { heap = i.after }) rs ready in
      (
        next,
        record {
          ready_list = next.is_list;
          blocked_list = IsList-Keeps next.keeps i.is_list q.differ (Apart-sym rs ys apart);
          differ = q.differ;
          apart = λ a h. apart a (has-drop a rs h);
        },
        Keeps-both i.keeps next.keeps,
      )

  -- For a ready queue and a blocked list without a common node, neither holding the running
  -- process, block puts the running process at the end of the blocked list and runs the first
  -- ready process, which leaves the queue, or the idle process where the queue is empty; the
  -- lists stay well formed, only the links of the nodes involved and the two headers were
  -- written.
  pub block_lem :
      Moves s b
        ((n ∷ bs) ++ rs)
        (drop 1 rs)
        (bs ++ n ∷ [])
        (λ h. switched_to s h (first_or s.idle_node rs))
        (block b s)
  unfolding block
  block_lem =
      let put = enqueue_lem s.heap b n x bs q.blocked_list exists node not_blocked in
      let (next, queues, keeps) =
        goes_on (bs ++ n ∷ []) (Apart-snoc rs bs n q.apart not_ready) put in
      record {
        after = next.after;
        returns = run_heap s (enqueue b n) (λ _. run_next_ready) put.returns next.returns;
        queues = queues;
        keeps = keeps;
      }

  -- For a ready queue and a blocked list without a common node, neither holding the running
  -- process, h_block puts the running process in front of the blocked list and runs the first
  -- ready process, which leaves the queue, or the idle process where the queue is empty; the
  -- lists stay well formed, only the links of the nodes involved and the two headers were
  -- written.
  pub h_block_lem :
      Moves s b
        ((n ∷ bs) ++ rs)
        (drop 1 rs)
        (n ∷ bs)
        (λ h. switched_to s h (first_or s.idle_node rs))
        (h_block b s)
  unfolding h_block
  h_block_lem =
      let put = push_lem s.heap b n x bs q.blocked_list exists node not_blocked in
      let (next, queues, keeps) = goes_on (n ∷ bs) (Apart-cons rs bs n q.apart not_ready) put in
      record {
        after = next.after;
        returns = run_heap s (push b n) (λ _. run_next_ready) put.returns next.returns;
        queues = queues;
        keeps = keeps;
      }

pub block_wait-block : (s : Kernel) → block_wait s ≡ block s.procs.waiting s
unfolding block_wait
block_wait-block s = refl
