-- ===== src/Sched/Graveyard.antt =====
-- The end of a process in ksrc/scheduling.c: `graveyard`, with `hand_over`.
mod Tests
use mathlib.Core.Path.{subst}
use yalnix_os.Common.{
  ℕ, ◌≡◌, ◌<◌, ◌≢◌, refl, sym, ap, ◌∙◌, Option, some, Bool, true, false, List, [], ◌∷◌, ◌++◌, arith,
  length, ◌==◌, if◌then◌else◌, Bool-cases, inl, inr, drop, ==_ne,
}
use yalnix_os.Heap.{Ptr, null, Node, Heap, load, load-ok}
use yalnix_os.LinkedList.{enqueue, has_member}
use yalnix_os.LinkedList.Shape.{has, first_or, IsList, has-append, ne_of_has}
use yalnix_os.LinkedList.Seg
use yalnix_os.LinkedList.Keeps.{Keeps}
use yalnix_os.LinkedList.Insert.{enqueue_lem}
use yalnix_os.LinkedList.Search.{has_member_lem}
use yalnix_os.Kernel.{Kernel, Pcb, go_on, run_heap, on_heap, load_pcb}
use yalnix_os.Kernel.Runs.{PointsTo}
use yalnix_os.Sched.{unblock, check_wait, get_parent, hand_over, graveyard, run_next_ready}
use yalnix_os.Sched.Queues.{
  Apart, AreQueues, Moves, KeepsBoth, IsList-Keeps, RunsNext, run_next_ready_lem, switched_to,
  chain, Apart-snoc, Apart-sym,
}
use yalnix_os.Sched.Waiting.{without, woken, has-snoc, woken-out, check_wait_lem}

-- Other lists are left alone by what happens to the ready queue and a blocked list.
IsList-KeepsBoth :
    {h g : Heap} {l m k : Ptr} {xs ys : List Ptr}
    → KeepsBoth h g xs l m
    → IsList h k ys
    → k ≢ l
    → k ≢ m
    → Apart ys xs
    → IsList g k ys
IsList-KeepsBoth keeps is ne ne' apart = record {
  exists = is.exists;
  header = keeps.lists _ ne ne' ∙ is.header;
  chain = Seg.frame _ _ null _ null is.chain (λ a i. keeps.nodes a (apart a i));
  distinct = is.distinct;
}

-- A process `proc` and its parent: their nodes and blocks are there, the ready queue holds `rs`, the
-- list of waiting processes `ws`, and that of the parent's defunct children `ds`, without a common
-- process, nor `proc`.
pub record Family (s : Kernel) (proc parent d : Ptr) (rs ws ds : List Ptr) : Type 0 where
  pub block : Ptr
  pub pcb : Pcb
  pub of_proc : PointsTo s.heap proc block
  pub of_block : s.pcb block ≡ some pcb
  pub is_parent : pcb.parent ≡ parent
  pub parent_block : Ptr
  pub parent_pcb : Pcb
  pub of_parent : PointsTo s.heap parent parent_block
  pub of_parent_block : s.pcb parent_block ≡ some parent_pcb
  pub is_list : parent_pcb.d_children ≡ d
  pub queues : AreQueues s.heap s.procs.ready s.procs.waiting rs ws
  pub children : IsList s.heap d ds
  pub not_ready : d ≢ s.procs.ready
  pub not_waiting : d ≢ s.procs.waiting
  pub apart : Apart (proc ∷ ds) (ws ++ rs)
  pub fresh : has proc ds ≡ false

-- What handing the process over does.
record HandsOver (s : Kernel) (proc parent d : Ptr) (rs ws ds : List Ptr)
    (o : Option (Unit {0} × Kernel)) : Type 0 where
  after : Heap
  returns : o ≡ some (tt, record s { heap = after })
  queues : AreQueues after s.procs.ready s.procs.waiting (woken parent ws rs) (without parent ws)
  children : IsList after d (ds ++ proc ∷ [])

module _ (fuel : ℕ) (s : Kernel) (proc parent d : Ptr) (rs ws ds : List Ptr)
    (f : Family s proc parent d rs ws ds) (enough : length ws < fuel) where
  get_parent_lem : get_parent proc s ≡ some (parent, s)
  unfolding get_parent
  get_parent_lem =
      let (x, ne, at, to) = f.of_proc in
      run_heap s (load proc) _ (load-ok s.heap proc ne at) (rw (to, f.of_block, f.is_parent) refl)

  -- Its node is put behind the parent's defunct children: the queues are left alone.
  still_queues :
      {h : Heap} → Keeps s.heap h (proc ∷ ds) d → AreQueues h s.procs.ready s.procs.waiting rs ws
  still_queues keeps =
      let away = Apart-sym (proc ∷ ds) (ws ++ rs) f.apart in
      record {
        ready_list =
            IsList-Keeps keeps f.queues.ready_list (λ e. f.not_ready (sym e))
              (λ a i. away a (ground (arith, has-append a ws rs)));
        blocked_list =
            IsList-Keeps keeps f.queues.blocked_list (λ e. f.not_waiting (sym e))
              (λ a i. away a (ground (arith, has-append a ws rs)));
        differ = f.queues.differ;
        apart = f.queues.apart;
      }

  hand_over_lem : HandsOver s proc parent d rs ws ds (hand_over fuel proc s)
  unfolding hand_over
  hand_over_lem =
      let (x, ne, at, to) = f.of_proc in
      let (y, pne, atp, top) = f.of_parent in
      let put = enqueue_lem s.heap d proc x ds f.children ne at f.fresh in
      let s1 : Kernel = record s { heap = put.after } in
      let q1 = still_queues put.keeps in
      let woke = check_wait_lem fuel parent rs ws s1 q1 enough pne in
      record {
        after = woke.after;
        returns = chain _ get_parent_lem (
            rw (==_ne parent null pne) (
              run_heap s (load parent) _ (load-ok s.heap parent pne atp) (
                rw (top, f.of_parent_block, f.is_list)
                  (run_heap s (enqueue d proc) (λ _. check_wait fuel parent) put.returns
                    woke.returns))));
        queues = woke.queues;
        children =
            IsList-KeepsBoth woke.keeps put.is_list f.not_waiting f.not_ready
              (λ a i. f.apart a (sym (has-snoc a proc ds) ∙ i));
      }

-- What graveyard does: the next process runs.
pub record Buries (s : Kernel) (proc parent d : Ptr) (rs ws ds : List Ptr)
    (o : Option (Unit {0} × Kernel)) : Type 0 where
  pub after : Heap
  pub returns : o ≡ some (tt, switched_to s after (first_or s.idle_node (woken parent ws rs)))
  pub ready_list : IsList after s.procs.ready (drop 1 (woken parent ws rs))
  pub waiting_list : IsList after s.procs.waiting (without parent ws)
  pub children : IsList after d (ds ++ proc ∷ [])

-- For a running process with a parent, whose ready queue, list of waiting processes and list of
-- defunct children are well formed, different, without a common process, and without the running
-- one, and with more fuel than processes wait: graveyard puts the running process behind the parent's
-- defunct children; if the parent waits, it goes from the waiting ones to the end of the ready queue;
-- then the first of the ready queue runs, or the idle process where there is none.
pub graveyard_lem :
    (fuel : ℕ) (s : Kernel) (parent d : Ptr) (rs ws ds : List Ptr)
    → Family s s.procs.running parent d rs ws ds
    → length ws < fuel
    → Buries s s.procs.running parent d rs ws ds (graveyard fuel s)
unfolding graveyard
graveyard_lem fuel s parent d rs ws ds f enough =
    let given = hand_over_lem fuel s s.procs.running parent d rs ws ds f enough in
    let s1 : Kernel = record s { heap = given.after } in
    let next = run_next_ready_lem s1 (woken parent ws rs) given.queues.ready_list in
    record {
      after = next.after;
      returns = chain (λ _. run_next_ready) given.returns next.returns;
      ready_list = next.is_list;
      waiting_list =
          IsList-Keeps next.keeps given.queues.blocked_list given.queues.differ
            (Apart-sym (woken parent ws rs) (without parent ws) given.queues.apart);
      children =
          IsList-Keeps next.keeps given.children f.not_ready
            (λ a i. woken-out a parent ws rs (f.apart a (sym (has-snoc a s.procs.running ds) ∙ i)));
    }
