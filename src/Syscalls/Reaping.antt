-- ===== src/Syscalls/Reaping.antt =====
-- KernelWait of ksrc/syscalls.c for a process with a defunct child.
use yalnix_os.Common.{
  ℕ, ◌≡◌, ◌≢◌, ◌<◌, refl, sym, ◌∙◌, Option, some, Bool, true, false, List, ◌∷◌, arith, length,
  update, ◌==◌, if◌then◌else◌, ==_ne,
}
use yalnix_os.Common.Int.{ℤ}
use yalnix_os.Heap.{Ptr, null, Node, Heap, load, load-ok}
use yalnix_os.LinkedList.{dequeue}
use yalnix_os.LinkedList.Shape.{has, IsList, ne_of_has, has-head}
use yalnix_os.LinkedList.Seg
use yalnix_os.LinkedList.Keeps.{Keeps}
use yalnix_os.LinkedList.Ends.{Removes, dequeue_lem}
use yalnix_os.Memory.{Machine}
use yalnix_os.Kernel.{Kernel, Pcb, done, Outcome, returned, run_heap, overwrite, write_user}
use yalnix_os.Kernel.Runs.{PointsTo, data_of-ok}
use yalnix_os.Sched.Queues.{Apart, Apart-sym, IsList-Keeps, chain}
use yalnix_os.Process.{get_pid, process_destroy, reap_orphans}
use yalnix_os.Process.Ended.{
  Ended, nodes_of, AreEnded, AreEnded-payload, Reaps, Reaps-step, IsList-without, then_on,
  destroyed-lem, others_ended,
}
use yalnix_os.Process.Orphans.{reap_orphans_lem}
use yalnix_os.Syscalls.{running_pcb, reap_child, try_wait}

get_pid_lem :
    (s : Kernel) (n p : Ptr) (x : Pcb)
    → PointsTo s.heap n p
    → s.pcb p ≡ some x
    → get_pid n s ≡ some (x.pid, s)
unfolding get_pid
get_pid_lem s n p x to at = chain _ (data_of-ok s n p to) (rw at refl)

pub running_pcb_lem :
    (s : Kernel) (p : Ptr) (x : Pcb)
    → PointsTo s.heap s.procs.running p
    → s.pcb p ≡ some x
    → running_pcb s ≡ some (x, s)
unfolding running_pcb
running_pcb_lem s p x to at = chain _ (data_of-ok s s.procs.running p to) (rw at refl)

has-skip : (a n : Ptr) (xs : List Ptr) → n ≢ a → has a xs ≡ false → has a (n ∷ xs) ≡ false
has-skip a n xs ne out = ground arith

has-later : (a n : Ptr) (xs : List Ptr) → has a xs ≡ true → has a (n ∷ xs) ≡ true
has-later a n xs i = ground arith

module _ (m : Machine) (status_ptr : ℕ) where
  -- The bytes of the processes, once the exit code is stored where `status_ptr` is not NULL.
  abbrev pub with_status : ℤ → Kernel → Ptr → ℕ → ℕ
  with_status code s =
      if status_ptr == null
      then s.user
      else update s.user s.procs.running
          (overwrite (s.user s.procs.running) status_ptr (m.int_bytes code))

  store_status :
      (code : ℤ) (s : Kernel)
      → (if status_ptr == null then done tt else write_user status_ptr (m.int_bytes code)) s
        ≡ some (tt, record s { user = with_status code s })
  store_status code s = at (status_ptr == null)
    where
      at :
          (b : Bool)
          → (if b then done tt else write_user status_ptr (m.int_bytes code)) s
            ≡ some (
              tt,
              record s {
                user =
                    if b
                    then s.user
                    else update s.user s.procs.running
                        (overwrite (s.user s.procs.running) status_ptr (m.int_bytes code));
              },
            )
      at true = refl
      at false = refl

  -- The rest of KernelWait, once the child is off its list.
  reap_child_lem :
      (fuel : ℕ) (o : Ended) (code : ℤ) (s u t : Kernel)
      → (y : Node) → s.heap.node o.node ≡ some y
      → y.code ≡ code
      → PointsTo s.heap o.node o.at
      → s.pcb o.at ≡ some o.pcb
      → process_destroy m o.node (record s { user = with_status code s }) ≡ some (tt, u)
      → reap_orphans m fuel u ≡ some (tt, t)
      → reap_child m fuel status_ptr o.node s ≡ some (returned o.pcb.pid, t)
  unfolding reap_child
  reap_child_lem fuel o code s u t y at same to block destroyed reaped =
      chain _ (get_pid_lem s o.node o.at o.pcb to block) (
        run_heap s (load o.node) _ (load-ok s.heap o.node to.1 at)
          (rw same (chain _ (store_status code s) (chain _ destroyed (chain _ reaped refl)))))

-- A running process with a defunct child `o` in front of the others `ds`, and the orphans `os`.
pub record HasDefunct (m : Machine) (s : Kernel) (o : Ended) (ds : List Ptr) (os : List Ended)
    : Type 0 where
  pub block : Ptr
  pub pcb : Pcb
  pub of_running : PointsTo s.heap s.procs.running block
  pub of_block : s.pcb block ≡ some pcb
  pub node : Node
  pub of_child : s.heap.node o.node ≡ some node
  pub defunct : IsList s.heap pcb.d_children (o.node ∷ ds)
  pub orphans : IsList s.heap s.procs.orphans (nodes_of os)
  pub differ : s.procs.orphans ≢ pcb.d_children
  pub apart : Apart (nodes_of os) (o.node ∷ ds)
  pub ended : AreEnded m (o ∷ os) s

-- What KernelWait does: `taken` is the heap without the child in the parent's list.
pub record Collects (m : Machine) (status_ptr : ℕ) (s : Kernel) (o : Ended) (ds : List Ptr)
    (os : List Ended) (d : Ptr) (code : ℤ) (r : Option (Outcome × Kernel)) : Type 0 where
  pub taken : Heap
  pub keeps : Keeps s.heap taken (o.node ∷ ds) d
  pub after : Kernel
  pub returns : r ≡ some (returned o.pcb.pid, after)
  pub reaps :
      Reaps m (o ∷ os) (record s { heap = taken; user = with_status m status_ptr code s }) after
  pub children : IsList after.heap d ds

module _ (m : Machine) (fuel status_ptr : ℕ) (s : Kernel) (o : Ended) (ds : List Ptr)
    (os : List Ended) (w : HasDefunct m s o ds os) (enough : length os < fuel) where
  abbrev off :
      Removes s.heap w.pcb.d_children o.node (o.node ∷ ds) ds (dequeue w.pcb.d_children s.heap)
  off = dequeue_lem s.heap w.pcb.d_children o.node ds w.defunct

  code_kept : off.removed.code ≡ w.node.code
  code_kept =
      let same = off.keeps.payloads o.node in
      let now = off.unlinked in let before = w.of_child in cc

  not_orphan : (a : Ptr) → has a (o.node ∷ ds) ≡ true → has a (nodes_of os) ≡ false
  not_orphan = Apart-sym (nodes_of os) (o.node ∷ ds) w.apart

  -- The other defunct children are not touched.
  still_defunct :
      (t : Kernel) (user : Ptr → ℕ → ℕ)
      → Reaps m (o ∷ os) (record s { heap = off.after; user = user }) t
      → IsList t.heap w.pcb.d_children ds
  unfolding nodes_of
  still_defunct t user r = record {
    exists = w.defunct.exists;
    header = r.lists w.pcb.d_children (λ e. w.differ (sym e)) ∙ off.is_list.header;
    chain = Seg.frame off.after.node t.heap.node null ds null off.is_list.chain (λ a i.
        r.other_nodes a (
          has-skip a o.node (nodes_of os) (ne_of_has o.node a ds w.defunct.distinct.0 i)
            (not_orphan a (has-later a o.node ds i))));
    distinct = off.is_list.distinct;
  }

  pub try_wait_lem :
      Collects m status_ptr s o ds os w.pcb.d_children w.node.code (try_wait m fuel status_ptr s)
  unfolding try_wait AreEnded
  try_wait_lem =
      let s0 : Kernel = record s { heap = off.after } in
      let s1 : Kernel = record s0 { user = with_status m status_ptr w.node.code s } in
      let are = AreEnded-payload m (o ∷ os) s s1 off.keeps.payloads refl refl w.ended in
      let (to, block, _, _, _, _) = are in
      let out = not_orphan o.node (has-head o.node ds) in
      let list = IsList-Keeps off.keeps w.orphans w.differ w.apart in
      let (t, ran, reaps) =
        reap_orphans_lem m fuel os (then_on m o os s1 off.after are)
          (IsList-without o.node list out) (others_ended m o os s1 off.after are out (λ a. refl))
          enough in
      let whole = Reaps-step m o os s1 off.after are t (λ a e. refl) (λ l ne. refl) reaps in
      record {
        taken = off.after;
        keeps = off.keeps;
        after = t;
        returns = chain _ (running_pcb_lem s w.block w.pcb w.of_running w.of_block) (
            run_heap s (dequeue w.pcb.d_children) _ off.returns (
              rw (==_ne o.node null to.1) (
                reap_child_lem m status_ptr fuel o w.node.code s0 _ t _ off.unlinked code_kept to
                  block (destroyed-lem m o os s1 off.after are refl) ran)));
        reaps = whole;
        children = still_defunct t _ whole;
      }
