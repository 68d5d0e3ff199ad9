-- ===== src/Process/Reap.antt =====
-- The walk of process_terminate of ksrc/process.c over the defunct children.
use yalnix_os.Common.{
  ℕ, zero, suc, ◌≡◌, refl, ap, ◌∙◌, ◌≢◌, Option, none, some, update, update_self, ==_ne,
}
use yalnix_os.Heap.{Ptr, null, Heap, load, and_then}
use yalnix_os.LinkedList.{destroy_node}
use yalnix_os.Memory.{Machine}
use yalnix_os.Memory.Tables.{destroy_kstack}
use yalnix_os.Kernel.{Kernel, go_on, ◌>>=◌, on_heap, load_pcb, data_of}
use yalnix_os.Kernel.Runs.{go_on_inv, on_heap_inv, of_run}
use yalnix_os.Process.{process_destroy, reap_loop, free_pcb}

-- `destroy_node` leaves nothing at the node's address.
destroy_node-gone :
    (n : Ptr) (a : Unit {0}) (h k : Heap)
    → n ≢ null
    → destroy_node n h ≡ some (a, k)
    → k.node n ≡ none
unfolding destroy_node
destroy_node-gone n a h k ne e = freed _ (rw (==_ne n null ne) at e)
  where
    freed :
        (o : Option (Unit {0} × Heap))
        → and_then o (λ _ g. some (tt, record g { node = update g.node n none })) ≡ some (a, k)
        → k.node n ≡ none
    freed none r = cc
    freed (some (b, g)) r =
        let same : k ≡ record g { node = update g.node n none } = cc in
        ap (λ (x : Heap). x.node n) same ∙ update_self g.node n none

module _ (m : Machine) where
  process_destroy-gone :
      (n : Ptr) (s : Kernel) (a : Unit {0}) (t : Kernel)
      → n ≢ null
      → process_destroy m n s ≡ some (a, t)
      → t.heap.node n ≡ none
  unfolding process_destroy
  process_destroy-gone n s a t ne e =
      let (p, u, _, e1) = go_on_inv (data_of n s) _ a t e in
      let (x, v, _, e2) = go_on_inv (load_pcb p u) _ a t e1 in
      let v' : Kernel = record v {
        mem = record v.mem { free_frame = (destroy_kstack m x.kstack v.mem.free_frame).1 };
      } in
      let (b, w, freed, rest) = go_on_inv (on_heap (destroy_node n) v') (λ _. free_pcb p) a t e2 in
      let (h, gone, same) = on_heap_inv v' (destroy_node n v.heap) b w freed in
      of_run (λ _ k. k.heap.node n ≡ none) tt a (record w { pcb = update w.pcb p none }) t rest
        (ap (λ (k : Kernel). k.heap.node n) same ∙ destroy_node-gone n b v.heap h ne gone)

  -- From a node that is not NULL on, the loop of process_terminate that destroys the defunct children
  -- has no result, in any state and with any fuel.
  pub reap_loop-none : (fuel : ℕ) (n : Ptr) (s : Kernel) → n ≢ null → reap_loop m fuel n s ≡ none
  unfolding reap_loop load
  reap_loop-none zero n s ne = refl
  reap_loop-none (suc k) n s ne = rw (==_ne n null ne) (after (process_destroy m n s) refl)
    where
      after :
          (o : Option (Unit {0} × Kernel))
          → process_destroy m n s ≡ o
          → go_on o (λ _. (on_heap (load n) >>= λ y. reap_loop m k y.next)) ≡ none
      after none e = refl
      after (some (a, t)) e = rw (==_ne n null ne, process_destroy-gone n s a t ne e) refl
