-- ===== src/Sched/Delay.antt =====
-- `check_delay` of ksrc/scheduling.c.
use yalnix_os.Common.{
  ℕ, suc, ◌≡◌, refl, ap, ◌∙◌, ◌≢◌, some, Bool, true, false, List, [], ◌∷◌, ◌++◌, ◌==◌, update,
  ==_ne, ==_iff,
}
use yalnix_os.Common.Int.{ℤ, pos}
use yalnix_os.Heap.{Ptr, null, Node, Heap, load, store, load_list, load-ok, store-ok, load_list-ok}
use yalnix_os.LinkedList.Shape.{Seg, IsList}
use yalnix_os.LinkedList.Seg
use yalnix_os.Kernel.{Kernel, run_heap}
use yalnix_os.Sched.{check_delay, delay_loop}
use yalnix_os.Sched.Queues.{AreQueues, Moves, chain}
use yalnix_os.Sched.Unblock.{unblock_lem}

-- The heap with another code in the node `n`, which holds `x`.
abbrev pub coded : Heap → Ptr → Node → ℤ → Heap
coded h n x c = record h { node = update h.node n (some (record x { code = c })) }

module _ (h : Heap) (n : Ptr) (x : Node) (c : ℤ) (node : h.node n ≡ some x) where
  Seg-coded :
      (p : Ptr) (xs : List Ptr) (q : Ptr) → Seg h.node p xs q → Seg (coded h n x c).node p xs q
  Seg-coded p [] q s = tt
  Seg-coded p (y ∷ ys) q (z, ne, at, before, behind, s) =
      let rest = Seg-coded y ys q s in write (n == y) refl rest
    where
      write :
          (t : Bool)
          → (n == y) ≡ t
          → Seg (coded h n x c).node y ys q
          → Seg (coded h n x c).node p (y ∷ ys) q
      write true e rest =
          let same : n ≡ y = (==_iff n y).0 e in
          let is_x : x ≡ z = cc in
          (
            record x { code = c },
            ne,
            rw e refl,
            ap (λ (w : Node). w.prev) is_x ∙ before,
            ap (λ (w : Node). w.next) is_x ∙ behind,
            rest,
          )
      write false e rest = (z, ne, rw e at, before, behind, rest)

  IsList-coded : {l : Ptr} {xs : List Ptr} → IsList h l xs → IsList (coded h n x c) l xs
  IsList-coded is = record {
    exists = is.exists;
    header = is.header;
    chain = Seg-coded null _ null is.chain;
    distinct = is.distinct;
  }

-- The last node of a list has no successor.
last_next :
    {h : Heap} {l : Ptr} (xs : List Ptr) (n : Ptr)
    → IsList h l (xs ++ n ∷ [])
    → (y : Node) × (h.node n ≡ some y) × (y.next ≡ null)
last_next xs n is =
    let (y, ne, at, before, behind, t) = (Seg.split _ null xs (n ∷ []) null is.chain).1 in
    (y, at, behind)

-- For a ready queue and a list of delayed processes without a common node, where the first
-- delayed process has one tick left, check_delay (with fuel for two rounds) sets its count to 0,
-- moves it to the end of the ready queue and ends: the nodes of the other delayed processes keep
-- their counts, and only links and the two headers were written besides.
pub check_delay_first :
    (k : ℕ) (s : Kernel) (n : Ptr) (rs bs : List Ptr) (x : Node)
    → AreQueues s.heap s.procs.ready s.procs.delayed rs (n ∷ bs)
    → s.heap.node n ≡ some x
    → x.code ≡ pos 1
    → Moves
        (record s { heap = coded s.heap n x (pos 0) })
        s.procs.delayed
        ((n ∷ bs) ++ n ∷ rs)
        (rs ++ n ∷ [])
        bs
        (λ h. record s { heap = h })
        (check_delay (suc (suc k)) s)
unfolding check_delay delay_loop
check_delay_first k s n rs bs x q node one =
    let d = s.procs.delayed in
    let h = coded s.heap n x (pos 0) in
    let ne : n ≢ null = q.blocked_list.chain.1 in
    let q' : AreQueues h s.procs.ready d rs (n ∷ bs) = record {
      ready_list = IsList-coded s.heap n x (pos 0) node q.ready_list;
      blocked_list = IsList-coded s.heap n x (pos 0) node q.blocked_list;
      differ = q.differ;
      apart = q.apart;
    } in
    let m = unblock_lem (record s { heap = h }) d n rs [] bs q' in
    let (y, at, stop) = last_next rs n m.queues.ready_list in
    record {
      after = m.after;
      returns =
          run_heap s (load_list d) _
            (load_list-ok s.heap d q.blocked_list.exists q.blocked_list.header)
            (rw (==_ne n null ne) (
              run_heap s (load n) _ (load-ok s.heap n ne node) (
                rw one (
                  run_heap s (store n _) _ (store-ok s.heap n ne node (record x { code = pos 0 })) (
                    chain _ m.returns (
                      run_heap (record s { heap = m.after }) (load n)
                        (λ w. delay_loop (suc k) w.next) (load-ok m.after n ne at)
                        (rw stop refl)))))));
      queues = m.queues;
      keeps = m.keeps;
    }
