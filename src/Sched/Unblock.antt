-- ===== src/Sched/Unblock.antt =====
-- `unblock`, `unblock_head` and `unblock_all` of ksrc/scheduling.c.
use mathlib.Core.Path.{subst}
use mathlib.Core.List.{append-nil, append_assoc}
use yalnix_os.Common.{
  ℕ, zero, suc, ◌≡◌, ◌<◌, refl, sym, ap, ◌∙◌, ◌≢◌, Option, some, true, false, List, [], ◌∷◌, ◌++◌,
  arith, length,
}
use yalnix_os.Heap.{Ptr, null, Heap, load_list, load_list-ok}
use yalnix_os.LinkedList.{remove, dequeue, is_empty}
use yalnix_os.LinkedList.Shape.{
  has, Distinct, IsList, has-append, header_of, Distinct-back, Distinct-not_front, has-head,
  has_back,
}
use yalnix_os.LinkedList.Insert.{enqueue_lem}
use yalnix_os.LinkedList.Ends.{Removes, dequeue_lem}
use yalnix_os.LinkedList.Remove.{remove_lem}
use yalnix_os.LinkedList.Steps.{is_empty-cons, is_empty-nil}
use yalnix_os.LinkedList.Seg
use yalnix_os.Kernel.{Kernel, run_heap, with_heap}
use yalnix_os.Sched.{ready, unblock, unblock_head, unblock_all}
use yalnix_os.Sched.Queues.{
  IsList-Keeps, KeepsBoth-trans, Keeps-both, AreQueues, Moves, chain, Apart-snoc, Apart-sym,
  Apart-cons,
}

-- Without a node, the others of a list of distinct nodes do not hold it.
gone : (ys zs : List Ptr) (n : Ptr) → Distinct (ys ++ n ∷ zs) → has n (ys ++ zs) ≡ false
gone ys zs n d = ground (
  arith,
  has-append n ys zs,
  Distinct-not_front ys (n ∷ zs) n d (has-head n zs),
  Distinct-back ys (n ∷ zs) d,
)

kept : (ys zs : List Ptr) (n a : Ptr) → has a (ys ++ zs) ≡ true → has a (ys ++ n ∷ zs) ≡ true
kept ys zs n a i = ground (arith, has-append a ys zs, has-append a ys (n ∷ zs))

in_list : (ys zs : List Ptr) (n : Ptr) → has n (ys ++ n ∷ zs) ≡ true
in_list ys zs n = has_back n ys (n ∷ zs) (has-head n zs)

not_null : {h : Heap} {l : Ptr} (ys zs : List Ptr) (n : Ptr) → IsList h l (ys ++ n ∷ zs) → n ≢ null
not_null ys zs n is = ((Seg.split _ null ys (n ∷ zs) null is.chain).1).1

cons_of : (ys zs : List Ptr) (n : Ptr) → (x : Ptr) × (xs : List Ptr) × (ys ++ n ∷ zs ≡ x ∷ xs)
cons_of [] zs n = (n, zs, refl)
cons_of (y ∷ ys) zs n = (y, ys ++ n ∷ zs, refl)

module _ (s : Kernel) (b n : Ptr) (rs ys zs : List Ptr)
    (q : AreQueues s.heap s.procs.ready b rs (ys ++ n ∷ zs)) where
  -- The process `n`, taken off the blocked list, becomes ready.
  gets_ready :
      {o : Option (Ptr × Heap)}
      → (t : Removes s.heap b n (ys ++ n ∷ zs) (ys ++ zs) o)
      → Moves s b
          ((ys ++ n ∷ zs) ++ n ∷ rs)
          (rs ++ n ∷ [])
          (ys ++ zs)
          (λ h. record s { heap = h })
          (ready n (record s { heap = t.after }))
  unfolding ready
  gets_ready t =
      let not_ready : has n rs ≡ false = Apart-sym rs (ys ++ n ∷ zs) q.apart n (in_list ys zs n) in
      let queue = IsList-Keeps t.keeps q.ready_list (λ e. q.differ (sym e)) q.apart in
      let put =
        enqueue_lem t.after s.procs.ready n _ rs queue (not_null ys zs n q.blocked_list) t.unlinked
          not_ready in
      let out = gone ys zs n q.blocked_list.distinct in
      let apart = λ (a : Ptr) (i : has a (ys ++ zs) ≡ true).
        Apart-sym rs (ys ++ n ∷ zs) q.apart a (kept ys zs n a i) in
      record {
        after = put.after;
        returns = ap (with_heap (record s { heap = t.after })) put.returns;
        queues = record {
          ready_list = put.is_list;
          blocked_list =
              IsList-Keeps put.keeps t.is_list q.differ (Apart-cons (ys ++ zs) rs n apart out);
          differ = q.differ;
          apart = Apart-sym (ys ++ zs) (rs ++ n ∷ []) (Apart-snoc (ys ++ zs) rs n apart out);
        };
        keeps = Keeps-both t.keeps put.keeps;
      }

  -- For a ready queue and a blocked list without a common node, unblock moves a process of the
  -- blocked list, wherever it stands, to the end of the ready queue; the lists stay well formed
  -- and the others keep their order, only the links of the nodes involved and the two headers
  -- were written.
  pub unblock_lem :
      Moves s b
        ((ys ++ n ∷ zs) ++ n ∷ rs)
        (rs ++ n ∷ [])
        (ys ++ zs)
        (λ h. record s { heap = h })
        (unblock b n s)
  unfolding unblock
  unblock_lem =
      let t = remove_lem s.heap b n ys zs q.blocked_list in
      let m = gets_ready t in
      let (first, rest, e) = cons_of ys zs n in
      record {
        after = m.after;
        returns =
            run_heap s (is_empty b) _
              (is_empty-cons s.heap b q.blocked_list.exists first rest
                (q.blocked_list.header ∙ ap (λ l. some (header_of l)) e))
              (run_heap s (remove b n) ready t.returns m.returns);
        queues = m.queues;
        keeps = m.keeps;
      }

unblock_none : (s : Kernel) (b n : Ptr) → IsList s.heap b [] → unblock b n s ≡ some (tt, s)
unfolding unblock
unblock_none s b n is = run_heap s (is_empty b) _ (is_empty-nil s.heap b is.exists is.header) refl

-- For a ready queue and a blocked list without a common node that is not empty, unblock_head
-- moves the first process of the blocked list to the end of the ready queue; the lists stay well
-- formed, only the links of the nodes involved and the two headers were written.
pub unblock_head_lem :
    (s : Kernel) (b n : Ptr) (rs bs : List Ptr)
    → AreQueues s.heap s.procs.ready b rs (n ∷ bs)
    → Moves s b
        ((n ∷ bs) ++ n ∷ rs)
        (rs ++ n ∷ [])
        bs
        (λ h. record s { heap = h })
        (unblock_head b s)
unfolding unblock_head
unblock_head_lem s b n rs bs q =
    let m = unblock_lem s b n rs [] bs q in
    record {
      after = m.after;
      returns =
          run_heap s (load_list b) (λ l. unblock b l.head)
            (load_list-ok s.heap b q.blocked_list.exists q.blocked_list.header) m.returns;
      queues = m.queues;
      keeps = m.keeps;
    }

outside :
    (n : Ptr) (bs rs : List Ptr) (a : Ptr)
    → has a ((n ∷ bs) ++ rs) ≡ false
    → (has a ((n ∷ bs) ++ n ∷ rs) ≡ false) × (has a (bs ++ (rs ++ n ∷ [])) ≡ false)
outside n bs rs a o = (
  ground (arith, has-append a bs rs, has-append a bs (n ∷ rs)),
  ground (arith, has-append a bs rs, has-append a bs (rs ++ n ∷ []), has-append a rs (n ∷ [])),
)

-- For a ready queue and a blocked list without a common node, unblock_all with more fuel than
-- blocked processes moves them all, in order, to the end of the ready queue; the lists stay well
-- formed, only the links of the nodes involved and the two headers were written.
pub unblock_all_lem :
    (k : ℕ) (s : Kernel) (b : Ptr) (rs bs : List Ptr)
    → AreQueues s.heap s.procs.ready b rs bs
    → length bs < k
    → Moves s b (bs ++ rs) (rs ++ bs) [] (λ h. record s { heap = h }) (unblock_all k b s)
unfolding unblock_all
unblock_all_lem zero s b rs bs q enough = absurd (omega arith)
unblock_all_lem (suc k) s b rs [] q enough = record {
  after = s.heap;
  returns =
      run_heap s (is_empty b) _ (is_empty-nil s.heap b q.blocked_list.exists q.blocked_list.header)
        refl;
  queues = subst (λ ys. AreQueues s.heap s.procs.ready b ys []) (sym (append-nil rs)) q;
  keeps = record { nodes = λ a o. refl; lists = λ m l n. refl; payloads = λ a. refl };
}
unblock_all_lem (suc k) s b rs (n ∷ bs) q enough =
    let t = dequeue_lem s.heap b n bs q.blocked_list in
    let m = gets_ready s b n rs [] bs q t in
    let rest =
      unblock_all_lem k (record s { heap = m.after }) b (rs ++ n ∷ []) bs m.queues (omega arith) in
    record {
      after = rest.after;
      returns =
          run_heap s (is_empty b) _
            (is_empty-cons s.heap b q.blocked_list.exists n bs q.blocked_list.header)
            (run_heap s (dequeue b) _ t.returns
              (chain (λ _. unblock_all k b) m.returns rest.returns));
      queues =
          subst (λ ys. AreQueues rest.after s.procs.ready b ys []) (append_assoc rs (n ∷ []) bs)
            rest.queues;
      keeps =
          KeepsBoth-trans ((n ∷ bs) ++ n ∷ rs) (bs ++ (rs ++ n ∷ [])) ((n ∷ bs) ++ rs) m.keeps
            rest.keeps (outside n bs rs);
    }
