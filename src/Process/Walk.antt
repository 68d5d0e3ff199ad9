-- ===== src/Process/Walk.antt =====
-- The walk of process_terminate of ksrc/process.c over the children that are alive.
use mathlib.Core.Path.{subst}
use yalnix_os.Common.{
  ℕ, zero, suc, ◌≡◌, ◌≢◌, refl, sym, ap, ◌∙◌, Option, none, some, Bool, true, false, List, [], ◌∷◌,
  ◌++◌, ◌==◌, if◌then◌else◌, update, update-ne, arith, ==_ne,
}
use yalnix_os.Heap.{Ptr, null, Heap, Node, load, load-ok}
use yalnix_os.LinkedList.Shape.{has, Distinct, Seg, first_or, has-head, has_back, ne_of_has}
use yalnix_os.LinkedList.Seg
use yalnix_os.Kernel.{Kernel, Pcb, KernelCmd, done, go_on, fetch, run_heap}
use yalnix_os.Memory.{Machine}
use yalnix_os.Sched.Queues.{chain}
use yalnix_os.Process.{orphan_loop, free_last, free_node}

-- `free(last)` leaves the other nodes alone.
free_last_lem :
    (last : Ptr) (s : Kernel)
    → (h : Heap) × (free_last last s ≡ some (tt, record s { heap = h }))
      × ((a : Ptr) → last ≢ a → h.node a ≡ s.heap.node a)
free_last_lem last s = at (last == null)
  where
    at :
        (b : Bool)
        → (h : Heap) × ((if b then done tt else free_node last) s
            ≡ some (tt, record s { heap = h }))
          × ((a : Ptr) → last ≢ a → h.node a ≡ s.heap.node a)
    at true = (s.heap, refl, λ a ne. refl)
    at false = (
      record s.heap { node = update s.heap.node last none },
      refl,
      λ a ne. update-ne s.heap.node last a none ne,
    )

no_result :
    (o : Option Pcb) (s : Kernel) (k : Pcb → KernelCmd (Unit {0}))
    → ((p : Pcb) → o ≡ some p → k p s ≡ none)
    → go_on (fetch o s) k ≡ none
no_result none s k rest = refl
no_result (some p) s k rest = rest p refl

-- From the first of the linked nodes `xs`, a node `n` and the nodes `ys` on, which are different
-- and not `last`, where the block of `n` is freed, the loop of process_terminate over the children
-- that are alive has no result, with any fuel.
pub orphan_loop-none :
    (m : Machine) (k : ℕ) (b last : Ptr) (xs : List Ptr) (n : Ptr) (ys : List Ptr) (z : Node)
    (s : Kernel)
    → Seg s.heap.node b (xs ++ n ∷ ys) null
    → Distinct (xs ++ n ∷ ys)
    → has last (xs ++ n ∷ ys) ≡ false
    → s.heap.node n ≡ some z
    → s.pcb z.contents ≡ none
    → orphan_loop m k (first_or null (xs ++ n ∷ ys)) last s ≡ none
unfolding orphan_loop
orphan_loop-none m zero b last xs n ys z s seg apart out node gone = refl
orphan_loop-none m (suc k) b last [] n ys z s seg apart out node gone =
    let (y, ne, at, _, _, _) = seg in
    rw (==_ne n null ne) (run_heap s (load n) _ (load-ok s.heap n ne node) (rw gone refl))
orphan_loop-none m (suc k) b last (x ∷ xs) n ys z s seg apart out node gone =
    let (y, ne, at, _, next, rest) = seg in
    rw (==_ne x null ne) (
      run_heap s (load x) _ (load-ok s.heap x ne at) (
        no_result (s.pcb y.contents) s _ (λ p there.
          let s1 : Kernel = record s {
            pcb = update s.pcb y.contents (some (record p { parent = null }));
          } in
          let (h, freed, kept) = free_last_lem last s1 in
          let s2 : Kernel = record s1 { heap = h } in
          let other : y.contents ≢ z.contents = λ same. clash (ap s.pcb same) there gone in
          let others = λ (a : Ptr) (i : has a (x ∷ xs ++ n ∷ ys) ≡ true).
            kept a (ne_of_has last a (x ∷ xs ++ n ∷ ys) out i) in
          let later =
            orphan_loop-none m k x x xs n ys z s2
              (Seg.frame s.heap.node h.node x (xs ++ n ∷ ys) null rest
                (λ a i. others a (has_later a x (xs ++ n ∷ ys) i)))
              apart.1 apart.0
              (others n (has_later n x (xs ++ n ∷ ys) (has_back n xs (n ∷ ys) (has-head n ys)))
                ∙ node)
              (update-ne s.pcb y.contents z.contents _ other ∙ gone) in
          chain _ freed (
            run_heap s2 (load x) (λ w. orphan_loop m k w.next x)
              (load-ok h x ne (others x (has-head x (xs ++ n ∷ ys)) ∙ at))
              (subst (λ q. orphan_loop m k q x s2 ≡ none) (sym next) later)))))
  where
    clash : {o o' : Option Pcb} {p : Pcb} → o ≡ o' → o ≡ some p → o' ≡ none → ⊥
    clash a b c = cc

    has_later : (a x : Ptr) (l : List Ptr) → has a l ≡ true → has a (x ∷ l) ≡ true
    has_later a x l i = ground arith
