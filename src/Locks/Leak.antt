-- ===== src/Locks/Leak.antt =====
-- What `destroy_cvar` of ksrc/pilocvario.c leaves behind.
use yalnix_os.Common.{
  ◌≡◌, refl, sym, ◌∙◌, ◌≢◌, true, false, some, none, List, ◌∷◌, ◌++◌, arith, update, update_self,
  update-ne, ==_ne,
}
use yalnix_os.Common.Int.{ℤ, pos, minus_one}
use yalnix_os.Heap.{Ptr, null, Heap, free_list, store-ok}
use yalnix_os.LinkedList.{destroy_node, is_empty, remove}
use yalnix_os.LinkedList.Shape.{
  has, IsList, Distinct-back, Distinct-not_front, has-head, has-append,
}
use yalnix_os.LinkedList.Ends.{Removes}
use yalnix_os.LinkedList.Remove.{remove_lem}
use yalnix_os.Kernel.{
  Kernel, KernelCmd, Cvar, set_cvar, kernel, on_heap, free_cvar, done, ◌>>=◌, ◌>>◌,
}
use yalnix_os.Kernel.Runs.{PointsTo, data_of-ok}
use yalnix_os.Sched.Queues.{Apart, IsList-Keeps, chain}
use yalnix_os.Process.Destroy.{without_node}
use yalnix_os.Process.Ended.{IsList-without}
use yalnix_os.Locks.{destroy_cvar}

-- The state after a condition variable is destroyed: it is gone from the list, and the processes
-- `bs` are in its own list still.
pub record Abandons (s t : Kernel) (n p : Ptr) (c : Cvar) (rest bs : List Ptr) : Type 0 where
  pub gone : t.objects.cvar p ≡ none
  pub node : t.heap.node n ≡ none
  pub others : IsList t.heap s.objects.pilocvar.cvar rest
  pub still_blocked : IsList t.heap c.blocked bs

-- Freeing NULL leaves every list alone.
IsList-free_null :
    {h : Heap} {l : Ptr} {xs : List Ptr}
    → IsList h l xs
    → IsList (record h { list = update h.list null none }) l xs
IsList-free_null {h = h} {l = l} is = record {
  exists = is.exists;
  header = update-ne h.list null l none (λ e. is.exists (sym e)) ∙ is.header;
  chain = is.chain;
  distinct = is.distinct;
}

-- Once the list has no more part in it, a condition variable and its node go.
taken_off :
    (n p : Ptr) (u : Kernel) (xs rest : List Ptr)
    → n ≢ null
    → (r : Removes u.heap u.objects.pilocvar.cvar n xs rest
        (remove u.objects.pilocvar.cvar n u.heap))
    → let c : KernelCmd ℤ = (do
      s ← kernel
      _ ← on_heap (remove s.objects.pilocvar.cvar n)
      on_heap (destroy_node n)
      free_cvar p
      done (pos 0)) in
      c u ≡ some (pos 0, record (set_cvar u p none) { heap = without_node n r.after })
unfolding destroy_node
taken_off n p u xs rest ne r =
    rw r.returns (rw (==_ne n null ne) (rw (store-ok r.after n ne r.unlinked _) refl))

module _ (n p : Ptr) (c : Cvar) (s : Kernel) (ys zs bs : List Ptr) where
  abbrev before : Heap
  before = record s.heap { list = update s.heap.list null none }

  -- For a condition variable in the well-formed list of them, whose own list holds other nodes, and
  -- where the word behind it happens to be NULL: whichever processes are blocked in its list,
  -- destroy_cvar returns 0; the condition variable and its node are freed and the others stay in
  -- order, but its list goes on to exist with the blocked processes in it.
  pub destroy_cvar_lem :
      PointsTo s.heap n p
      → s.objects.cvar p ≡ some c
      → c.behind ≡ null
      → IsList s.heap s.objects.pilocvar.cvar (ys ++ n ∷ zs)
      → IsList s.heap c.blocked bs
      → c.blocked ≢ s.objects.pilocvar.cvar
      → Apart bs (ys ++ n ∷ zs)
      → (t : Kernel) × (destroy_cvar n s ≡ some (pos 0, t)) × Abandons s t n p c (ys ++ zs) bs
  unfolding destroy_cvar free_list is_empty
  destroy_cvar_lem to at behind cvars blocked differ apart =
      let (_, ne, _, _) = to in
      let freed : Kernel = record (set_cvar s p (some (record c { behind = null }))) {
        heap = before;
      } in
      let r = remove_lem before s.objects.pilocvar.cvar n ys zs (IsList-free_null cvars) in
      let here : has n (ys ++ n ∷ zs) ≡ true = ground (arith, has-append n ys (n ∷ zs)) in
      let split = Distinct-not_front ys (n ∷ zs) n cvars.distinct (has-head n zs) in
      let behind_it = (Distinct-back ys (n ∷ zs) cvars.distinct).0 in
      let out : has n (ys ++ zs) ≡ false = ground (arith, has-append n ys zs) in
      let spared : has n bs ≡ false = ground (arith, apart n) in
      (
        record s {
          heap = without_node n r.after;
          objects = record s.objects {
            cvar = update (update s.objects.cvar p (some (record c { behind = null }))) p none;
          };
        },
        chain _ (data_of-ok s n p to)
            (rw at (rw behind (taken_off n p freed (ys ++ n ∷ zs) (ys ++ zs) ne r))),
        record {
          gone = update_self (update s.objects.cvar p (some (record c { behind = null }))) p none;
          node =
              update_self
                (update r.after.node n
                  (some (record { contents = null; code = minus_one; next = null; prev = null })))
                n none;
          others = IsList-without n r.is_list out;
          still_blocked =
              IsList-without n (IsList-Keeps r.keeps (IsList-free_null blocked) differ apart)
                spared;
        },
      )
