-- ===== src/Sched/Queues.antt =====
-- Lists that an operation on another list leaves alone, and the steps shared by the functions of
-- ksrc/scheduling.c.
use yalnix_os.Common.{
  ◌≡◌, refl, ap, ◌∙◌, ◌≢◌, Option, some, true, false, List, [], ◌∷◌, ◌++◌, arith, drop, Bool-cases,
  inl, inr,
}
use yalnix_os.Heap.{Ptr, null, Heap}
use yalnix_os.LinkedList.{is_empty}
use yalnix_os.LinkedList.Shape.{has, first_or, IsList, has-append, ne_of_has}
use yalnix_os.LinkedList.Seg
use yalnix_os.LinkedList.Keeps.{Keeps, payload}
use yalnix_os.LinkedList.Steps.{is_empty-nil, is_empty-cons}
use yalnix_os.LinkedList.Ends.{dequeue_lem}
use yalnix_os.Kernel.{Kernel, KernelCmd, go_on, with_heap, run_heap}
use yalnix_os.Sched.{run_next, next_ready, run_next_ready}

-- No node is in both lists.
abbrev pub Apart : List Ptr → List Ptr → Type 0
Apart xs ys = (a : Ptr) → has a xs ≡ true → has a ys ≡ false

-- A list is left alone by what happens to another one with other nodes.
pub IsList-Keeps :
    {h g : Heap} {l m : Ptr} {xs ys : List Ptr}
    → Keeps h g xs l
    → IsList h m ys
    → m ≢ l
    → Apart ys xs
    → IsList g m ys
IsList-Keeps k is ne apart = record {
  exists = is.exists;
  header = k.lists _ ne ∙ is.header;
  chain = Seg.frame _ _ null _ null is.chain (λ a i. k.nodes a (apart a i));
  distinct = is.distinct;
}

-- From `h` to `g` at most the links of the nodes `xs` and the headers `l` and `m` have changed.
pub record KeepsBoth (h g : Heap) (xs : List Ptr) (l m : Ptr) : Type 0 where
  pub nodes : (a : Ptr) → has a xs ≡ false → g.node a ≡ h.node a
  pub lists : (k : Ptr) → k ≢ l → k ≢ m → g.list k ≡ h.list k
  pub payloads : (a : Ptr) → payload (g.node a) ≡ payload (h.node a)

pub Keeps-both :
    {h g k : Heap} {xs ys : List Ptr} {l m : Ptr}
    → Keeps h g xs l
    → Keeps g k ys m
    → KeepsBoth h k (xs ++ ys) l m
Keeps-both {xs = xs} {ys = ys} p q = record {
  nodes = λ a o.
      q.nodes a (ground (arith, has-append a xs ys))
      ∙ p.nodes a (ground (arith, has-append a xs ys));
  lists = λ n a b. q.lists n b ∙ p.lists n a;
  payloads = λ a. q.payloads a ∙ p.payloads a;
}

-- The state after `switch_proc` to `next`, with the heap `h`.
abbrev pub switched_to : Kernel → Heap → Ptr → Kernel
switched_to s h next = record s {
  heap = h;
  procs = record s.procs { running = next };
  switched = (s.procs.running, next) ∷ s.switched;
}

-- What `run_next_ready` does with the ready queue `rs`.
pub record RunsNext (s : Kernel) (rs : List Ptr) (o : Option (Unit {0} × Kernel)) : Type 0 where
  pub after : Heap
  pub returns : o ≡ some (tt, switched_to s after (first_or s.idle_node rs))
  pub is_list : IsList after s.procs.ready (drop 1 rs)
  pub keeps : Keeps s.heap after rs s.procs.ready

Keeps-none : {h : Heap} {l : Ptr} → Keeps h h [] l
Keeps-none = record { nodes = λ a o. refl; lists = λ m ne. refl; payloads = λ a. refl }

-- A command's result, and what follows it.
pub chain :
    {A B : Type 0} {o : Option (A × Kernel)} {a : A} {s : Kernel} {r : Option (B × Kernel)}
    (k : A → KernelCmd B)
    → o ≡ some (a, s)
    → k a s ≡ r
    → go_on o k ≡ r
chain k e f = rw e f

pub run_next_ready_lem :
    (s : Kernel) (rs : List Ptr) → IsList s.heap s.procs.ready rs → RunsNext s rs (run_next_ready s)
unfolding run_next_ready next_ready run_next
run_next_ready_lem s [] is = record {
  after = s.heap;
  returns =
      chain run_next
        (run_heap s (is_empty s.procs.ready) _
          (is_empty-nil s.heap s.procs.ready is.exists is.header) refl)
        refl;
  is_list = is;
  keeps = Keeps-none;
}
run_next_ready_lem s (r ∷ rs) is =
    let taken = dequeue_lem s.heap s.procs.ready r rs is in
    record {
      after = taken.after;
      returns =
          chain run_next
            (run_heap s (is_empty s.procs.ready) _
              (is_empty-cons s.heap s.procs.ready is.exists r rs is.header)
              (ap (with_heap s) taken.returns))
            refl;
      is_list = taken.is_list;
      keeps = taken.keeps;
    }

-- The ready queue `r` holds `rs` and the list `b` of blocked processes `bs`, which differ.
pub record AreQueues (h : Heap) (r b : Ptr) (rs bs : List Ptr) : Type 0 where
  pub ready_list : IsList h r rs
  pub blocked_list : IsList h b bs
  pub differ : b ≢ r
  pub apart : Apart rs bs

-- What a function of the scheduler does to the ready queue and the blocked list `b`, which hold
-- `rs` and `bs` behind it: of `nodes` at most the links change.
pub record Moves (s : Kernel) (b : Ptr) (nodes rs bs : List Ptr) (to : Heap → Kernel)
    (o : Option (Unit {0} × Kernel)) : Type 0 where
  pub after : Heap
  pub returns : o ≡ some (tt, to after)
  pub queues : AreQueues after s.procs.ready b rs bs
  pub keeps : KeepsBoth s.heap after nodes b s.procs.ready

pub has-drop : (a : Ptr) (xs : List Ptr) → has a (drop 1 xs) ≡ true → has a xs ≡ true
has-drop a [] i = i
has-drop a (x ∷ xs) i = ground arith

pub Apart-snoc :
    (xs ys : List Ptr) (n : Ptr) → Apart xs ys → has n xs ≡ false → Apart xs (ys ++ n ∷ [])
Apart-snoc xs ys n apart out a i =
    ground (arith, apart a i, has-append a ys (n ∷ []), ne_of_has n a xs out i)

pub Apart-sym : (xs ys : List Ptr) → Apart xs ys → Apart ys xs
Apart-sym xs ys apart a i = elim (Bool-cases (has a xs)) [
  | inl j ↦ let out = apart a j in cc
  | inr o ↦ o
]

pub Apart-cons : (xs ys : List Ptr) (n : Ptr) → Apart xs ys → has n xs ≡ false → Apart xs (n ∷ ys)
Apart-cons xs ys n apart out a i = ground (arith, apart a i, ne_of_has n a xs out i)

pub KeepsBoth-trans :
    {h g k : Heap} {l m : Ptr} (xs ys zs : List Ptr)
    → KeepsBoth h g xs l m
    → KeepsBoth g k ys l m
    → ((a : Ptr) → has a zs ≡ false → (has a xs ≡ false) × (has a ys ≡ false))
    → KeepsBoth h k zs l m
KeepsBoth-trans xs ys zs p q within = record {
  nodes = λ a o. let (x, y) = within a o in q.nodes a y ∙ p.nodes a x;
  lists = λ n e f. q.lists n e f ∙ p.lists n e f;
  payloads = λ a. q.payloads a ∙ p.payloads a;
}
