-- ===== src/Sched/Waiting.antt =====
-- `check_wait` of ksrc/scheduling.c: a parent that waits is woken.
use mathlib.Core.Path.{subst}
use yalnix_os.Common.{
  ℕ, ◌≡◌, ◌<◌, ◌≢◌, refl, ap, Option, some, Bool, true, false, List, [], ◌∷◌, ◌++◌, arith, length,
  ◌==◌, if◌then◌else◌, Bool-cases, inl, inr,
}
use yalnix_os.Heap.{Ptr, null}
use yalnix_os.LinkedList.{has_member}
use yalnix_os.LinkedList.Shape.{has, has-append, ne_of_has}
use yalnix_os.LinkedList.Search.{has_member_lem}
use yalnix_os.Kernel.{Kernel, run_heap}
use yalnix_os.Sched.{check_wait}
use yalnix_os.Sched.Queues.{AreQueues, Moves}
use yalnix_os.Sched.Unblock.{unblock_lem}

-- The list without the first `n`.
unfoldable pub without : Ptr → List Ptr → List Ptr
without n [] = []
without n (x ∷ xs) = if n == x then xs else x ∷ without n xs

-- The ready queue, once a parent that waits is woken.
abbrev pub woken : Ptr → List Ptr → List Ptr → List Ptr
woken parent ws rs = if has parent ws then rs ++ parent ∷ [] else rs

-- Where a node stands in a list.
place :
    (n : Ptr) (xs : List Ptr)
    → has n xs ≡ true
    → (ys : List Ptr) × (zs : List Ptr) × (xs ≡ ys ++ n ∷ zs) × (without n xs ≡ ys ++ zs)
unfolding without
place n [] i = cc
place n (x ∷ xs) i = elim (Bool-cases (n == x)) [
  | inl e ↦ let same : n ≡ x = ground arith in ([], xs, rw same refl, rw e refl)
  | inr e ↦
      let (ys, zs, at, out) = place n xs (ground arith) in
      (x ∷ ys, zs, ap (λ l. x ∷ l) at, rw e (ap (λ l. x ∷ l) out))
]

without-none : (n : Ptr) (xs : List Ptr) → has n xs ≡ false → without n xs ≡ xs
unfolding without
without-none n [] o = refl
without-none n (x ∷ xs) o = ground (arith, without-none n xs)

within :
    (a n : Ptr) (ws vs rs : List Ptr)
    → ws ≡ vs
    → has n ws ≡ true
    → has a (ws ++ rs) ≡ false
    → has a (vs ++ n ∷ rs) ≡ false
within a n ws vs rs same i o =
    let out : has a ws ≡ false = ground (arith, has-append a ws rs) in
    let out' : has a vs ≡ false = subst (λ l. has a l ≡ false) same out in
    ground (arith, has-append a ws rs, has-append a vs (n ∷ rs), ne_of_has a n ws out i)

pub has-snoc : (a n : Ptr) (xs : List Ptr) → has a (xs ++ n ∷ []) ≡ has a (n ∷ xs)
has-snoc a n xs = ground (arith, has-append a xs (n ∷ []))

pub woken-out :
    (a parent : Ptr) (ws rs : List Ptr)
    → has a (ws ++ rs) ≡ false
    → has a (woken parent ws rs) ≡ false
woken-out a parent ws rs o = elim (Bool-cases (has parent ws)) [
  | inl e ↦ rw e (
      ground (
        arith,
        has-append a ws rs,
        has-append a rs (parent ∷ []),
        ne_of_has a parent ws (has-first a ws rs o) e,
      ))
  | inr e ↦ rw e (ground (arith, has-append a ws rs))
]
  where
    has-first : (a : Ptr) (ws rs : List Ptr) → has a (ws ++ rs) ≡ false → has a ws ≡ false
    has-first a ws rs o = ground (arith, has-append a ws rs)

-- What check_wait does with a parent.
abbrev Wakes : (parent : Ptr) (rs ws : List Ptr) (s : Kernel) → Option (Unit {0} × Kernel) → Type 0
Wakes parent rs ws s o =
    Moves s s.procs.waiting (ws ++ rs) (woken parent ws rs) (without parent ws)
      (λ h. record s { heap = h }) o

pub check_wait_lem :
    (fuel : ℕ) (parent : Ptr) (rs ws : List Ptr) (s : Kernel)
    → AreQueues s.heap s.procs.ready s.procs.waiting rs ws
    → length ws < fuel
    → parent ≢ null
    → Wakes parent rs ws s (check_wait fuel parent s)
unfolding check_wait
check_wait_lem fuel parent rs ws s q enough ne = wakes (has parent ws) refl
  where
    asked : has_member fuel s.procs.waiting parent s.heap ≡ some (has parent ws, s.heap)
    asked = has_member_lem s.heap s.procs.waiting ws q.blocked_list fuel parent enough ne

    wakes : (b : Bool) → has parent ws ≡ b → Wakes parent rs ws s (check_wait fuel parent s)
    wakes false e = record {
      after = s.heap;
      returns = run_heap s (has_member fuel s.procs.waiting parent) _ asked (rw e refl);
      queues = rw (e, without-none parent ws e) q;
      keeps = record { nodes = λ a o. refl; lists = λ k a b. refl; payloads = λ a. refl };
    }
    wakes true e =
        let (ys, zs, at, out) = place parent ws e in
        let b = s.procs.waiting in
        let q' = subst (AreQueues s.heap s.procs.ready b rs) at q in
        let moved = unblock_lem s b parent rs ys zs q' in
        record {
          after = moved.after;
          returns = run_heap s (has_member fuel b parent) _ asked (rw e moved.returns);
          queues = rw (e, out) moved.queues;
          keeps = record {
            nodes = λ a o. moved.keeps.nodes a (within a parent ws (ys ++ parent ∷ zs) rs at e o);
            lists = moved.keeps.lists;
            payloads = moved.keeps.payloads;
          };
        }
