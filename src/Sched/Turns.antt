-- ===== src/Sched/Turns.antt =====
-- Clock ticks in a row: `check_delay` and `rr_preempt` of ksrc/scheduling.c, as TrapClock calls them.
use mathlib.Core.Path.{subst}
use mathlib.Core.List.{append_assoc}
use yalnix_os.Common.{
  ℕ, zero, suc, ◌≡◌, refl, ap, ◌∙◌, ◌≢◌, Option, none, some, false, List, [], ◌∷◌, ◌++◌, arith,
  length,
}
use yalnix_os.Common.Int.{ℤ}
use yalnix_os.Heap.{Ptr, null, Node, load_list, load_list-ok}
use yalnix_os.LinkedList.Shape.{has, IsList, has-append}
use yalnix_os.LinkedList.Keeps.{payload}
use yalnix_os.Kernel.{Kernel, KernelCmd, done, ◌>>◌, run_heap}
use yalnix_os.Sched.{check_delay, delay_loop, rr_preempt}
use yalnix_os.Sched.Queues.{chain}
use yalnix_os.Sched.Preempt.{rr_preempt_lem}

-- `k` ticks.
pub ticks : (fuel : ℕ) → ℕ → KernelCmd (Unit {0})
ticks fuel zero = done tt
ticks fuel (suc k) = check_delay fuel >> rr_preempt >> ticks fuel k

-- The running process and the ready ones `rs` are different processes, none of them the idle one, and
-- no process is delayed.
pub record AreInTurn (s : Kernel) (rs : List Ptr) : Type 0 where
  pub ready_list : IsList s.heap s.procs.ready rs
  pub delayed_list : IsList s.heap s.procs.delayed []
  pub differ : s.procs.delayed ≢ s.procs.ready
  pub exists : s.procs.running ≢ null
  pub node : Node
  pub at : s.heap.node s.procs.running ≡ some node
  pub not_ready : has s.procs.running rs ≡ false
  pub not_idle : has s.idle_node (s.procs.running ∷ rs) ≡ false

-- A node that is still there with its payload is still there.
node_of : (c : Option Node) (q : Ptr × ℤ) → payload c ≡ some q → (x : Node) × (c ≡ some x)
node_of none q e = cc
node_of (some x) q e = (x, refl)

check_delay_none :
    (fuel : ℕ) (s : Kernel)
    → IsList s.heap s.procs.delayed []
    → check_delay (suc fuel) s ≡ some (tt, s)
unfolding check_delay delay_loop
check_delay_none fuel s is =
    run_heap s (load_list s.procs.delayed) (λ l. delay_loop (suc fuel) l.head)
      (load_list-ok s.heap s.procs.delayed is.exists is.header) refl

-- One tick runs the first ready process.
tick :
    (s : Kernel) (p : Ptr) (ps : List Ptr)
    → AreInTurn s (p ∷ ps)
    → (t : Kernel) × (rr_preempt s ≡ some (tt, t))
      × (t.procs.running ≡ p)
      × AreInTurn t (ps ++ s.procs.running ∷ [])
tick s p ps turn =
    let n = s.procs.running in
    let busy : n ≢ s.idle_node = ground (arith, turn.not_idle) in
    let step =
      rr_preempt_lem s p ps turn.ready_list turn.node busy turn.exists turn.at turn.not_ready in
    let (y, pne, aty, _, _, _) = turn.ready_list.chain in
    let (x, atx) =
      node_of (step.after.node p) (y.contents, y.code) (step.keeps.payloads p ∙ ap payload aty) in
    (
      _,
      step.returns,
      refl,
      record {
        ready_list = step.is_list;
        delayed_list = record {
          exists = turn.delayed_list.exists;
          header =
              step.keeps.lists s.procs.delayed turn.differ turn.differ ∙ turn.delayed_list.header;
          chain = tt;
          distinct = tt;
        };
        differ = turn.differ;
        exists = pne;
        node = x;
        at = atx;
        not_ready =
            ground (arith, has-append p ps (n ∷ []), turn.ready_list.distinct.0, turn.not_ready);
        not_idle = ground (arith, has-append s.idle_node ps (n ∷ []), turn.not_idle);
      },
    )

one_tick :
    (fuel : ℕ) (s t : Kernel)
    → IsList s.heap s.procs.delayed []
    → rr_preempt s ≡ some (tt, t)
    → (check_delay (suc fuel) >> rr_preempt) s ≡ some (tt, t)
one_tick fuel s t is ran = chain (λ _. rr_preempt) (check_delay_none fuel s is) ran

-- While no process is delayed, and the running process and the ready ones are different and not the
-- idle one: the process with `length ys` others before it in the ready queue runs after one clock tick
-- more, and the queue then holds those behind it, the one that ran, and those before it.
pub ticks_lem :
    (fuel : ℕ) (s : Kernel) (ys : List Ptr) (p : Ptr) (zs : List Ptr)
    → AreInTurn s (ys ++ p ∷ zs)
    → (t : Kernel) × (ticks (suc fuel) (suc (length ys)) s ≡ some (tt, t))
      × (t.procs.running ≡ p)
      × AreInTurn t (zs ++ s.procs.running ∷ ys)
unfolding ticks
ticks_lem fuel s [] p zs turn =
    let (t, ran, now, later) = tick s p zs turn in
    (
      t,
      chain (λ _. ticks (suc fuel) zero) (one_tick fuel s t turn.delayed_list ran) refl,
      now,
      later,
    )
ticks_lem fuel s (y ∷ ys) p zs turn =
    let n = s.procs.running in
    let (u, ran, now, later) = tick s y (ys ++ p ∷ zs) turn in
    let (t, rest, runs, end) =
      ticks_lem fuel u ys p (zs ++ n ∷ [])
        (subst (AreInTurn u) (append_assoc ys (p ∷ zs) (n ∷ [])) later) in
    (
      t,
      chain (λ _. ticks (suc fuel) (suc (length ys))) (one_tick fuel s u turn.delayed_list ran)
          rest,
      runs,
      subst (AreInTurn t)
          (append_assoc zs (n ∷ []) (u.procs.running ∷ ys) ∙ ap (λ a. zs ++ n ∷ a ∷ ys) now) end,
    )
