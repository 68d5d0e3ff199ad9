-- ===== src/Process/Orphans.antt =====
-- reap_orphans of ksrc/scheduling.c: every orphan that has ended is destroyed.

use yalnix_os.Common.{ℕ, zero, suc, ◌≡◌, ◌<◌, refl, ◌∙◌, some, List, [], ◌∷◌, arith, length}
use yalnix_os.LinkedList.{is_empty, dequeue}
use yalnix_os.LinkedList.Shape.{IsList}
use yalnix_os.LinkedList.Steps.{is_empty-nil, is_empty-cons}
use yalnix_os.LinkedList.Ends.{Removes, dequeue_lem}
use yalnix_os.Memory.{Machine}
use yalnix_os.Kernel.{Kernel, run_heap}
use yalnix_os.Sched.Queues.{chain}
use yalnix_os.Process.{reap_orphans}
use yalnix_os.Process.Ended.{
  Ended, nodes_of, blocks_of, AreEnded, stack_frames, Reaps, IsList-without, destroyed-lem,
  others_ended, Reaps-step, then_on,
}

module _ (m : Machine) where
  abbrev taken_off :
      (o : Ended) (os : List Ended) (s : Kernel)
      → IsList s.heap s.procs.orphans (nodes_of (o ∷ os))
      → Removes s.heap s.procs.orphans o.node
          (nodes_of (o ∷ os))
          (nodes_of os)
          (dequeue s.procs.orphans s.heap)
  unfolding nodes_of
  taken_off o os s is = dequeue_lem s.heap s.procs.orphans o.node (nodes_of os) is

  one_reaped :
      (k : ℕ) (o : Ended) (os : List Ended) (s : Kernel)
      → (is : IsList s.heap s.procs.orphans (nodes_of (o ∷ os))) → (are : AreEnded m (o ∷ os) s)
      → reap_orphans m (suc k) s
        ≡ reap_orphans m k (then_on m o os s (taken_off o os s is).after are)
  unfolding reap_orphans nodes_of
  one_reaped k o os s is are =
      let off = taken_off o os s is in
      run_heap s (is_empty s.procs.orphans) _
        (is_empty-cons s.heap s.procs.orphans is.exists o.node (nodes_of os) is.header)
        (run_heap s (dequeue s.procs.orphans) _ off.returns (
          chain (λ _. reap_orphans m k)
            (destroyed-lem m o os s off.after are (off.keeps.payloads o.node)) refl))

  -- For ended processes with different nodes and blocks, in a well-formed list of orphans, whose kernel
  -- stacks own their frames and share none, and with more fuel than processes: reap_orphans returns;
  -- the list is then empty, each process's node and block are freed, no other ones are, and as many
  -- frames are back as the kernel stacks had pages.
  pub reap_orphans_lem :
      (fuel : ℕ) (os : List Ended) (s : Kernel)
      → IsList s.heap s.procs.orphans (nodes_of os)
      → AreEnded m os s
      → length os < fuel
      → (t : Kernel) × (reap_orphans m fuel s ≡ some (tt, t)) × Reaps m os s t
  unfolding reap_orphans nodes_of blocks_of stack_frames
  reap_orphans_lem zero os s is are enough = absurd (omega arith)
  reap_orphans_lem (suc k) [] s is are enough = (
    s,
    run_heap s (is_empty s.procs.orphans) _
        (is_empty-nil s.heap s.procs.orphans is.exists is.header) refl,
    record {
      procs = refl;
      user = refl;
      lists = λ l ne. refl;
      none_left = is;
      frames = omega arith;
      nodes_gone = λ a i. cc;
      other_nodes = λ a out. refl;
      blocks_gone = λ a i. cc;
      other_blocks = λ a out. refl;
    },
  )
  reap_orphans_lem (suc k) (o ∷ os) s is are enough =
      let off = taken_off o os s is in
      let out = is.distinct.0 in
      let (t, ran, reaps) =
        reap_orphans_lem k os (then_on m o os s off.after are)
          (IsList-without o.node off.is_list out)
          (others_ended m o os s off.after are out off.keeps.payloads) (omega arith) in
      (
        t,
        one_reaped k o os s is are ∙ ran,
        Reaps-step m o os s off.after are t (λ a o'. off.keeps.nodes a o') off.keeps.lists reaps,
      )
