-- ===== src/Sched/Quiet.antt =====
-- The scheduler leaves the objects of ksrc/pilocvario.c alone.
use yalnix_os.Common.{ℕ, zero, suc}
use yalnix_os.Heap.{Ptr, load_list}
use yalnix_os.LinkedList.{is_empty, enqueue, push, dequeue, remove}
use yalnix_os.Kernel.{kernel}
use yalnix_os.Kernel.Runs.{IsQuiet, done-IsQuiet, on_heap-IsQuiet, bind-IsQuiet, if-IsQuiet}
use yalnix_os.Sched.{
  ready, run_next, next_ready, run_next_ready, unblock, unblock_head, unblock_all, block, h_block,
}

pub kernel-IsQuiet : IsQuiet kernel
kernel-IsQuiet = record { objects = λ s a t e. cc }

run_next-IsQuiet : (n : Ptr) → IsQuiet (run_next n)
unfolding run_next
run_next-IsQuiet n = record { objects = λ s a t e. cc }

pub ready-IsQuiet : (n : Ptr) → IsQuiet (ready n)
unfolding ready
ready-IsQuiet n = bind-IsQuiet _ _ kernel-IsQuiet (λ s. on_heap-IsQuiet (enqueue s.procs.ready n))

next_ready-IsQuiet : IsQuiet next_ready
unfolding next_ready
next_ready-IsQuiet = bind-IsQuiet _ _ kernel-IsQuiet (λ s.
    bind-IsQuiet _ _ (on_heap-IsQuiet (is_empty s.procs.ready)) (λ empty.
      if-IsQuiet empty _ _ (done-IsQuiet s.idle_node) (on_heap-IsQuiet (dequeue s.procs.ready))))

run_next_ready-IsQuiet : IsQuiet run_next_ready
unfolding run_next_ready
run_next_ready-IsQuiet = bind-IsQuiet _ _ next_ready-IsQuiet run_next-IsQuiet

pub block-IsQuiet : (l : Ptr) → IsQuiet (block l)
unfolding block
block-IsQuiet l = bind-IsQuiet _ _ kernel-IsQuiet (λ s.
    bind-IsQuiet _ _ (on_heap-IsQuiet (enqueue l s.procs.running)) (λ _. run_next_ready-IsQuiet))

pub h_block-IsQuiet : (l : Ptr) → IsQuiet (h_block l)
unfolding h_block
h_block-IsQuiet l =
    bind-IsQuiet _ _ kernel-IsQuiet (λ s.
      bind-IsQuiet _ _ (on_heap-IsQuiet (push l s.procs.running)) (λ _. run_next_ready-IsQuiet))

unblock-IsQuiet : (l n : Ptr) → IsQuiet (unblock l n)
unfolding unblock
unblock-IsQuiet l n = bind-IsQuiet _ _ (on_heap-IsQuiet (is_empty l)) (λ empty.
    if-IsQuiet empty _ _ (done-IsQuiet tt)
      (bind-IsQuiet _ _ (on_heap-IsQuiet (remove l n)) ready-IsQuiet))

pub unblock_head-IsQuiet : (l : Ptr) → IsQuiet (unblock_head l)
unfolding unblock_head
unblock_head-IsQuiet l =
    bind-IsQuiet _ _ (on_heap-IsQuiet (load_list l)) (λ h. unblock-IsQuiet l h.head)

pub unblock_all-IsQuiet : (k : ℕ) (l : Ptr) → IsQuiet (unblock_all k l)
unfolding unblock_all
unblock_all-IsQuiet zero l = record { objects = λ s a t e. cc }
unblock_all-IsQuiet (suc k) l =
    let rest = unblock_all-IsQuiet k l in
    bind-IsQuiet _ _ (on_heap-IsQuiet (is_empty l)) (λ empty.
      if-IsQuiet empty _ _ (done-IsQuiet tt) (
        bind-IsQuiet _ _ (on_heap-IsQuiet (dequeue l))
          (λ n. bind-IsQuiet _ _ (ready-IsQuiet n) (λ _. rest))))
