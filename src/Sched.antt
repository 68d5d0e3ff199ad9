-- ===== src/Sched.antt =====
-- The functions of ksrc/scheduling.c, statement by statement. Control returns from switch_proc when
-- the process runs again: what comes behind a call of these functions is not part of them.
mod Tests
pub mod Queues
pub mod Quiet
pub mod Delay
pub mod Preempt
pub mod Turns
pub mod Waiting
pub mod Graveyard
pub mod Unblock
pub mod Block
use yalnix_os.Common.{
  ℕ, zero, suc, ◌+◌, ◌-◌, ◌≡◌, Option, none, some, Bool, true, false, List, ◌∷◌, not, ◌==◌,
  if◌then◌else◌,
}
use yalnix_os.Common.Int.{ℤ, pos, eqb_ℤ, pred}
use yalnix_os.Heap.{Ptr, null, load, store, load_list}
use yalnix_os.LinkedList.{new_ll, is_empty, enqueue, push, dequeue, remove, has_member}
use yalnix_os.Kernel.{
  Kernel, ProcTable, Pcb, KernelCmd, done, stuck, ◌>>=◌, ◌>>◌, on_heap, kernel, load_pcb,
}

-- The lists that `new_ll` returns are at the addresses given.
pub proc_table_init :
    (fresh_waiting fresh_ready fresh_delayed fresh_orphans : Ptr) → KernelCmd ProcTable
proc_table_init fresh_waiting fresh_ready fresh_delayed fresh_orphans = do
  waiting ← on_heap (new_ll fresh_waiting)
  ready_list ← on_heap (new_ll fresh_ready)
  delayed ← on_heap (new_ll fresh_delayed)
  orphans ← on_heap (new_ll fresh_orphans)
  done (record {
    running = null;
    waiting = waiting;
    ready = ready_list;
    delayed = delayed;
    orphans = orphans;
  })

pub ready : Ptr → KernelCmd (Unit {0})
ready proc = do s ← kernel; on_heap (enqueue s.procs.ready proc)

-- `procs->running = next; switch_proc(curr, next);`
pub run_next : Ptr → KernelCmd (Unit {0})
run_next next s = some (
  tt,
  record s {
    procs = record s.procs { running = next };
    switched = (s.procs.running, next) ∷ s.switched;
  },
)

pub next_ready : KernelCmd Ptr
next_ready = do
  s ← kernel
  empty ← on_heap (is_empty s.procs.ready)
  if empty then done s.idle_node else on_heap (dequeue s.procs.ready)

pub run_next_ready : KernelCmd (Unit {0})
unfolding next_ready run_next
run_next_ready = do next ← next_ready; run_next next

-- `if (procs->running != idle_node) ready(procs->running);`
pub ready_running : KernelCmd (Unit {0})
unfolding ready
ready_running = do
  s ← kernel
  if s.procs.running == s.idle_node then done tt else ready s.procs.running

pub preempt : Ptr → KernelCmd (Unit {0})
unfolding ready_running run_next
preempt next = do ready_running; run_next next

pub rr_preempt : KernelCmd (Unit {0})
unfolding ready_running run_next_ready
rr_preempt = do
  s ← kernel
  empty ← on_heap (is_empty s.procs.ready)
  if empty then done tt else do ready_running; run_next_ready

pub unblock : Ptr → Ptr → KernelCmd (Unit {0})
unfolding ready
unblock blocked proc = do
  empty ← on_heap (is_empty blocked)
  if empty then done tt else do n ← on_heap (remove blocked proc); ready n

unfoldable pub unblock_head : Ptr → KernelCmd (Unit {0})
unfolding unblock
unblock_head blocked = do l ← on_heap (load_list blocked); unblock blocked l.head

-- The first argument is fuel.
pub unblock_all : ℕ → Ptr → KernelCmd (Unit {0})
unfolding ready
unblock_all zero blocked = stuck
unblock_all (suc k) blocked = do
  empty ← on_heap (is_empty blocked)
  if empty then done tt else do n ← on_heap (dequeue blocked); ready n; unblock_all k blocked

pub block : Ptr → KernelCmd (Unit {0})
unfolding run_next_ready
block block_list = do s ← kernel; on_heap (enqueue block_list s.procs.running); run_next_ready

unfoldable pub h_block : Ptr → KernelCmd (Unit {0})
unfolding run_next_ready
h_block block_list = do s ← kernel; on_heap (push block_list s.procs.running); run_next_ready

pub block_wait : KernelCmd (Unit {0})
unfolding block
block_wait = do s ← kernel; block s.procs.waiting

-- The first argument is fuel.
pub check_wait : ℕ → Ptr → KernelCmd (Unit {0})
unfolding unblock
check_wait fuel parent = do
  s ← kernel
  waits ← on_heap (has_member fuel s.procs.waiting parent)
  if waits then unblock s.procs.waiting parent else done tt

pub block_delay : ℤ → KernelCmd (Unit {0})
unfolding block
block_delay delay = do
  s ← kernel
  x ← on_heap (load s.procs.running)
  on_heap (store s.procs.running (record x { code = delay }))
  block s.procs.delayed

-- The loop of `check_delay`; the first argument is fuel.
pub delay_loop : ℕ → Ptr → KernelCmd (Unit {0})
unfolding unblock
delay_loop zero curr = stuck
delay_loop (suc k) curr = if curr == null then done tt else do
  s ← kernel
  x ← on_heap (load curr)
  on_heap (store curr (record x { code = pred x.code }))
  if eqb_ℤ (pred x.code) (pos 0) then unblock s.procs.delayed curr else done tt
  y ← on_heap (load curr)
  delay_loop k y.next

pub check_delay : ℕ → KernelCmd (Unit {0})
unfolding delay_loop
check_delay fuel = do s ← kernel; l ← on_heap (load_list s.procs.delayed); delay_loop fuel l.head

-- get_parent of ksrc/process.c
pub get_parent : Ptr → KernelCmd Ptr
get_parent proc = do x ← on_heap (load proc); p ← load_pcb x.contents; done p.parent

-- A process that has ended goes to its parent, or to the orphans; the first argument is fuel.
pub hand_over : ℕ → Ptr → KernelCmd (Unit {0})
unfolding get_parent check_wait
hand_over fuel proc = do
  parent ← get_parent proc
  if parent == null then (do s ← kernel; on_heap (enqueue s.procs.orphans proc)) else (do
    x ← on_heap (load parent)
    p ← load_pcb x.contents
    on_heap (enqueue p.d_children proc)
    check_wait fuel parent)

pub graveyard : ℕ → KernelCmd (Unit {0})
unfolding hand_over run_next_ready
graveyard fuel = do s ← kernel; hand_over fuel s.procs.running; run_next_ready

pub defunct_blocked : ℕ → Ptr → Ptr → KernelCmd (Unit {0})
unfolding hand_over
defunct_blocked fuel blocked proc = do _ ← on_heap (remove blocked proc); hand_over fuel proc
