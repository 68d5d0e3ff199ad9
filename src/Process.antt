-- ===== src/Process.antt =====
-- ksrc/process.c and the end of a process, statement by statement. `fresh_…` are what malloc returns,
-- `new_pid` what helper_new_pid returns; helper_retire_pid is the machine's. The loops take fuel.
pub mod Reap
pub mod Destroy
pub mod Ended
pub mod Orphans
pub mod Walk
pub mod Samples
mod Tests
use yalnix_os.Common.{ℕ, zero, suc, none, ◌==◌, if◌then◌else◌, update}
use yalnix_os.Common.Int.{ℤ}
use yalnix_os.Heap.{Ptr, null, load, store, load_list, free_list}
use yalnix_os.LinkedList.{new_ll, new_node, destroy_node, is_empty, enqueue, dequeue}
use yalnix_os.Memory.{Machine, Pages, UserPt, Mem, destroy_usermem}
use yalnix_os.Memory.Tables.{new_user_pt, copy_user_mem, destroy_kstack}
use yalnix_os.Kernel.{
  UserContext, KernelCmd, done, stuck, ◌>>=◌, ◌>>◌, on_heap, kernel, load_pcb, store_pcb, data_of,
}

-- What malloc leaves in a new process's structures, and their addresses.
pub record Fresh : Type 0 where
  pub pcb : Ptr
  pub a_children : Ptr
  pub d_children : Ptr
  pub node : Ptr
  pub copy : Ptr
  pub userpt : UserPt
  pub kstack : Pages
  pub uc : UserContext
  pub code : ℤ

abbrev pub free_pcb : Ptr → KernelCmd (Unit {0})
free_pcb p s = done tt (record s { pcb = update s.pcb p none })

abbrev pub free_node : Ptr → KernelCmd (Unit {0})
free_node n s = done tt (record s { heap = record s.heap { node = update s.heap.node n none } })

-- `free(last)`; free of NULL does nothing.
abbrev pub free_last : Ptr → KernelCmd (Unit {0})
free_last last = if last == null then done tt else free_node last

-- `memcpy` of the pages: the process `to` has the bytes of `from`.
abbrev pub copy_user_bytes : Ptr → Ptr → KernelCmd (Unit {0})
copy_user_bytes from to s = done tt (record s { user = update s.user to (s.user from) })

abbrev pub set_mem : Mem → KernelCmd (Unit {0})
set_mem x s = done tt (record s { mem = x })

-- get_pid
unfoldable pub get_pid : Ptr → KernelCmd ℤ
get_pid proc = do p ← data_of proc; x ← load_pcb p; done x.pid

module _ (m : Machine) where
  pub process_init : (f : Fresh) (new_pid : ℤ) → KernelCmd Ptr
  process_init f new_pid = do
    a ← on_heap (new_ll f.a_children)
    d ← on_heap (new_ll f.d_children)
    store_pcb f.pcb (record {
      pid = new_pid;
      parent = null;
      a_children = a;
      d_children = d;
      userpt = new_user_pt m f.userpt;
      kstack = f.kstack;
      uc = f.uc;
    })
    on_heap (new_node f.node f.code f.pcb)

  -- The child's bytes are the parent's.
  pub process_copy : (f : Fresh) (new_pid : ℤ) → Ptr → KernelCmd Ptr
  unfolding process_init
  process_copy f new_pid parent = do
    child_node ← process_init f new_pid
    c ← data_of child_node
    p ← data_of parent
    parent_pcb ← load_pcb p
    child_copy ← on_heap (new_node f.copy f.code c)
    on_heap (enqueue parent_pcb.a_children child_copy)
    child ← load_pcb c
    s ← kernel
    let copied = copy_user_mem m parent_pcb.userpt child.userpt s.mem
    set_mem copied.1
    store_pcb c (record child { parent = parent; uc = parent_pcb.uc; userpt = copied.0 })
    copy_user_bytes parent child_node
    done child_node

  pub process_destroy : Ptr → KernelCmd (Unit {0})
  process_destroy proc = do
    p ← data_of proc
    x ← load_pcb p
    s ← kernel
    let freed = destroy_kstack m x.kstack s.mem.free_frame
    set_mem (record s.mem { free_frame = freed.1 })
    on_heap (destroy_node proc)
    free_pcb p

  -- `((pcb_t *) curr->data)->parent = NULL; free(last); last = curr;` over the list of children.
  pub orphan_loop : ℕ → (curr last : Ptr) → KernelCmd (Unit {0})
  orphan_loop zero curr last = stuck
  orphan_loop (suc k) curr last = if curr == null then free_last last else do
    x ← on_heap (load curr)
    p ← load_pcb x.contents
    store_pcb x.contents (record p { parent = null })
    free_last last
    y ← on_heap (load curr)
    orphan_loop k y.next curr

  -- The loop over the defunct children.
  pub reap_loop : ℕ → Ptr → KernelCmd (Unit {0})
  unfolding process_destroy
  reap_loop zero curr = stuck
  reap_loop (suc k) curr =
      if curr == null
      then done tt
      else do process_destroy curr; y ← on_heap (load curr); reap_loop k y.next

  pub process_terminate : ℕ → Ptr → ℤ → KernelCmd (Unit {0})
  unfolding orphan_loop reap_loop
  process_terminate fuel proc rc = do
    x ← on_heap (load proc)
    on_heap (store proc (record x { code = rc }))
    p ← load_pcb x.contents
    s ← kernel
    let freed = destroy_usermem m p.userpt s.mem.free_frame
    set_mem (record s.mem { free_frame = freed.1 })
    store_pcb x.contents (record p { userpt = freed.0 })
    a ← on_heap (load_list p.a_children)
    orphan_loop fuel a.head null
    on_heap (free_list p.a_children)
    q ← load_pcb x.contents
    store_pcb x.contents (record q { a_children = null })
    d ← on_heap (load_list p.d_children)
    reap_loop fuel d.head
    on_heap (free_list p.d_children)
    r ← load_pcb x.contents
    store_pcb x.contents (record r { d_children = null })

  -- reap_orphans of ksrc/scheduling.c
  pub reap_orphans : ℕ → KernelCmd (Unit {0})
  unfolding process_destroy
  reap_orphans zero = stuck
  reap_orphans (suc k) = do
    s ← kernel
    empty ← on_heap (is_empty s.procs.orphans)
    if empty
        then done tt
        else do n ← on_heap (dequeue s.procs.orphans); process_destroy n; reap_orphans k
