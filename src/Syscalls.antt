-- ===== src/Syscalls.antt =====
-- ksrc/syscalls.c, statement by statement; KernelUserBrk stands in Memory, and the loading of a
-- program is an argument. Lengths and terminal numbers are not negative. `fuel` bounds every loop.
pub mod Unknown
pub mod Reaping
pub mod Wait
mod Tests
use yalnix_os.Common.{ℕ, zero, suc, ◌+◌, Bool, not, ◌&&◌, ◌||◌, leb, ◌==◌, if◌then◌else◌}
use yalnix_os.Common.Int.{ℤ, pos, negsuc, minus_one}
use yalnix_os.Heap.{Ptr, null, load}
use yalnix_os.LinkedList.{is_empty, dequeue}
use yalnix_os.Memory.{Machine, kernel_user_brk}
use yalnix_os.Memory.Checks.{check_addr, check_buffer, no_kernel_memory, check_string, check_args}
use yalnix_os.Memory.Tables.{kc_copy}
use yalnix_os.Sched.{ready, block_wait, block_delay, graveyard}
use yalnix_os.Process.{
  Fresh, get_pid, process_copy, process_destroy, process_terminate, reap_orphans, set_mem,
}
use yalnix_os.Locks.{
  new_id, new_lock, new_cvar, try_acquire, release, destroy_lock, destroy_cvar, signal_cvar,
  broadcast, try_wait_cvar, find_lock, find_cvar,
}
use yalnix_os.Pipes.{new_pipe, try_read_pipe, write_pipe, destroy_pipe, find_pipe}
use yalnix_os.Ttys.{try_read_tty, write_tty}
use yalnix_os.Kernel.{
  Pcb, Outcome, in_wait, in_delay, returned, suspended, exited, halted, KernelCmd, done, ◌>>=◌,
  ◌>>◌, on_heap, kernel, load_pcb, store_pcb, data_of, write_user,
}

-- `((pcb_t *) procs->running->data)`
unfoldable pub running_pcb : KernelCmd Pcb
running_pcb = do s ← kernel; p ← data_of s.procs.running; load_pcb p

-- A call that returns in any case.
abbrev pub answer : KernelCmd ℤ → KernelCmd Outcome
answer c = do r ← c; done (returned r)

abbrev pub error : KernelCmd Outcome
error = done (returned minus_one)

module _ (m : Machine) (fuel : ℕ) where
  open m use {prot_read, prot_write, num_terminals}

  unfoldable pub kernel_get_pid : KernelCmd Outcome
  kernel_get_pid = do s ← kernel; answer (get_pid s.procs.running)

  -- KernelFork; the child goes on in the same place, with the result 0.
  pub kernel_fork : (f : Fresh) (new_pid : ℤ) → KernelCmd Outcome
  unfolding running_pcb
  kernel_fork f new_pid = do
    s ← kernel
    x ← running_pcb
    if no_kernel_memory m (x.userpt.size + 3) s.mem then error else do
      child_node ← process_copy m f new_pid s.procs.running
      ready child_node
      c ← data_of child_node
      child ← load_pcb c
      t ← kernel
      let copied = kc_copy m child.kstack t.mem
      store_pcb c (record child { kstack = copied.0 })
      set_mem copied.1
      answer (get_pid child_node)

  pub kernel_exit : ℤ → KernelCmd Outcome
  kernel_exit status = do
    s ← kernel
    if s.procs.running == s.init_node then done halted else do
      reap_orphans m fuel
      process_terminate m fuel s.procs.running status
      graveyard fuel
      done exited

  -- `load_program` is LoadProgram; its result KILL ends the process.
  pub kernel_exec :
      (load_program : KernelCmd ℤ) (is_kill : ℤ → Bool) (byte word : ℕ → ℕ) (filename argvec : ℕ)
      → KernelCmd Outcome
  unfolding running_pcb kernel_exit
  kernel_exec load_program is_kill byte word filename argvec = do
    x ← running_pcb
    if not (check_string m byte filename x.userpt) || not (check_args m byte word argvec x.userpt)
        then error
        else do
          code ← load_program
          if is_kill code then kernel_exit minus_one else done (returned code)

  -- `*status_ptr = child->code`, and the child is gone.
  pub reap_child : (status_ptr : ℕ) → Ptr → KernelCmd Outcome
  reap_child status_ptr child = do
    cid ← get_pid child
    x ← on_heap (load child)
    if status_ptr == null then done tt else write_user status_ptr (m.int_bytes x.code)
    process_destroy m child
    reap_orphans m fuel
    done (returned cid)

  -- The loop of KernelWait, up to its block.
  pub try_wait : (status_ptr : ℕ) → KernelCmd Outcome
  unfolding running_pcb reap_child
  try_wait status_ptr = do
    x ← running_pcb
    child ← on_heap (dequeue x.d_children)
    if child == null
        then (do block_wait; done (suspended (in_wait status_ptr)))
        else reap_child status_ptr child

  pub kernel_wait : (status_ptr : ℕ) → KernelCmd Outcome
  unfolding running_pcb try_wait
  kernel_wait status_ptr = do
    x ← running_pcb
    if not (status_ptr == null) && not (check_addr m status_ptr prot_write x.userpt)
        then error
        else do
          no_alive ← on_heap (is_empty x.a_children)
          no_defunct ← on_heap (is_empty x.d_children)
          if no_alive && no_defunct then error else try_wait status_ptr

  pub kernel_brk : ℕ → KernelCmd Outcome
  kernel_brk addr = do
    s ← kernel
    p ← data_of s.procs.running
    x ← load_pcb p
    let r = kernel_user_brk m addr x.userpt s.mem
    store_pcb p (record x { userpt = r.0 })
    set_mem r.1
    done (returned r.2)

  pub kernel_delay : ℤ → KernelCmd Outcome
  kernel_delay (negsuc n) = error
  kernel_delay (pos zero) = done (returned (pos 0))
  kernel_delay (pos (suc n)) = do block_delay (pos (suc n)); done (suspended in_delay)

  pub kernel_tty_read : (tty_id buf len : ℕ) → KernelCmd Outcome
  unfolding running_pcb
  kernel_tty_read tty_id buf len = do
    x ← running_pcb
    if leb num_terminals tty_id || not (check_buffer m (pos len) buf prot_read x.userpt)
        then error
        else try_read_tty tty_id buf len

  pub kernel_tty_write : (tty_id buf len : ℕ) → KernelCmd Outcome
  unfolding running_pcb
  kernel_tty_write tty_id buf len = do
    x ← running_pcb
    if leb num_terminals tty_id || not (check_buffer m (pos len) buf prot_write x.userpt)
        then error
        else write_tty tty_id buf len

  -- What the three calls that make an object share: the checks, the new id, and the id's way back.
  pub make_object : (idp : ℕ) (new_object : ℕ → KernelCmd Ptr) → KernelCmd Outcome
  unfolding running_pcb
  make_object idp new_object = do
    s ← kernel
    if no_kernel_memory m 1 s.mem then error else do
      x ← running_pcb
      if not (check_addr m idp prot_write x.userpt) then error else do
        id ← new_id
        n ← new_object id
        y ← on_heap (load n)
        if idp == null then done tt else write_user idp (m.int_bytes y.code)
        done (returned (pos 0))

  pub kernel_pipe_init : (fresh_pipe fresh_read fresh_write fresh_node idp : ℕ) → KernelCmd Outcome
  unfolding make_object
  kernel_pipe_init fresh_pipe fresh_read fresh_write fresh_node idp =
      make_object idp (new_pipe m.pipe_buffer_len fresh_pipe fresh_read fresh_write fresh_node)

  pub kernel_lock_init : (fresh_lock fresh_list fresh_node idp : ℕ) → KernelCmd Outcome
  unfolding make_object
  kernel_lock_init fresh_lock fresh_list fresh_node idp =
      make_object idp (new_lock fresh_lock fresh_list fresh_node)

  pub kernel_cvar_init : (junk_word fresh_cvar fresh_list fresh_node idp : ℕ) → KernelCmd Outcome
  unfolding make_object
  kernel_cvar_init junk_word fresh_cvar fresh_list fresh_node idp =
      make_object idp (new_cvar junk_word fresh_cvar fresh_list fresh_node)

  pub kernel_pipe_read : (pipe_id : ℤ) (buf len : ℕ) → KernelCmd Outcome
  unfolding running_pcb
  kernel_pipe_read pipe_id buf len = do
    p ← find_pipe fuel pipe_id
    x ← running_pcb
    if (p == null) || not (check_buffer m (pos len) buf prot_read x.userpt)
        then error
        else try_read_pipe fuel p buf len

  pub kernel_pipe_write : (junk : ℤ) (pipe_id : ℤ) (buf len : ℕ) → KernelCmd Outcome
  unfolding running_pcb
  kernel_pipe_write junk pipe_id buf len = do
    p ← find_pipe fuel pipe_id
    x ← running_pcb
    if (p == null) || not (check_buffer m (pos len) buf prot_write x.userpt)
        then error
        else write_pipe fuel junk p buf len

  pub kernel_acquire : ℤ → KernelCmd Outcome
  kernel_acquire lock_id = do l ← find_lock fuel lock_id; if l == null then error else try_acquire l

  pub kernel_release : ℤ → KernelCmd Outcome
  kernel_release lock_id = do
    l ← find_lock fuel lock_id
    if l == null then error else answer (release l)

  pub kernel_cvar_wait : (cvar_id lock_id : ℤ) → KernelCmd Outcome
  kernel_cvar_wait cvar_id lock_id = do
    l ← find_lock fuel lock_id
    c ← find_cvar fuel cvar_id
    if (l == null) || (c == null) then error else try_wait_cvar c l

  pub kernel_cvar_signal : ℤ → KernelCmd Outcome
  kernel_cvar_signal cvar_id = do
    c ← find_cvar fuel cvar_id
    if c == null then error else do signal_cvar c; done (returned (pos 0))

  pub kernel_cvar_broadcast : ℤ → KernelCmd Outcome
  kernel_cvar_broadcast cvar_id = do
    c ← find_cvar fuel cvar_id
    if c == null then error else do broadcast fuel c; done (returned (pos 0))

  pub kernel_reclaim : ℤ → KernelCmd Outcome
  kernel_reclaim id = do
    l ← find_lock fuel id
    c ← find_cvar fuel id
    p ← find_pipe fuel id
    if not (p == null)
        then answer (destroy_pipe p)
        else (if not (c == null)
            then answer (destroy_cvar c)
            else (if not (l == null) then answer (destroy_lock l) else error))
