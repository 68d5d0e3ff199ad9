-- ===== src/Locks.antt =====
-- Locks and condition variables of ksrc/pilocvario.c, statement by statement. A function that can
-- block is cut there: `try_…` runs until it returns or blocks, and `wake_…` is what the process does
-- once it runs again. `fresh_…` are the addresses that malloc returns.
pub mod Effect
pub mod Destroy
pub mod Leak
pub mod Steps
pub mod Exclusion
mod Tests
use yalnix_os.Common.{
  ℕ, ◌+◌, Option, none, some, Bool, true, false, not, ◌||◌, ◌==◌, if◌then◌else◌, update,
}
use yalnix_os.Common.Int.{ℤ, pos, minus_one, pred, incr, is_positive}
use yalnix_os.Heap.{Ptr, null, load, store, free_list}
use yalnix_os.LinkedList.{new_ll, new_node, destroy_node, is_empty, enqueue, remove, find}
use yalnix_os.Sched.{block, unblock_head, unblock_all}
use yalnix_os.Kernel.{
  Kernel, Pilocvar, Lock, Cvar, Wait, Outcome, in_acquire, in_cvar, in_cvar_acquire, returned,
  suspended, exited, halted, KernelCmd, done, ◌>>=◌, ◌>>◌, on_heap, kernel, load_lock, load_cvar,
  store_lock, store_cvar, free_lock, free_cvar, data_of,
}

-- The lists that `new_ll` returns are at the addresses given.
pub pilocvar_init : (fresh_pipe fresh_lock fresh_cvar : Ptr) → KernelCmd Pilocvar
pilocvar_init fresh_pipe fresh_lock fresh_cvar = do
  pipe ← on_heap (new_ll fresh_pipe)
  lock ← on_heap (new_ll fresh_lock)
  cvar ← on_heap (new_ll fresh_cvar)
  done (record { count = 0; pipe = pipe; lock = lock; cvar = cvar })

-- `pilocvar->count++`
pub new_id : KernelCmd ℕ
new_id s = some (
  s.objects.pilocvar.count,
  record s {
    objects = record s.objects {
      pilocvar = record s.objects.pilocvar { count = s.objects.pilocvar.count + 1 };
    };
  },
)

-- `node_t *n = new_node(p); n->code = id; enqueue(list, n);`
pub new_object : (fresh_node payload list : Ptr) (id : ℕ) → KernelCmd Ptr
new_object fresh_node payload list id = do
  n ← on_heap (new_node fresh_node (pos id) payload)
  on_heap (enqueue list n)
  done n

pub new_lock : (fresh_lock fresh_list fresh_node : Ptr) (id : ℕ) → KernelCmd Ptr
unfolding new_object
new_lock fresh_lock fresh_list fresh_node id = do
  blocked ← on_heap (new_ll fresh_list)
  store_lock fresh_lock
      (record { owner = null; blocked = blocked; unfulfilled = pos 0; cvar = pos 0 })
  s ← kernel
  new_object fresh_node fresh_lock s.objects.pilocvar.lock id

-- The loop's test, and what follows it: the lock is taken, or the process blocks.
pub try_acquire : Ptr → KernelCmd Outcome
try_acquire lock_n = do
  s ← kernel
  p ← data_of lock_n
  lock ← load_lock p
  if (lock.owner == null) || (lock.owner == s.procs.running)
      then (do store_lock p (record lock { owner = s.procs.running }); done (returned (pos 0)))
      else (do block lock.blocked; done (suspended (in_acquire lock_n)))

pub wake_acquire : Ptr → KernelCmd Outcome
unfolding try_acquire
wake_acquire lock_n = do
  p ← data_of lock_n
  lock ← load_lock p
  store_lock p (record lock { unfulfilled = pred lock.unfulfilled })
  try_acquire lock_n

-- `if (!is_empty(lock->blocked)) { unblock_head(lock->blocked); lock->unfulfilled++; }`
pub hand_on : Ptr → Lock → KernelCmd (Unit {0})
hand_on p lock = do
  empty ← on_heap (is_empty lock.blocked)
  if empty then done tt else do
    unblock_head lock.blocked
    store_lock p (record lock { unfulfilled = incr lock.unfulfilled })

pub release : Ptr → KernelCmd ℤ
unfolding hand_on
release lock_n = do
  s ← kernel
  p ← data_of lock_n
  lock ← load_lock p
  if not (lock.owner == s.procs.running) then done minus_one else do
    hand_on p lock
    l ← load_lock p
    store_lock p (record l { owner = null })
    done (pos 0)

-- The rest of `destroy_lock`, once no process needs the lock. `destroy_node` frees what the node
-- points to.
pub tear_down : (lock_n p : Ptr) → Lock → KernelCmd ℤ
tear_down lock_n p lock = do
  on_heap (free_list lock.blocked)
  store_lock p (record { owner = null; blocked = null; unfulfilled = pos 0; cvar = pos 0 })
  s ← kernel
  _ ← on_heap (remove s.objects.pilocvar.lock lock_n)
  on_heap (destroy_node lock_n)
  free_lock p
  done (pos 0)

pub destroy_lock : Ptr → KernelCmd ℤ
unfolding tear_down
destroy_lock lock_n = do
  p ← data_of lock_n
  lock ← load_lock p
  if not (lock.owner == null) then done minus_one else do
    empty ← on_heap (is_empty lock.blocked)
    if not empty || is_positive lock.unfulfilled || is_positive lock.cvar
        then done minus_one
        else tear_down lock_n p lock

-- The word behind the list has no value at first: it is the argument `junk_word`.
pub new_cvar : (junk_word fresh_cvar fresh_list fresh_node : Ptr) (id : ℕ) → KernelCmd Ptr
unfolding new_object
new_cvar junk_word fresh_cvar fresh_list fresh_node id = do
  blocked ← on_heap (new_ll fresh_list)
  store_cvar fresh_cvar (record { blocked = blocked; behind = junk_word })
  s ← kernel
  new_object fresh_node fresh_cvar s.objects.pilocvar.cvar id

pub signal_cvar : Ptr → KernelCmd (Unit {0})
signal_cvar cvar_n = do
  p ← data_of cvar_n
  cvar ← load_cvar p
  empty ← on_heap (is_empty cvar.blocked)
  if empty then done tt else unblock_head cvar.blocked

-- The first argument is fuel.
pub broadcast : ℕ → Ptr → KernelCmd (Unit {0})
broadcast fuel cvar_n = do
  p ← data_of cvar_n
  cvar ← load_cvar p
  empty ← on_heap (is_empty cvar.blocked)
  if empty then done tt else unblock_all fuel cvar.blocked

-- `wait_cvar` up to its `block`.
pub try_wait_cvar : (cvar_n lock_n : Ptr) → KernelCmd Outcome
unfolding release
try_wait_cvar cvar_n lock_n = do
  c ← data_of cvar_n
  cvar ← load_cvar c
  p ← data_of lock_n
  _ ← release lock_n
  lock ← load_lock p
  store_lock p (record lock { cvar = incr lock.cvar })
  block cvar.blocked
  done (suspended (in_cvar cvar_n lock_n))

-- `lock->cvar--` once `acquire` returns; the process may still block in it.
pub leave_cvar : Ptr → Outcome → KernelCmd Outcome
leave_cvar lock_n (returned r) = do
  p ← data_of lock_n
  lock ← load_lock p
  store_lock p (record lock { cvar = pred lock.cvar })
  done (returned (pos 0))
leave_cvar lock_n (suspended w) = done (suspended (in_cvar_acquire lock_n))
leave_cvar lock_n exited = done exited
leave_cvar lock_n halted = done halted

-- `wait_cvar` from its `block` on.
pub wake_cvar : Ptr → KernelCmd Outcome
unfolding try_acquire leave_cvar
wake_cvar lock_n = do o ← try_acquire lock_n; leave_cvar lock_n o

pub wake_cvar_acquire : Ptr → KernelCmd Outcome
unfolding wake_acquire leave_cvar
wake_cvar_acquire lock_n = do o ← wake_acquire lock_n; leave_cvar lock_n o

-- The code takes the condition variable for a `lock_t`, whose `blocked` is the second word: it reads,
-- frees and clears the word behind the list.
pub destroy_cvar : Ptr → KernelCmd ℤ
destroy_cvar cvar_n = do
  p ← data_of cvar_n
  cvar ← load_cvar p
  empty ← on_heap (is_empty cvar.behind)
  if not empty then done minus_one else do
    on_heap (free_list cvar.behind)
    store_cvar p (record cvar { behind = null })
    s ← kernel
    _ ← on_heap (remove s.objects.pilocvar.cvar cvar_n)
    on_heap (destroy_node cvar_n)
    free_cvar p
    done (pos 0)

-- `find` with fuel
unfoldable pub find_lock : ℕ → ℤ → KernelCmd Ptr
find_lock fuel id = do s ← kernel; on_heap (find fuel s.objects.pilocvar.lock id)

unfoldable pub find_cvar : ℕ → ℤ → KernelCmd Ptr
find_cvar fuel id = do s ← kernel; on_heap (find fuel s.objects.pilocvar.cvar id)
