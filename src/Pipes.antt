-- ===== src/Pipes.antt =====
-- Pipes of ksrc/pilocvario.c, statement by statement. A function that can block is cut there: `try_…`
-- runs until it returns or blocks, and `wake_…` is what the process does once it runs again. `fresh_…`
-- are the addresses that malloc returns. Lengths are not negative. The process that runs reads and
-- writes its own memory. The loops of `unblock_all` take fuel.
pub mod Effect
pub mod Stream
pub mod Total
mod Tests
use yalnix_os.Common.{
  ℕ, ◌+◌, ◌-◌, List, [], ◌∷◌, Bool, true, false, not, ◌||◌, ltb, ◌==◌, if◌then◌else◌, update,
}
use yalnix_os.Common.Int.{ℤ, pos, minus_one, pred, ◌+ℤ◌, is_positive}
use yalnix_os.Heap.{Ptr, null, free_list}
use yalnix_os.LinkedList.{new_ll, destroy_node, is_empty, get_size, remove, find}
use yalnix_os.Buffer.{Buffer, Memory, new_buffer, write_buffer, read_buffer, destroy_buffer}
use yalnix_os.Sched.{block, unblock_all}
use yalnix_os.Locks.{new_object}
use yalnix_os.Kernel.{
  Kernel, Pipe, Outcome, in_read_pipe, in_write_pipe, returned, suspended, KernelCmd, done, ◌>>=◌,
  ◌>>◌, on_heap, kernel, load_pipe, store_pipe, free_pipe, data_of, user_memory, write_user,
}

pub new_pipe :
    (pipe_buffer_len fresh_pipe fresh_read fresh_write fresh_node : ℕ) (id : ℕ) → KernelCmd Ptr
new_pipe pipe_buffer_len fresh_pipe fresh_read fresh_write fresh_node id = do
  readblocked ← on_heap (new_ll fresh_read)
  writeblocked ← on_heap (new_ll fresh_write)
  store_pipe fresh_pipe (record {
    buffer = new_buffer pipe_buffer_len;
    readblocked = readblocked;
    writeblocked = writeblocked;
    unfulfilled = pos 0;
  })
  s ← kernel
  new_object fresh_node fresh_pipe s.objects.pilocvar.pipe id

-- `if (!is_empty(list)) { pipe->unfulfilled += get_size(list); unblock_all(list); }`
pub wake_all : ℕ → Ptr → Pipe → Ptr → KernelCmd (Unit {0})
wake_all fuel p pipe list = do
  empty ← on_heap (is_empty list)
  if empty then done tt else do
    size ← on_heap (get_size list)
    store_pipe p (record pipe { unfulfilled = pipe.unfulfilled +ℤ size })
    unblock_all fuel list

-- The loop's test, with its call of `write_buffer`, and what follows it. `src` is where the process's
-- bytes are, once it has moved on; `total` is what the source's variable holds.
pub try_write_pipe : (fuel : ℕ) (pipe_n src len len_left : ℕ) (total : ℤ) → KernelCmd Outcome
unfolding wake_all
try_write_pipe fuel pipe_n src len len_left total = do
  bytes ← user_memory src
  p ← data_of pipe_n
  pipe ← load_pipe p
  let b = write_buffer pipe.buffer bytes len
  let now = record pipe { buffer = b.0 }
  store_pipe p now
  if ltb b.1 len_left
      then (do
        block pipe.writeblocked
        done (suspended (in_write_pipe pipe_n (src + b.1) len (len_left - b.1) (total +ℤ pos b.1))))
      else (do wake_all fuel p now pipe.readblocked; done (returned total))

-- `int total` has no value at first: it is the argument `junk`.
pub write_pipe : (fuel : ℕ) (junk : ℤ) (pipe_n src len : ℕ) → KernelCmd Outcome
unfolding try_write_pipe
write_pipe fuel junk pipe_n src len = try_write_pipe fuel pipe_n src len len junk

-- `pipe->unfulfilled--`, then the loop goes on.
pub fulfill : Ptr → KernelCmd (Unit {0})
fulfill pipe_n = do
  p ← data_of pipe_n
  pipe ← load_pipe p
  store_pipe p (record pipe { unfulfilled = pred pipe.unfulfilled })

pub wake_write_pipe : (fuel : ℕ) (pipe_n src len len_left : ℕ) (total : ℤ) → KernelCmd Outcome
unfolding fulfill try_write_pipe
wake_write_pipe fuel pipe_n src len len_left total = do
  fulfill pipe_n
  try_write_pipe fuel pipe_n src len len_left total

pub try_read_pipe : (fuel : ℕ) (pipe_n dst len : ℕ) → KernelCmd Outcome
unfolding wake_all
try_read_pipe fuel pipe_n dst len = do
  p ← data_of pipe_n
  pipe ← load_pipe p
  let b = read_buffer pipe.buffer len
  let now = record pipe { buffer = b.0 }
  store_pipe p now
  write_user dst b.1
  if b.2 == 0
      then (do block pipe.readblocked; done (suspended (in_read_pipe pipe_n dst len)))
      else (do wake_all fuel p now pipe.writeblocked; done (returned (pos b.2)))

pub wake_read_pipe : (fuel : ℕ) (pipe_n dst len : ℕ) → KernelCmd Outcome
unfolding fulfill try_read_pipe
wake_read_pipe fuel pipe_n dst len = do fulfill pipe_n; try_read_pipe fuel pipe_n dst len

-- The rest of `destroy_pipe`, once no process needs the pipe.
pub tear_down : (pipe_n p : Ptr) → Pipe → KernelCmd ℤ
tear_down pipe_n p pipe = do
  store_pipe p (record pipe { buffer = destroy_buffer pipe.buffer })
  on_heap (free_list pipe.readblocked)
  on_heap (free_list pipe.writeblocked)
  s ← kernel
  _ ← on_heap (remove s.objects.pilocvar.pipe pipe_n)
  on_heap (destroy_node pipe_n)
  free_pipe p
  done (pos 0)

pub destroy_pipe : Ptr → KernelCmd ℤ
unfolding tear_down
destroy_pipe pipe_n = do
  p ← data_of pipe_n
  pipe ← load_pipe p
  no_readers ← on_heap (is_empty pipe.readblocked)
  if not no_readers then done minus_one else do
    no_writers ← on_heap (is_empty pipe.writeblocked)
    if not no_writers || is_positive pipe.unfulfilled
        then done minus_one
        else tear_down pipe_n p pipe

unfoldable pub find_pipe : ℕ → ℤ → KernelCmd Ptr
find_pipe fuel id = do s ← kernel; on_heap (find fuel s.objects.pilocvar.pipe id)
