-- ===== src/Pipes/Tests.antt =====
-- A pipe through which process 1 sends bytes to process 2.
use yalnix_os.Common.{◌≡◌, refl, none, some, [], ◌∷◌, ◌++◌, arith, ◌==◌, if◌then◌else◌}
use yalnix_os.Common.Int.{pos}
use yalnix_os.Heap.{Ptr, null, Heap, load, load_list}
use yalnix_os.LinkedList.{is_empty}
use yalnix_os.LinkedList.Shape.{IsList}
use yalnix_os.Buffer.{Buffer, write_buffer, read_buffer}
use yalnix_os.Buffer.Slots.{bytes}
use yalnix_os.Buffer.Fifo.{IsValid, contents}
use yalnix_os.Kernel.{Kernel, Pipe, returned, set_pipe}
use yalnix_os.Kernel.Runs.{PointsTo}
use yalnix_os.Kernel.Samples.{no_objects, no_mem}
use yalnix_os.Pipes.{write_pipe, try_write_pipe, try_read_pipe, wake_all}
use yalnix_os.Pipes.Effect.{own_bytes}
use yalnix_os.Pipes.Stream.{IsInOrder, PipeSteps-IsInOrder, here, next, writes, reads, others}
use yalnix_os.Pipes.Total.{write_pipe_fits}

-- The node 7 points to the pipe at 70; nobody is blocked in the lists 300 and 301.
abbrev pipe_heap : Heap
pipe_heap = record {
  node = λ p.
      if p == 7
      then some (record { contents = 70; code = pos 4; next = null; prev = null })
      else none;
  list = λ l.
      if (l == 300)
      then some (record { size = 0; head = null; tail = null })
      else (if l == 301 then some (record { size = 0; head = null; tail = null }) else none);
}

abbrev pipe_of : Buffer → Pipe
pipe_of b = record { buffer = b; readblocked = 300; writeblocked = 301; unfulfilled = pos 0 }

-- The process in `q` runs, and the pipe's buffer is `b`; a process has the byte a at the address a.
abbrev running : Ptr → Buffer → Kernel
running q b = record {
  heap = pipe_heap;
  procs = record { running = q; waiting = 310; ready = 100; delayed = 200; orphans = 400 };
  idle_node = 9;
  init_node = 1;
  pcb = λ p. none;
  objects = record no_objects { pipe = λ p. if p == 70 then some (pipe_of b) else none };
  mem = no_mem;
  user = λ p a. a;
  switched = [];
}

-- A buffer of four bytes: empty; with 65 and 66; with 66.
abbrev fresh_buffer : Buffer
fresh_buffer = record { size = 4; filled = 0; head = 3; tail = 3; buffered = 0 ∷ 0 ∷ 0 ∷ 0 ∷ [] }

abbrev two_bytes : Buffer
two_bytes = record { size = 4; filled = 2; head = 3; tail = 1; buffered = 66 ∷ 0 ∷ 0 ∷ 65 ∷ [] }

abbrev one_byte : Buffer
one_byte = record { size = 4; filled = 1; head = 0; tail = 1; buffered = 66 ∷ 0 ∷ 0 ∷ 65 ∷ [] }

fresh_buffer-IsValid : IsValid fresh_buffer
fresh_buffer-IsValid = record {
  nonempty = omega arith;
  storage = refl;
  head_in = omega arith;
  fits = omega arith;
  tail_at = refl;
}

start-IsInOrder : IsInOrder 70 (running 1 fresh_buffer) (record { written = []; taken = [] })
start-IsInOrder = record {
  pipe = pipe_of fresh_buffer;
  at = refl;
  valid = fresh_buffer-IsValid;
  order = refl;
}

abbrev pipe_node : (q : Ptr) (b : Buffer) → PointsTo (running q b).heap 7 70
pipe_node q b =
    (record { contents = 70; code = pos 4; next = null; prev = null }, omega arith, refl, refl)

-- Process 1 writes 65 and 66, and process 2 reads 65.
PipeSteps-IsInOrder_example :
    IsInOrder 70 (running 2 one_byte) (record { written = 65 ∷ 66 ∷ []; taken = 65 ∷ [] })
unfolding try_write_pipe try_read_pipe write_buffer read_buffer wake_all load load_list is_empty
PipeSteps-IsInOrder_example = PipeSteps-IsInOrder 70 start-IsInOrder (
    next
      (next
        (next {u = running 2 two_bytes}
          (next here (
            writes 7 (pipe_of fresh_buffer) 1 65 2 2 (pos 0) _ (pipe_node 1 fresh_buffer) refl
              refl))
          (others refl))
        (reads 7 (pipe_of two_bytes) 1 90 1 _ (pipe_node 2 two_bytes) refl refl))
      (others refl))

blocked_nobody : IsList pipe_heap 300 []
blocked_nobody = record { exists = omega arith; header = refl; chain = tt; distinct = tt }

-- Three bytes fit, and the result is the 99 that `total` happened to hold.
write_pipe_fits_example :
    (q : Buffer) × (contents q
      ≡ contents fresh_buffer ++ bytes (own_bytes (running 1 fresh_buffer) 65) 0 3)
    × (write_pipe 1 (pos 99) 7 65 3 (running 1 fresh_buffer)
        ≡ some (returned (pos 99), set_pipe (running 1 fresh_buffer) 70 (some (pipe_of q))))
write_pipe_fits_example =
    write_pipe_fits 1 (pos 99) 7 70 65 3 (pipe_of fresh_buffer) (running 1 fresh_buffer)
      (pipe_node 1 fresh_buffer) refl blocked_nobody fresh_buffer-IsValid (omega arith)
