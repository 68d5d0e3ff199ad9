-- ===== src/Pipes/Total.antt =====
-- What `write_pipe` of ksrc/pilocvario.c returns when everything fits.
use yalnix_os.Common.{ℕ, ◌+◌, ◌≤◌, ◌≡◌, refl, ap, ◌∙◌, [], ◌++◌, false, some, ltb, arith}
use yalnix_os.Common.Int.{ℤ}
use yalnix_os.Heap.{Ptr}
use yalnix_os.LinkedList.{is_empty}
use yalnix_os.LinkedList.Shape.{IsList}
use yalnix_os.LinkedList.Steps.{is_empty-nil}
use yalnix_os.Buffer.{Buffer, write_buffer}
use yalnix_os.Buffer.Slots.{bytes}
use yalnix_os.Buffer.Fifo.{IsValid, contents, write_buffer_lem}
use yalnix_os.Kernel.{Kernel, Pipe, returned, done, set_pipe, run_heap}
use yalnix_os.Kernel.Runs.{PointsTo, data_of-ok, go_on_eq}
use yalnix_os.Pipes.{write_pipe, try_write_pipe, wake_all}
use yalnix_os.Pipes.Effect.{own_bytes, load_pipe-ok}

-- For a valid buffer with room for len bytes and no blocked reader, write_pipe stores exactly the len
-- bytes behind those in the buffer, changes nothing else, and returns what its variable total held
-- before, not len.
pub write_pipe_fits :
    (fuel : ℕ) (junk : ℤ) (n p : Ptr) (src len : ℕ) (b : Pipe) (s : Kernel)
    → PointsTo s.heap n p
    → s.objects.pipe p ≡ some b
    → IsList s.heap b.readblocked []
    → IsValid b.buffer
    → b.buffer.filled + len ≤ b.buffer.size
    → (q : Buffer) × (contents q ≡ contents b.buffer ++ bytes (own_bytes s src) 0 len)
      × (write_pipe fuel junk n src len s
          ≡ some (returned junk, set_pipe s p (some (record b { buffer = q }))))
unfolding write_pipe try_write_pipe wake_all
write_pipe_fits fuel junk n p src len b s to at readers v room =
    let w : ℕ = (write_buffer b.buffer (own_bytes s src) len).1 in
    let (number, holds, _) = write_buffer_lem v (own_bytes s src) len in
    let all : w ≡ len = omega (arith, number) in
    let no_more : ltb w len ≡ false = ground arith in
    (
      (write_buffer b.buffer (own_bytes s src) len).0,
      holds ∙ ap (λ k. contents b.buffer ++ bytes (own_bytes s src) 0 k) all,
      go_on_eq _ (data_of-ok s n p to)
          ∙ go_on_eq _ (load_pipe-ok n p b s to at)
          ∙ rw no_more (
              go_on_eq (λ _. done (returned junk))
                (run_heap _ (is_empty b.readblocked) _
                  (is_empty-nil s.heap b.readblocked readers.exists readers.header) refl)),
    )
